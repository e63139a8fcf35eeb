-- ===== src/Config/Gateway.antt =====
-- cmd/api-gateway/internal/config/config.go.
use q_pay_flow.Base.{String}
use q_pay_flow.Base.Atoi.{atoi}
use q_pay_flow.Config.{Environment, ServerConfig, RedisConfig, redis_config, get_env}

pub record Config : Type 0 where
  pub server : ServerConfig
  pub redis : RedisConfig

unfoldable pub load : Environment → Config
unfolding get_env
load env =
    let get : String → String → String = get_env env in
    record { server = record { port = atoi (get "PORT" "8000") }; redis = redis_config get }
