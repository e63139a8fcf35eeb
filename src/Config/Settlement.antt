-- ===== src/Config/Settlement.antt =====
-- cmd/settlement-service/internal/config/config.go.
use q_pay_flow.Base.{String}
use q_pay_flow.Base.Atoi.{atoi}
use q_pay_flow.Config.{
  Environment, ServerConfig, PostgresConfig, postgres_config, RedisConfig, redis_config,
  get_env_nonempty,
}

pub record Config : Type 0 where
  pub server : ServerConfig
  pub postgres : PostgresConfig
  pub redis : RedisConfig

unfoldable pub load : Environment → Config
unfolding get_env_nonempty
load env =
    let get : String → String → String = get_env_nonempty env in
    record {
      server = record { port = atoi (get "PORT" "8005") };
      postgres = postgres_config get "POSTGRES_SSL_MODE";
      redis = redis_config get;
    }
