-- ===== src/Config/Payment.antt =====
-- cmd/payment-service/internal/config/config.go.
use q_pay_flow.Base.{String, List}
use q_pay_flow.Base.Atoi.{atoi}
use q_pay_flow.Config.{
  Environment, ServerConfig, PostgresConfig, postgres_config, RedisConfig, redis_config,
  split_comma, get_env,
}

pub record KafkaConfig : Type 0 where
  pub brokers : List String
  pub payment_events_topic : String
  pub fraud_events_topic : String

pub record Config : Type 0 where
  pub server : ServerConfig
  pub postgres : PostgresConfig
  pub redis : RedisConfig
  pub kafka : KafkaConfig

unfoldable pub load : Environment → Config
unfolding get_env
load env =
    let get : String → String → String = get_env env in
    record {
      server = record { port = atoi (get "PORT" "8001") };
      postgres = postgres_config get "POSTGRES_SSLMODE";
      redis = redis_config get;
      kafka = record {
        brokers = split_comma (get "KAFKA_BROKERS" "localhost:9092");
        payment_events_topic = get "KAFKA_PAYMENT_EVENTS_TOPIC" "payment-events";
        fraud_events_topic = get "KAFKA_FRAUD_EVENTS_TOPIC" "fraud-events";
      };
    }
