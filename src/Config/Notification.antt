-- ===== src/Config/Notification.antt =====
-- cmd/notification-service/internal/config/config.go.
use q_pay_flow.Base.{String, List}
use q_pay_flow.Base.Atoi.{atoi}
use q_pay_flow.Config.{Environment, ServerConfig, split_comma, get_env}

pub record KafkaConfig : Type 0 where
  pub brokers : List String
  pub payment_events_topic : String
  pub notification_group_id : String

pub record Config : Type 0 where
  pub server : ServerConfig
  pub kafka : KafkaConfig

unfoldable pub load : Environment → Config
unfolding get_env
load env =
    let get : String → String → String = get_env env in
    record {
      server = record { port = atoi (get "PORT" "8004") };
      kafka = record {
        brokers = split_comma (get "KAFKA_BROKERS" "localhost:9092");
        payment_events_topic = get "KAFKA_PAYMENT_EVENTS_TOPIC" "payment-events";
        notification_group_id = get "KAFKA_NOTIFICATION_GROUP_ID" "notification-service-group";
      };
    }
