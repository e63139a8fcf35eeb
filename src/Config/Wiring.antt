-- ===== src/Config/Wiring.antt =====
-- The main functions of the services: which topics and consumer groups they take from their
-- configurations, and that the services fit together.
use q_pay_flow.Base.{String, List, ◌≡◌, refl}
use q_pay_flow.Config.{Environment, get_env}
use q_pay_flow.Config.Payment
use q_pay_flow.Config.Fraud
use q_pay_flow.Config.Notification

-- The arguments of `kafka.NewProducer`.
pub record Writer : Type 0 where
  pub brokers : List String
  pub topic : String

-- The arguments of `kafka.NewConsumer`, and of the reader in `saga.NewConsumer`.
pub record Reader : Type 0 where
  pub brokers : List String
  pub group_id : String
  pub topic : String

-- Where a reader gets what a writer publishes.
pub record Feeds (w : Writer) (r : Reader) : Type 0 where
  pub brokers_eq : r.brokers ≡ w.brokers
  pub topic_eq : r.topic ≡ w.topic

abbrev pub outbox_producer : Payment.Config → Writer
outbox_producer cfg = record { brokers = cfg.kafka.brokers; topic = cfg.kafka.payment_events_topic }

abbrev pub saga_reader : Payment.Config → Reader
saga_reader cfg = record {
  brokers = cfg.kafka.brokers;
  group_id = "payment-saga-group";
  topic = cfg.kafka.fraud_events_topic;
}

abbrev pub saga_producer : Payment.Config → Writer
saga_producer cfg = record { brokers = cfg.kafka.brokers; topic = cfg.kafka.payment_events_topic }

abbrev pub fraud_producer : Fraud.Config → Writer
fraud_producer cfg = record { brokers = cfg.kafka.brokers; topic = cfg.kafka.fraud_events_topic }

abbrev pub fraud_consumer : Fraud.Config → Reader
fraud_consumer cfg = record {
  brokers = cfg.kafka.brokers;
  group_id = cfg.kafka.fraud_group_id;
  topic = cfg.kafka.payment_events_topic;
}

abbrev pub notification_consumer : Notification.Config → Reader
notification_consumer cfg = record {
  brokers = cfg.kafka.brokers;
  group_id = cfg.kafka.notification_group_id;
  topic = cfg.kafka.payment_events_topic;
}

-- Each arrow of the saga.
pub record Wired (payment : Payment.Config) (fraud : Fraud.Config)
    (notification : Notification.Config) : Type 0 where
  pub created : Feeds (outbox_producer payment) (fraud_consumer fraud)
  pub checked : Feeds (fraud_producer fraud) (saga_reader payment)
  pub settled : Feeds (saga_producer payment) (notification_consumer notification)

-- Two services are told the same of Kafka.
pub record SameKafka (a b : Environment) : Type 0 where
  pub brokers : a "KAFKA_BROKERS" ≡ b "KAFKA_BROKERS"
  pub payment_events : a "KAFKA_PAYMENT_EVENTS_TOPIC" ≡ b "KAFKA_PAYMENT_EVENTS_TOPIC"
  pub fraud_events : a "KAFKA_FRAUD_EVENTS_TOPIC" ≡ b "KAFKA_FRAUD_EVENTS_TOPIC"

-- Where the three services are told the same of Kafka, set or not, they are wired: the fraud
-- service reads what the outbox relay publishes, the saga consumer what the fraud service does, and
-- the notification service what the saga consumer does, over the same brokers.
pub load-Wired :
    (payment fraud notification : Environment)
    → SameKafka payment fraud
    → SameKafka payment notification
    → Wired (Payment.load payment) (Fraud.load fraud) (Notification.load notification)
unfolding Payment.load Fraud.load Notification.load get_env
load-Wired payment fraud notification f n = record {
  created = record { brokers_eq = rw f.brokers refl; topic_eq = rw f.payment_events refl };
  checked = record { brokers_eq = rw f.brokers refl; topic_eq = rw f.fraud_events refl };
  settled = record { brokers_eq = rw n.brokers refl; topic_eq = rw n.payment_events refl };
}
