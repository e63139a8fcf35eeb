-- ===== src/Scenarios/Relays.antt =====
-- A batch of the relay, in which the broker refuses one of two events.
use q_pay_flow.Base.{false, refl, [], ◌∷◌, str_eq}
use q_pay_flow.Payment.Outbox.{RelayEnv, process_batch}
use q_pay_flow.Payment.Outbox.Relay.{Kept, process_batch-Kept}
use q_pay_flow.Scenarios.Payments.{recorded, paid_event, encodings}
use q_pay_flow.Schema.{Tables}

abbrev relay_env : RelayEnv
relay_env = record {
  query_fails = false;
  scan_fails = false;
  publish_fails = λ id. str_eq id "evt_9";
  mark_fails = λ id. false;
}

abbrev two_events : Tables
two_events = record recorded {
  outbox_events = paid_event ∷ record paid_event { id = "evt_9" } ∷ [];
}

process_batch-Kept_example : Kept encodings.created_json "evt_0" paid_event (
  (process_batch encodings.created_json relay_env 10 (two_events, [])).1,
  (process_batch encodings.created_json relay_env 10 (two_events, [])).2,
)
process_batch-Kept_example =
    process_batch-Kept encodings.created_json relay_env 10 paid_event two_events []
      (refl, (refl, tt)) refl
