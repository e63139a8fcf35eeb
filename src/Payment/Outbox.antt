-- ===== src/Payment/Outbox.antt =====
-- cmd/payment-service/internal/outbox/relay.go: the batches of the relay. The flags say which calls
-- fail, by the id of the event; `sent` is what the broker has taken, in order.
pub mod Relay
use q_pay_flow.Base.{
  String, Bool, not, Option, none, some, List, [], ◌∷◌, ◌++◌, Result, ok, err, ℕ, str_eq,
  if◌then◌else◌, ◌==◌,
}
use q_pay_flow.Idempotency.Manager.{Codec}
use q_pay_flow.Payment.Model.{OutboxEvent, PaymentCreatedEvent}
use q_pay_flow.Payment.Repository.{
  RepositoryError, get_pending_outbox_events, mark_outbox_event_processed,
}
use q_pay_flow.Schema.{Tables}

pub record Message : Type 0 where
  pub key : String
  pub value : String

pub record RelayEnv : Type 0 where
  pub query_fails : Bool
  pub scan_fails : Bool
  pub publish_fails : String → Bool
  pub mark_fails : String → Bool

-- `NewRelayWorker`: a batch size that is not positive becomes 50.
abbrev pub batch_size : ℕ → ℕ
batch_size batch = if batch == 0 then 50 else batch

abbrev pub key_of : OutboxEvent → Option PaymentCreatedEvent → String
key_of evt none = evt.aggregate_id
key_of evt (some created) =
    if not (str_eq created.source_account_id "")
    then created.source_account_id
    else evt.aggregate_id

module _ (json : Codec PaymentCreatedEvent) where
  -- The message of an event: partitioned by the source account, where the payload names it.
  abbrev pub message : OutboxEvent → Message
  message evt = record { key = key_of evt (json.decode evt.payload); value = evt.payload }

  -- The tables after an attempt to mark: an error is logged, and the loop goes on.
  abbrev pub after_mark : Tables → Result RepositoryError Tables → Tables
  after_mark t (ok t') = t'
  after_mark t (err e) = t

  unfoldable pub relay_event :
      RelayEnv → OutboxEvent → Tables × List Message → Tables × List Message
  relay_event env evt (t, sent) = if env.publish_fails evt.id then (t, sent) else (
    after_mark t (mark_outbox_event_processed (env.mark_fails evt.id) t evt.id),
    sent ++ message evt ∷ [],
  )

  abbrev pub relay_events :
      RelayEnv → List OutboxEvent → Tables × List Message → Tables × List Message
  relay_events env [] w = w
  relay_events env (evt ∷ events) w = relay_events env events (relay_event env evt w)

  abbrev pub relay_found :
      RelayEnv
      → Tables × List Message
      → Result RepositoryError (List OutboxEvent)
      → Result RepositoryError (Unit {0}) × Tables × List Message
  relay_found env (t, sent) (err e) = (err e, t, sent)
  relay_found env w (ok events) = let (t', sent') = relay_events env events w in (ok tt, t', sent')

  unfoldable pub process_batch :
      RelayEnv
      → (batch : ℕ) → Tables × List Message
      → Result RepositoryError (Unit {0}) × Tables × List Message
  process_batch env batch (t, sent) =
      relay_found env (t, sent) (get_pending_outbox_events env.query_fails env.scan_fails t batch)

  -- What wakes the loop of `Start`: the end of the context, or a tick with what the batch meets.
  abbrev pub relay_start :
      (batch : ℕ) → List (Option RelayEnv) → Tables × List Message → Tables × List Message
  relay_start batch [] w = w
  relay_start batch (none ∷ wakes) w = w
  relay_start batch (some env ∷ wakes) w =
      let (result, t, sent) = process_batch env batch w in relay_start batch wakes (t, sent)
