-- ===== src/Payment/Repository.antt =====
-- cmd/payment-service/internal/payment/repository.go, on the tables that the caller sees. The flag
-- of a method says that the database refuses or loses that call.
use q_pay_flow.Base.{
  ℕ, String, Bool, true, false, ◌||◌, List, [], ◌∷◌, ◌++◌, map, Option, none, some, Result, ok, err,
  str_eq, leb, if◌then◌else◌, select, take,
}
use q_pay_flow.Base.Table.{find_by}
use q_pay_flow.Payment.Model.{Payment, PaymentStatus, OutboxEvent}
use q_pay_flow.Schema.{Tables}

pub data RepositoryError : Type 0 where
  get_by_key_failed get_by_id_failed insert_payment_failed update_status_failed insert_event_failed
        query_pending_failed scan_failed mark_processed_failed :
      RepositoryError

abbrev pub is_found {ℓ} : {A : Type ℓ} → Option A → Bool
is_found none = false
is_found (some a) = true

abbrev pub find_payment : String → List Payment → Option Payment
find_payment = find_by (λ p. p.id)

abbrev pub find_by_idempotency_key : String → List Payment → Option Payment
find_by_idempotency_key = find_by (λ p. p.idempotency_key)

abbrev pub find_event : String → List OutboxEvent → Option OutboxEvent
find_event = find_by (λ e. e.id)

unfoldable pub get_payment_by_idempotency_key :
    Bool → Tables → String → Result RepositoryError (Option Payment)
get_payment_by_idempotency_key down t key =
    if down then err get_by_key_failed else ok (find_by_idempotency_key key t.payments)

-- PRIMARY KEY (id), and idempotency_key UNIQUE.
unfoldable pub create_payment : Bool → Tables → Payment → Result RepositoryError Tables
create_payment down t p =
    if down
      || is_found (find_payment p.id t.payments)
      || is_found (find_by_idempotency_key p.idempotency_key t.payments)
    then err insert_payment_failed
    else ok (record t { payments = t.payments ++ p ∷ [] })

unfoldable pub get_payment_by_id : Bool → Tables → String → Result RepositoryError (Option Payment)
get_payment_by_id down t id = if down then err get_by_id_failed else ok (find_payment id t.payments)

-- `SET status = $1, updated_at = NOW() WHERE id = $2`. No row is no error.
abbrev pub set_status : ℕ → String → PaymentStatus → Payment → Payment
set_status now id status p =
    if str_eq p.id id then record p { status = status; updated_at = now } else p

unfoldable pub update_payment_status :
    Bool → (now : ℕ) → Tables → String → PaymentStatus → Result RepositoryError Tables
update_payment_status down now t id status =
    if down
    then err update_status_failed
    else ok (record t { payments = map (set_status now id status) t.payments })

unfoldable pub create_outbox_event : Bool → Tables → OutboxEvent → Result RepositoryError Tables
create_outbox_event down t e =
    if down || is_found (find_event e.id t.outbox_events)
    then err insert_event_failed
    else ok (record t { outbox_events = t.outbox_events ++ e ∷ [] })

-- `ORDER BY created_at ASC`, and rows of the same time in the order of the table.
abbrev pub insert_by_time : OutboxEvent → List OutboxEvent → List OutboxEvent
insert_by_time e [] = e ∷ []
insert_by_time e (x ∷ xs) =
    if leb e.created_at x.created_at then e ∷ x ∷ xs else x ∷ insert_by_time e xs

abbrev pub order_by_time : List OutboxEvent → List OutboxEvent
order_by_time [] = []
order_by_time (x ∷ xs) = insert_by_time x (order_by_time xs)

abbrev pub is_pending : OutboxEvent → Bool
is_pending e = str_eq e.status "PENDING"

unfoldable pub get_pending_outbox_events :
    (query_down scan_down : Bool) → Tables → ℕ → Result RepositoryError (List OutboxEvent)
get_pending_outbox_events query_down scan_down t limit =
    if query_down
    then err query_pending_failed
    else if scan_down
    then err scan_failed
    else ok (take limit (order_by_time (select is_pending t.outbox_events)))

abbrev pub set_processed : String → OutboxEvent → OutboxEvent
set_processed id e = if str_eq e.id id then record e { status = "PROCESSED" } else e

unfoldable pub mark_outbox_event_processed : Bool → Tables → String → Result RepositoryError Tables
mark_outbox_event_processed down t id =
    if down
    then err mark_processed_failed
    else ok (record t { outbox_events = map (set_processed id) t.outbox_events })
