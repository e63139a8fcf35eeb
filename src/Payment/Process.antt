-- ===== src/Payment/Process.antt =====
-- cmd/payment-service/internal/payment/service.go: `GetPayment` and `ProcessFraudResult`, with the
-- HTTP call to the account service. What answers that call is a parameter, `server`: it takes a
-- request to the tables of the shared database and gives a status code.
use Prim.Native.String
use q_pay_flow.Base.{
  ℕ, String, Bool, true, false, Option, none, some, Result, ok, err, if◌then◌else◌, ◌==◌,
}
use q_pay_flow.Base.Int.{ℤ}
use q_pay_flow.Redis.Interface.{Redis}
use q_pay_flow.Idempotency.Manager
use q_pay_flow.Resilience.Breaker.{CircuitBreaker, execute}
use q_pay_flow.Payment.Model.{Payment, PaymentStatus, pending, success, failed}
use q_pay_flow.Payment.Repository.{RepositoryError, get_payment_by_id, update_payment_status}
use q_pay_flow.Payment.Create.{Encodings}
use q_pay_flow.Schema.{Tables}

-- The JSON body that is posted to `/accounts/transfer`.
pub record TransferBody : Type 0 where
  pub transaction_id : String
  pub from_account_id : String
  pub to_account_id : String
  pub amount : ℤ
  pub currency : String
  pub description : String

abbrev pub transfer_body : Payment → TransferBody
transfer_body p = record {
  transaction_id = p.id;
  from_account_id = p.source_account_id;
  to_account_id = p.target_account_id;
  amount = p.amount;
  currency = p.currency;
  description = String.◌++◌ "Payment " p.id;
}

-- How the HTTP exchange goes: the request is not made or does not arrive, it is served and the
-- reply is lost (as after the client's timeout), or the reply arrives.
pub data Delivery : Type 0 where
  not_sent reply_lost replied : Delivery

pub data CallError : Type 0 where
  request_failed : CallError
  transfer_status : ℕ → CallError

abbrev pub on_status : ℕ × Tables → Result CallError (Unit {0}) × Tables
on_status (status, t) = (if status == 200 then ok tt else err (transfer_status status), t)

-- The closure that the circuit breaker runs.
unfoldable pub call_transfer :
    (TransferBody → Tables → ℕ × Tables)
    → Delivery
    → TransferBody
    → Tables
    → Result CallError (Unit {0}) × Tables
call_transfer server not_sent body t = (err request_failed, t)
call_transfer server reply_lost body t = (err request_failed, (server body t).1)
call_transfer server replied body t = on_status (server body t)

pub data Site : Type 0 where
  get_payment_row mark_failed mark_final : Site

pub record Env : Type 0 where
  pub now : ℕ  -- when the breaker is asked, and of the first update
  pub later : ℕ  -- when the call has come back
  pub delivery : Delivery
  pub fails : Site → Bool
  pub redis_fails : Manager.Site → Bool

pub data ProcessError : Type 0 where
  find_failed update_failed : RepositoryError → ProcessError
  payment_not_found : String → ProcessError

abbrev pub is_pending_status : PaymentStatus → Bool
is_pending_status pending = true
is_pending_status _ = false

-- `GetPayment`.
unfoldable pub get_payment : Bool → Tables → String → Result RepositoryError (Option Payment)
unfolding get_payment_by_id
get_payment down t id = get_payment_by_id down t id

abbrev pub final_status : {E : Type 0} → Result E (Unit {0}) → PaymentStatus
final_status (ok u) = success
final_status (err e) = failed

module _ (rdb : Redis) (enc : Encodings) (ttl : ℕ)
    (server : TransferBody → Tables → ℕ × Tables) where
  open rdb use {Store}

  -- The state that a run works on: the tables, the idempotency store, the circuit breaker.
  abbrev pub World : Type 0
  World = Tables × Store × CircuitBreaker

  abbrev pub Reply : Type 0
  Reply = Result ProcessError Payment × World

  -- Write a final status; then `p.Status = ...` and `Complete`, whose error is passed over.
  abbrev pub after_update :
      Env → Payment → PaymentStatus → World → Result RepositoryError Tables → Reply
  after_update env p status w (err e) = (err (update_failed e), w)
  after_update env p status (t, s, cb) (ok t') =
      let done = record p { status = status } in
      let s' =
        (Manager.complete rdb enc.record_json ttl env.redis_fails p.idempotency_key
          (some (enc.payment_json.encode done)) env.later s).1 in
      (ok done, (t', s', cb))

  unfoldable pub finalize : Env → Site → String → Payment → PaymentStatus → World → Reply
  finalize env site payment_id p status w =
      after_update env p status w
        (update_payment_status (env.fails site) env.later w.0 payment_id status)

  -- Step 2 and 3 for an approved payment: the transfer behind the breaker, and its outcome.
  unfoldable pub settle_approved : Env → String → Payment → World → Reply
  unfolding finalize
  settle_approved env payment_id p (t, s, cb) =
      let (res, cb', t') =
        execute env.now env.later (call_transfer server env.delivery (transfer_body p)) (cb, t) in
      finalize env mark_final payment_id p (final_status res) (t', s, cb')

  abbrev pub on_payment :
      Env → String → Bool → World → Result RepositoryError (Option Payment) → Reply
  on_payment env payment_id approved w (err e) = (err (find_failed e), w)
  on_payment env payment_id approved w (ok none) = (err (payment_not_found payment_id), w)
  on_payment env payment_id approved w (ok (some p)) =
      if is_pending_status p.status
      then (if approved
          then settle_approved env payment_id p w
          else finalize env mark_failed payment_id p failed w)
      else (ok p, w)

  unfoldable pub process_fraud_result : Env → String → Bool → World → Reply
  unfolding settle_approved
  process_fraud_result env payment_id approved w =
      on_payment env payment_id approved w
        (get_payment_by_id (env.fails get_payment_row) w.0 payment_id)
