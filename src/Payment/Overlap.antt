-- ===== src/Payment/Overlap.antt =====
-- cmd/payment-service/internal/payment/service.go: `ProcessFraudResult` cut at its calls to the
-- database, the breaker, the account service and Redis. Several runs of it, as of two consumers
-- during a rebalance, interleave at these cuts. No row lock and no transaction spans two of them.
pub mod Alone
use q_pay_flow.Base.{
  ℕ, zero, suc, String, Bool, true, false, Option, none, some, Result, ok, err, List, [], ◌∷◌,
  if◌then◌else◌,
}
use q_pay_flow.Redis.Interface.{Redis}
use q_pay_flow.Idempotency.Manager
use q_pay_flow.Resilience.Breaker.{CircuitBreaker, admit, settle, is_err}
use q_pay_flow.Payment.Model.{Payment, PaymentStatus, failed}
use q_pay_flow.Payment.Repository.{RepositoryError, get_payment_by_id, update_payment_status}
use q_pay_flow.Payment.Create.{Encodings}
use q_pay_flow.Payment.Process.{
  TransferBody, transfer_body, CallError, call_transfer, Site, mark_failed, mark_final,
  get_payment_row, Env, ProcessError, find_failed, update_failed, payment_not_found, final_status,
  is_pending_status, World,
}
use q_pay_flow.Schema.{Tables}

-- Where a run stands, with its local variables.
pub data Phase : Type 0 where
  waiting : Phase
  admitting calling : Payment → Phase
  returning : Payment → Result CallError (Unit {0}) → Phase
  marking : Site → Payment → PaymentStatus → Phase
  completing : Payment → Phase
  finished : Result ProcessError Payment → Phase

-- A run of `ProcessFraudResult`: its arguments, and how far it is.
pub record Worker : Type 0 where
  pub payment_id : String
  pub approved : Bool
  pub phase : Phase

-- A fraud result that has come in.
abbrev pub arrived : String → Bool → Worker
arrived payment_id approved = record {
  payment_id = payment_id;
  approved = approved;
  phase = waiting;
}

-- What follows `GetPaymentByID`.
unfoldable pub after_read : String → Bool → Result RepositoryError (Option Payment) → Phase
after_read payment_id approved (err e) = finished (err (find_failed e))
after_read payment_id approved (ok none) = finished (err (payment_not_found payment_id))
after_read payment_id approved (ok (some p)) =
    if is_pending_status p.status
    then (if approved then admitting p else marking mark_failed p failed)
    else finished (ok p)

module _ (rdb : Redis) (enc : Encodings) (ttl : ℕ)
    (server : TransferBody → Tables → ℕ × Tables) where
  abbrev after_write :
      Payment
      → PaymentStatus
      → World rdb enc ttl server
      → Result RepositoryError Tables
      → Phase × World rdb enc ttl server
  after_write p status w (err e) = (finished (err (update_failed e)), w)
  after_write p status (t, s, cb) (ok t') = (completing (record p { status = status }), (t', s, cb))

  -- One step of a run.
  unfoldable pub advance :
      Env → String → Bool → Phase → World rdb enc ttl server → Phase × World rdb enc ttl server
  advance env id approved waiting w =
      (after_read id approved (get_payment_by_id (env.fails get_payment_row) w.0 id), w)
  advance env id approved (admitting p) (t, s, cb) =
      let (admitted, cb') = admit env.now cb in
      (if admitted then calling p else marking mark_final p failed, (t, s, cb'))
  advance env id approved (calling p) (t, s, cb) =
      let (res, t') = call_transfer server env.delivery (transfer_body p) t in
      (returning p res, (t', s, cb))
  advance env id approved (returning p res) (t, s, cb) =
      (marking mark_final p (final_status res), (t, s, settle (is_err res) env.later cb))
  advance env id approved (marking site p status) w =
      after_write p status w (update_payment_status (env.fails site) env.later w.0 id status)
  advance env id approved (completing p) (t, s, cb) =
      let s' =
        (Manager.complete rdb enc.record_json ttl env.redis_fails p.idempotency_key
          (some (enc.payment_json.encode p)) env.later s).1 in
      (finished (ok p), (t, s', cb))
  advance env id approved (finished r) w = (finished r, w)

  -- A run with no other in between.
  unfoldable pub advance_by :
      ℕ → Env → String → Bool → Phase → World rdb enc ttl server → Phase × World rdb enc ttl server
  advance_by zero env id approved phase w = (phase, w)
  advance_by (suc n) env id approved phase w =
      let (phase', w') = advance env id approved phase w in advance_by n env id approved phase' w'

  -- The run at a position takes a step.
  unfoldable pub advance_at :
      ℕ → Env → List Worker → World rdb enc ttl server → List Worker × World rdb enc ttl server
  advance_at n env [] w = ([], w)
  advance_at zero env (k ∷ ks) w =
      let (phase, w') = advance env k.payment_id k.approved k.phase w in
      (record k { phase = phase } ∷ ks, w')
  advance_at (suc n) env (k ∷ ks) w = let (ks', w') = advance_at n env ks w in (k ∷ ks', w')

-- Which run steps next, and what it meets; the account service may meet something else each time.
unfoldable pub run_moves :
    (rdb : Redis) (enc : Encodings) (ttl : ℕ) {E : Type 0}
    (server : E → TransferBody → Tables → ℕ × Tables)
    → List (ℕ × E × Env)
    → List Worker × (Tables × rdb.Store × CircuitBreaker)
    → List Worker × (Tables × rdb.Store × CircuitBreaker)
run_moves rdb enc ttl server [] c = c
run_moves rdb enc ttl server ((n, e, env) ∷ moves) (ks, w) =
    run_moves rdb enc ttl server moves (advance_at rdb enc ttl (server e) n env ks w)
