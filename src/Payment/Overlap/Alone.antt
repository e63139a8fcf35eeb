-- ===== src/Payment/Overlap/Alone.antt =====
-- A run of the cut `ProcessFraudResult` that nothing interrupts.
use q_pay_flow.Base.{
  ℕ, zero, suc, ◌≡◌, refl, String, Bool, true, false, Option, none, some, Result, ok, err, inl, inr,
  Bool-cases,
}
use q_pay_flow.Redis.Interface.{Redis}
use q_pay_flow.Resilience.Breaker.{admit, execute, as_call}
use q_pay_flow.Payment.Model.{Payment, PaymentStatus, failed}
use q_pay_flow.Payment.Repository.{RepositoryError, get_payment_by_id, update_payment_status}
use q_pay_flow.Payment.Create.{Encodings}
use q_pay_flow.Payment.Process.{
  TransferBody, transfer_body, call_transfer, Site, mark_failed, mark_final, get_payment_row, Env,
  final_status, is_pending_status, World, Reply, finalize, settle_approved, on_payment,
  process_fraud_result,
}
use q_pay_flow.Payment.Overlap.{
  Phase, waiting, admitting, marking, finished, after_read, advance, advance_by,
}
use q_pay_flow.Schema.{Tables}

final_status-as_call :
    {E : Type 0} (res : Result E (Unit {0})) → final_status (as_call res) ≡ final_status res
final_status-as_call (ok u) = refl
final_status-as_call (err e) = refl

module _ (rdb : Redis) (enc : Encodings) (ttl : ℕ)
    (server : TransferBody → Tables → ℕ × Tables) where
  abbrev ended : Reply rdb enc ttl server → Phase × World rdb enc ttl server
  ended (r, w) = (finished r, w)

  advance_by-finished :
      (n : ℕ) (env : Env) (id : String) (approved : Bool) (out : Reply rdb enc ttl server)
      → advance_by rdb enc ttl server n env id approved (finished out.0) out.1 ≡ ended out
  unfolding advance_by advance
  advance_by-finished zero env id approved out = refl
  advance_by-finished (suc n) env id approved out = advance_by-finished n env id approved out

  advance_by-finalize :
      (n : ℕ) (env : Env) (site : Site) (id : String) (approved : Bool) (p : Payment)
      (status : PaymentStatus) (w : World rdb enc ttl server)
      → advance_by rdb enc ttl server (suc (suc n)) env id approved (marking site p status) w
        ≡ ended (finalize rdb enc ttl server env site id p status w)
  unfolding advance_by advance finalize update_payment_status
  advance_by-finalize n env site id approved p status (t, s, cb) =
      elim (Bool-cases (env.fails site)) [
        | inl e ↦ rw e (advance_by-finished n env id approved _)
        | inr e ↦ rw e (advance_by-finished n env id approved _)
      ]

  advance_by-settle_approved :
      (env : Env) (id : String) (approved : Bool) (p : Payment) (w : World rdb enc ttl server)
      → advance_by rdb enc ttl server 5 env id approved (admitting p) w
        ≡ ended (settle_approved rdb enc ttl server env id p w)
  unfolding advance_by advance settle_approved execute
  advance_by-settle_approved env id approved p (t, s, cb) = elim (Bool-cases (admit env.now cb).0) [
    | inl e ↦
        rw (e, final_status-as_call (call_transfer server env.delivery (transfer_body p) t).0)
          (advance_by-finalize 0 env mark_final id approved p _ _)
    | inr e ↦ rw e (advance_by-finalize 2 env mark_final id approved p failed _)
  ]

  advance_by-on_payment :
      (env : Env) (id : String) (approved : Bool) (w : World rdb enc ttl server)
      (m : Result RepositoryError (Option Payment))
      → advance_by rdb enc ttl server 5 env id approved (after_read id approved m) w
        ≡ ended (on_payment rdb enc ttl server env id approved w m)
  unfolding after_read
  advance_by-on_payment env id approved w (err e) = advance_by-finished 5 env id approved _
  advance_by-on_payment env id approved w (ok none) = advance_by-finished 5 env id approved _
  advance_by-on_payment env id true w (ok (some p)) =
      elim (Bool-cases (is_pending_status p.status)) [
        | inl e ↦ rw e (advance_by-settle_approved env id true p w)
        | inr e ↦ rw e (advance_by-finished 5 env id true _)
      ]
  advance_by-on_payment env id false w (ok (some p)) =
      elim (Bool-cases (is_pending_status p.status)) [
        | inl e ↦ rw e (advance_by-finalize 3 env mark_failed id false p failed w)
        | inr e ↦ rw e (advance_by-finished 5 env id false _)
      ]

  -- Six steps of a run, with no other run in between, are `ProcessFraudResult`: the same result,
  -- and the same tables, idempotency store and breaker.
  pub advance_by-process_fraud_result :
      (env : Env) (id : String) (approved : Bool) (w : World rdb enc ttl server)
      → advance_by rdb enc ttl server 6 env id approved waiting w
        ≡ ended (process_fraud_result rdb enc ttl server env id approved w)
  unfolding advance_by advance process_fraud_result
  advance_by-process_fraud_result env id approved w =
      advance_by-on_payment env id approved w (get_payment_by_id (env.fails get_payment_row) w.0 id)
