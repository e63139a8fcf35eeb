-- ===== src/Payment/Stored.antt =====
-- What `ProcessFraudResult` returns is what the table has.
use mathlib.Core.Option
use q_pay_flow.Base.{
  ℕ, String, Bool, true, false, ◌≡◌, Option, none, some, Result, ok, err, map, arith, inl, inr,
  refl, ap, ◌∙◌, Bool-cases, eq_iff,
}
use q_pay_flow.Base.Table.{find_by-map, find_by-key}
use q_pay_flow.Redis.Interface.{Redis}
use q_pay_flow.Resilience.Breaker.{CircuitBreaker, execute, admit}
use q_pay_flow.Payment.Model.{Payment, PaymentStatus, failed}
use q_pay_flow.Payment.Repository.{
  RepositoryError, find_payment, set_status, update_payment_status, get_payment_by_id,
}
use q_pay_flow.Payment.Create.{Encodings}
use q_pay_flow.Payment.Process.{
  TransferBody, transfer_body, Delivery, not_sent, reply_lost, replied, call_transfer, Site, Env,
  ProcessError, final_status, World, finalize, settle_approved, on_payment, process_fraud_result,
  mark_final, mark_failed, is_pending_status,
}
use q_pay_flow.Schema.{Tables}

-- A payment that is returned has its row: the same id, and the same status.
abbrev pub IsStored : String → Result ProcessError Payment → Tables → Type 0
IsStored id (err e) t = Unit
IsStored id (ok settled) t =
    (q : Payment) × (find_payment id t.payments ≡ some q)
    × (q.status ≡ settled.status)
    × (q.id ≡ settled.id)

find_payment-status :
    (now : ℕ) (id : String) (status : PaymentStatus) (t : Tables) (p : Payment)
    → find_payment id t.payments ≡ some p
    → find_payment id (map (set_status now id status) t.payments)
      ≡ some (record p { status = status; updated_at = now })
find_payment-status now id status t p found =
    let same : p.id ≡ id = find_by-key (λ (q : Payment). q.id) id t.payments found in
    find_by-map (λ (q : Payment). q.id) (set_status now id status) id t.payments (λ q. ground arith)
    ∙ ap (Option.map (set_status now id status)) found
    ∙ ground (arith, same, eq_iff p.id id)

module _ (rdb : Redis) (enc : Encodings) (ttl : ℕ)
    (server : TransferBody → Tables → ℕ × Tables) where
  finalize-IsStored :
      (env : Env) (site : Site) (id : String) (p : Payment) (status : PaymentStatus)
      (w : World rdb enc ttl server)
      → find_payment id w.0.payments ≡ some p
      → let out = finalize rdb enc ttl server env site id p status w in IsStored id out.0 out.1.0
  unfolding finalize update_payment_status
  finalize-IsStored env site id p status w found = elim (Bool-cases (env.fails site)) [
    | inl e ↦ rw e tt
    | inr e ↦ rw e (
      record p { status = status; updated_at = env.later },
      find_payment-status env.later id status w.0 p found,
      refl,
      refl,
    )
  ]

  module _
      (same_payments : (body : TransferBody) (t : Tables)
        → (server body t).1.payments ≡ t.payments) where
    call_transfer-payments :
        (d : Delivery) (body : TransferBody) (t : Tables)
        → (call_transfer server d body t).1.payments ≡ t.payments
    unfolding call_transfer
    call_transfer-payments not_sent body t = refl
    call_transfer-payments reply_lost body t = same_payments body t
    call_transfer-payments replied body t = same_payments body t

    execute-payments :
        (env : Env) (p : Payment) (t : Tables) (cb : CircuitBreaker)
        → (execute env.now env.later
            (call_transfer server env.delivery (transfer_body p))
            (cb, t)).2.payments
          ≡ t.payments
    unfolding execute
    execute-payments env p t cb = elim (Bool-cases (admit env.now cb).0) [
      | inl e ↦ rw e (call_transfer-payments env.delivery (transfer_body p) t)
      | inr e ↦ rw e refl
    ]

    settle_approved-IsStored :
        (env : Env) (id : String) (p : Payment) (w : World rdb enc ttl server)
        → find_payment id w.0.payments ≡ some p
        → let out = settle_approved rdb enc ttl server env id p w in IsStored id out.0 out.1.0
    unfolding settle_approved
    settle_approved-IsStored env id p (t, s, cb) found =
        let (res, cb', c) =
          execute env.now env.later (call_transfer server env.delivery (transfer_body p)) (cb, t) in
        finalize-IsStored env mark_final id p (final_status res) (c, s, cb')
          (ap (find_payment id) (execute-payments env p t cb) ∙ found)

    on_payment-IsStored :
        (env : Env) (id : String) (approved : Bool) (w : World rdb enc ttl server)
        (m : Result RepositoryError (Option Payment))
        → ((p : Payment) → m ≡ ok (some p) → find_payment id w.0.payments ≡ some p)
        → let out = on_payment rdb enc ttl server env id approved w m in IsStored id out.0 out.1.0
    on_payment-IsStored env id approved w (err e) h = tt
    on_payment-IsStored env id approved w (ok none) h = tt
    on_payment-IsStored env id true w (ok (some p)) h =
        elim (Bool-cases (is_pending_status p.status)) [
          | inl e ↦ rw e (settle_approved-IsStored env id p w (h p refl))
          | inr e ↦ rw e (p, h p refl, refl, refl)
        ]
    on_payment-IsStored env id false w (ok (some p)) h =
        elim (Bool-cases (is_pending_status p.status)) [
          | inl e ↦ rw e (finalize-IsStored env mark_failed id p failed w (h p refl))
          | inr e ↦ rw e (p, h p refl, refl, refl)
        ]

    -- Where the account service leaves the payments alone, a payment that `ProcessFraudResult`
    -- returns has a row with its id and with the status that it has in the reply.
    pub process_fraud_result-IsStored :
        (env : Env) (id : String) (approved : Bool) (w : World rdb enc ttl server)
        → let out = process_fraud_result rdb enc ttl server env id approved w in
          IsStored id out.0 out.1.0
    unfolding process_fraud_result get_payment_by_id
    process_fraud_result-IsStored env id approved w =
        on_payment-IsStored env id approved w _ (λ p h. ground arith)
