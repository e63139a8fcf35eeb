-- ===== src/Payment/Changes.antt =====
-- What `ProcessFraudResult` may do to the tables, whatever fails.
use q_pay_flow.Base.{
  ℕ, String, Bool, true, false, ◌≡◌, Option, none, some, Result, ok, err, map, arith, ◌⊎◌, inl, inr,
  refl, Bool-cases, if◌then◌else◌, ◌==◌,
}
use q_pay_flow.Redis.Interface.{Redis}
use q_pay_flow.Resilience.Breaker.{CircuitBreaker, execute, admit, as_call}
use q_pay_flow.Payment.Model.{Payment, PaymentStatus, pending, success, failed}
use q_pay_flow.Payment.Repository.{
  RepositoryError, find_payment, set_status, update_payment_status, get_payment_by_id,
}
use q_pay_flow.Payment.Create.{Encodings}
use q_pay_flow.Payment.Process.{
  TransferBody, transfer_body, Delivery, not_sent, reply_lost, replied, call_transfer, Site, Env,
  final_status, World, finalize, settle_approved, on_payment, process_fraud_result, mark_final,
  mark_failed, is_pending_status,
}
use q_pay_flow.Schema.{Tables}

module _ (rdb : Redis) (enc : Encodings) (ttl : ℕ)
    (server : TransferBody → Tables → ℕ × Tables) where
  -- The tables after the transfer step, and the status that it calls for: no call was served, and
  -- the payment has failed; or one was, and the payment succeeds only if that answered 200.
  abbrev pub Called : Bool → Payment → Tables → Tables → PaymentStatus → Type 0
  Called approved p t c status =
      ((c ≡ t) × (status ≡ failed))
      ⊎ ((approved ≡ true)
          × (c ≡ (server (transfer_body p) t).1)
          × ((status ≡ success) × ((server (transfer_body p) t).0 ≡ 200) ⊎ (status ≡ failed)))

  -- The status is written, or that write failed and the tables stay as the transfer step left them.
  abbrev pub Marked : ℕ → String → PaymentStatus → Tables → Tables → Type 0
  Marked later id status c t' =
      (t' ≡ c) ⊎ (t' ≡ record c { payments = map (set_status later id status) c.payments })

  pub record Attempt (env : Env) (id : String) (approved : Bool) (t t' : Tables) : Type 0 where
    pub payment : Payment
    pub found : find_payment id t.payments ≡ some payment
    pub was_pending : payment.status ≡ pending
    pub called : Tables
    pub status : PaymentStatus
    pub call : Called approved payment t called status
    pub marked : Marked env.later id status called t'

  abbrev pub Change : Env → String → Bool → Tables → Tables → Type 0
  Change env id approved t t' = (t' ≡ t) ⊎ Attempt env id approved t t'

  after_update-Marked :
      (env : Env) (site : Site) (id : String) (p : Payment) (status : PaymentStatus)
      (w : World rdb enc ttl server)
      → Marked env.later id status w.0 (finalize rdb enc ttl server env site id p status w).1.0
  unfolding finalize update_payment_status
  after_update-Marked env site id p status w = elim (Bool-cases (env.fails site)) [
    | inl e ↦ rw e (inl refl)
    | inr e ↦ rw e (inr refl)
  ]

  served-Called :
      (d : Delivery) (p : Payment) (t : Tables)
      → let (res, c) = call_transfer server d (transfer_body p) t in
        Called true p t c (final_status (as_call res))
  unfolding call_transfer
  served-Called not_sent p t = inl (refl, refl)
  served-Called reply_lost p t = inr (refl, refl, inr refl)
  served-Called replied p t = elim (Bool-cases ((server (transfer_body p) t).0 == 200)) [
    | inl e ↦ rw e (inr (refl, refl, inl (refl, ground arith)))
    | inr e ↦ rw e (inr (refl, refl, inr refl))
  ]

  call-Called :
      (env : Env) (p : Payment) (t : Tables) (cb : CircuitBreaker)
      → let (res, cb', c) =
          execute env.now env.later (call_transfer server env.delivery (transfer_body p)) (cb, t) in
        Called true p t c (final_status res)
  unfolding execute
  call-Called env p t cb = elim (Bool-cases (admit env.now cb).0) [
    | inl e ↦ rw e (served-Called env.delivery p t)
    | inr e ↦ rw e (inl (refl, refl))
  ]

  settle_approved-Attempt :
      (env : Env) (id : String) (p : Payment) (w : World rdb enc ttl server)
      → find_payment id w.0.payments ≡ some p
      → p.status ≡ pending
      → Attempt env id true w.0 (settle_approved rdb enc ttl server env id p w).1.0
  unfolding settle_approved
  settle_approved-Attempt env id p (t, s, cb) found was =
      let (res, cb', c) =
        execute env.now env.later (call_transfer server env.delivery (transfer_body p)) (cb, t) in
      record {
        payment = p;
        found = found;
        was_pending = was;
        called = c;
        status = final_status res;
        call = call-Called env p t cb;
        marked = after_update-Marked env mark_final id p (final_status res) (c, s, cb');
      }

  decide-Change :
      (env : Env) (id : String) (approved : Bool) (p : Payment) (w : World rdb enc ttl server)
      → find_payment id w.0.payments ≡ some p
      → p.status ≡ pending
      → Change env id approved w.0
          (if approved
            then settle_approved rdb enc ttl server env id p w
            else finalize rdb enc ttl server env mark_failed id p failed w).1.0
  decide-Change env id true p w found was = inr (settle_approved-Attempt env id p w found was)
  decide-Change env id false p w found was = inr (record {
    payment = p;
    found = found;
    was_pending = was;
    called = w.0;
    status = failed;
    call = inl (refl, refl);
    marked = after_update-Marked env mark_failed id p failed w;
  })

  is_pending_status-eq : (st : PaymentStatus) → is_pending_status st ≡ true → st ≡ pending
  is_pending_status-eq pending h = refl
  is_pending_status-eq _ h = cc

  on_payment-Change :
      (env : Env) (id : String) (approved : Bool) (w : World rdb enc ttl server)
      (m : Result RepositoryError (Option Payment))
      → ((p : Payment) → m ≡ ok (some p) → find_payment id w.0.payments ≡ some p)
      → Change env id approved w.0 (on_payment rdb enc ttl server env id approved w m).1.0
  on_payment-Change env id approved w (err e) h = inl refl
  on_payment-Change env id approved w (ok none) h = inl refl
  on_payment-Change env id approved w (ok (some p)) h =
      elim (Bool-cases (is_pending_status p.status)) [
        | inl e ↦
            rw e (decide-Change env id approved p w (h p refl) (is_pending_status-eq p.status e))
        | inr e ↦ rw e (inl refl)
      ]

  -- Processing a fraud result either leaves the tables as they are, or is an attempt on a pending
  -- payment: at most one transfer is served, and none unless the result is approved; then the
  -- status SUCCESS is written only if the transfer answered 200, FAILED is written otherwise, or
  -- that write fails and the transfer stands. Nothing else changes.
  pub process_fraud_result-Change :
      (env : Env) (id : String) (approved : Bool) (w : World rdb enc ttl server)
      → Change env id approved w.0 (process_fraud_result rdb enc ttl server env id approved w).1.0
  unfolding process_fraud_result get_payment_by_id
  process_fraud_result-Change env id approved w =
      on_payment-Change env id approved w _ (λ p h. ground arith)
