-- ===== src/Payment/Atomicity.antt =====
-- What `CreatePayment` does to the tables, whatever fails.
use q_pay_flow.Base.{
  ℕ, false, ◌≡◌, Option, none, some, Result, ok, err, [], ◌∷◌, ◌++◌, arith, ◌⊎◌, inl, inr, refl,
  eq_iff, Bool-cases,
}
use q_pay_flow.Base.Int.{eqb_ℤ→eq}
use q_pay_flow.Redis.Interface.{Redis}
use q_pay_flow.Idempotency.Manager.{
  Status, Record, in_flight, completed, is_in_flight, IdempotencyError, request_in_flight,
  key_conflict, start,
}
use q_pay_flow.Payment.Model.{Payment}
use q_pay_flow.Payment.Repository.{
  RepositoryError, find_payment, find_by_idempotency_key, get_payment_by_idempotency_key,
  find_event, create_payment, create_outbox_event,
}
use q_pay_flow.Payment.Create.{
  CreatePaymentRequest, CreateError, Env, Encodings, with_currency, new_payment, outbox_event,
  insert_tx, Reply, end_insert, after_check, check_and_insert, cached, or_cached, after_start,
  after_validate, create, validate, differs,
}
use q_pay_flow.Schema.{Tables}

completed_of : (st : Status) → is_in_flight st ≡ false → st ≡ completed
completed_of in_flight e = cc
completed_of completed e = refl

module _ (rdb : Redis) (enc : Encodings) (ttl : ℕ) where
  -- The payment and its event were added, and nothing else.
  pub record Inserted (env : Env) (req : CreatePaymentRequest) (t t' : Tables) : Type 0 where
    pub key_free : find_by_idempotency_key req.idempotency_key t.payments ≡ none
    pub id_free : find_payment (new_payment env req).id t.payments ≡ none
    pub event_free :
        find_event (outbox_event rdb enc ttl env (new_payment env req)).id t.outbox_events ≡ none
    pub payments_eq : t'.payments ≡ t.payments ++ new_payment env req ∷ []
    pub outbox_eq :
        t'.outbox_events
        ≡ t.outbox_events ++ outbox_event rdb enc ttl env (new_payment env req) ∷ []
    pub accounts_eq : t'.accounts ≡ t.accounts
    pub ledgers_eq : t'.balance_ledgers ≡ t.balance_ledgers

  insert_tx-Inserted :
      (env : Env) (req : CreatePaymentRequest) (t : Tables) {t' : Tables}
      → insert_tx rdb enc ttl env req t ≡ ok t'
      → Inserted env req t t'
  unfolding insert_tx create_payment create_outbox_event
  insert_tx-Inserted env req t h = ground arith

  -- A row of the table has the key and the terms of the request.
  pub record Stored (req : CreatePaymentRequest) (t : Tables) (p : Payment) : Type 0 where
    pub found : find_by_idempotency_key req.idempotency_key t.payments ≡ some p
    pub source_eq : p.source_account_id ≡ req.source_account_id
    pub target_eq : p.target_account_id ≡ req.target_account_id
    pub amount_eq : p.amount ≡ req.amount
    pub currency_eq : p.currency ≡ req.currency

  -- The idempotency store has a completed record for the key, whose response is the payment.
  pub record Replayed (env : Env) (req : CreatePaymentRequest) (s : rdb.Store) (p : Payment)
      : Type 0 where
    pub held : Record
    pub answer :
        (start rdb enc.record_json ttl env.redis_fails req.idempotency_key
          (enc.payload_hash req)
          env.now
          s).0
        ≡ ok held
    pub done : held.status ≡ completed
    pub response : enc.payment_json.decode held.response_data ≡ some p

  -- How a run ends: refused with the tables as they were, or with a payment that was there before,
  -- or with the new payment inserted.
  abbrev pub Outcome : Env → CreatePaymentRequest → Tables → rdb.Store → Reply rdb enc ttl → Type 0
  Outcome env req t s (err e, t', s') = t' ≡ t
  Outcome env req t s (ok p, t', s') =
      ((t' ≡ t) × (Stored req t p ⊎ Replayed env req s p))
      ⊎ ((p ≡ new_payment env req) × Inserted env req t t')

  module _ (s0 : rdb.Store) where
    end_insert-Outcome :
        (env : Env) (req : CreatePaymentRequest) (t : Tables) (s : rdb.Store)
        (m : Result CreateError Tables)
        → ((t' : Tables) → m ≡ ok t' → Inserted env req t t')
        → Outcome env req t s0 (end_insert rdb enc ttl env req t s m)
    end_insert-Outcome env req t s (ok t') h = inr (refl, h t' refl)
    end_insert-Outcome env req t s (err e) h = refl

    same_terms :
        (req : CreatePaymentRequest) (t : Tables) (p : Payment)
        → find_by_idempotency_key req.idempotency_key t.payments ≡ some p
        → differs p req ≡ false
        → Stored req t p
    same_terms req t p found e = record {
      found = found;
      source_eq = (eq_iff p.source_account_id req.source_account_id).0 (ground arith);
      target_eq = (eq_iff p.target_account_id req.target_account_id).0 (ground arith);
      amount_eq = eqb_ℤ→eq p.amount req.amount (ground arith);
      currency_eq = (eq_iff p.currency req.currency).0 (ground arith);
    }

    after_check-Outcome :
        (env : Env) (req : CreatePaymentRequest) (t : Tables) (s : rdb.Store)
        (m : Result RepositoryError (Option Payment))
        → ((p : Payment)
            → m ≡ ok (some p)
            → find_by_idempotency_key req.idempotency_key t.payments ≡ some p)
        → Outcome env req t s0 (after_check rdb enc ttl env req t s m)
    after_check-Outcome env req t s (err e) h = refl
    after_check-Outcome env req t s (ok none) h =
        end_insert-Outcome env req t s (insert_tx rdb enc ttl env req t)
          (λ t' g. insert_tx-Inserted env req t g)
    after_check-Outcome env req t s (ok (some p)) h = elim (Bool-cases (differs p req)) [
      | inl e ↦ rw e refl
      | inr e ↦ rw e (inl (refl, inl (same_terms req t p (h p refl) e)))
    ]

    check_and_insert-Outcome :
        (env : Env) (req : CreatePaymentRequest) (t : Tables) (s : rdb.Store)
        → Outcome env req t s0 (check_and_insert rdb enc ttl env req t s)
    unfolding check_and_insert get_payment_by_idempotency_key
    check_and_insert-Outcome env req t s = after_check-Outcome env req t s _ (λ p h. ground arith)

    cached-done :
        (rec : Record) (p : Payment)
        → cached rdb enc ttl rec ≡ some p
        → (rec.status ≡ completed) × (enc.payment_json.decode rec.response_data ≡ some p)
    cached-done rec p h = elim (Bool-cases (is_in_flight rec.status)) [
      | inl e ↦ absurd (ground (arith, e, h))
      | inr e ↦ (completed_of rec.status e, ground (arith, e, h))
    ]

    or_cached-Outcome :
        (env : Env) (req : CreatePaymentRequest) (t : Tables) (s : rdb.Store) (c : Option Payment)
        → ((p : Payment) → c ≡ some p → Replayed env req s0 p)
        → Outcome env req t s0
            (or_cached rdb enc ttl c t s (check_and_insert rdb enc ttl env req t s))
    or_cached-Outcome env req t s (some p) h = inl (refl, inr (h p refl))
    or_cached-Outcome env req t s none h = check_and_insert-Outcome env req t s

    after_start-Outcome :
        (env : Env) (req : CreatePaymentRequest) (t : Tables)
        (r : Result IdempotencyError Record × rdb.Store)
        → (start rdb enc.record_json ttl env.redis_fails req.idempotency_key
            (enc.payload_hash req)
            env.now
            s0).0
          ≡ r.0
        → Outcome env req t s0 (after_start rdb enc ttl env req t r)
    after_start-Outcome env req t (ok rec, s) h =
        or_cached-Outcome env req t s (cached rdb enc ttl rec) (λ p e.
          let (done, response) = cached-done rec p e in
          record { held = rec; answer = h; done = done; response = response })
    after_start-Outcome env req t (err request_in_flight, s) h = refl
    after_start-Outcome env req t (err key_conflict, s) h = refl
    after_start-Outcome env req t (err _, s) h = check_and_insert-Outcome env req t s

    after_validate-Outcome :
        (env : Env) (req : CreatePaymentRequest) (t : Tables) (m : Result CreateError (Unit {0}))
        → Outcome env (with_currency req) t s0 (after_validate rdb enc ttl env req t s0 m)
    after_validate-Outcome env req t (err e) = refl
    after_validate-Outcome env req t (ok u) =
        let req' = with_currency req in
        after_start-Outcome env req' t
          (start rdb enc.record_json ttl env.redis_fails req'.idempotency_key
            (enc.payload_hash req') env.now s0)
          refl

  -- Creating a payment is all or nothing, whatever call to the database or to Redis fails. On an
  -- error the tables are as they were. On success either they are as they were, and the payment is
  -- the row that has the key, with the source, target, amount and currency of the request, or it is
  -- the response in the completed record that the idempotency store holds for the key; or exactly
  -- the new payment, pending, and its outbox event were added, under a key that no payment had.
  pub create-Outcome :
      (env : Env) (req : CreatePaymentRequest) (t : Tables) (s : rdb.Store)
      → Outcome env (with_currency req) t s (create rdb enc ttl env req t s)
  unfolding create
  create-Outcome env req t s = after_validate-Outcome s env req t (validate req)
