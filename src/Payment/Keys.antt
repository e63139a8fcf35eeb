-- ===== src/Payment/Keys.antt =====
-- Idempotency keys in the payments table, and the events that announce its rows.
use mathlib.Core.Path.{subst}
use q_pay_flow.Base.{
  ℕ, ◌≤◌, ◌≡◌, String, Bool, some, ok, err, List, [], ◌∷◌, ◌++◌, arith, str_eq, str_eq_refl, ap,
  sym, ◌∙◌, inl, inr, All, All-append, All-map_of, count_if, count_if-append,
}
use q_pay_flow.Base.Table.{IsUnique, IsUnique-snoc}
use q_pay_flow.Redis.Interface.{Redis}
use q_pay_flow.Payment.Model.{Payment, OutboxEvent}
use q_pay_flow.Payment.Repository.{find_by_idempotency_key}
use q_pay_flow.Payment.Create.{
  Encodings, Env, CreatePaymentRequest, with_currency, new_payment, outbox_event, create, Reply,
}
use q_pay_flow.Payment.Atomicity.{Inserted, Outcome, create-Outcome}
use q_pay_flow.Schema.{Tables}

abbrev announces : String → OutboxEvent → Bool
announces id e = str_eq e.aggregate_id id

-- Some event of the outbox is about the payment.
abbrev pub Announced : List OutboxEvent → Payment → Type 0
Announced events p = 1 ≤ count_if (announces p.id) events

-- Ids and idempotency keys are unique, and every payment has an event in the outbox.
pub record Recorded (t : Tables) : Type 0 where
  pub unique_ids : IsUnique (λ (p : Payment). p.id) t.payments
  pub unique_keys : IsUnique (λ (p : Payment). p.idempotency_key) t.payments
  pub announced : All (Announced t.outbox_events) t.payments

Announced-grows :
    (events more : List OutboxEvent) (p : Payment)
    → Announced events p
    → Announced (events ++ more) p
Announced-grows events more p h = omega (arith, count_if-append (announces p.id) events more)

module _ (rdb : Redis) (enc : Encodings) (ttl : ℕ) where
  new-Announced :
      (env : Env) (req : CreatePaymentRequest) (events : List OutboxEvent)
      → let p = new_payment env req in Announced (events ++ outbox_event rdb enc ttl env p ∷ []) p
  new-Announced env req events =
      let p = new_payment env req in
      rw
        (
          count_if-append (announces p.id) events (outbox_event rdb enc ttl env p ∷ []),
          str_eq_refl p.id,
        )
        (omega arith)

  Inserted-Recorded :
      (env : Env) (req : CreatePaymentRequest) {t t' : Tables}
      → Inserted rdb enc ttl env req t t'
      → Recorded t
      → Recorded t'
  Inserted-Recorded env req {t} {t'} i v = record {
    unique_ids = rw i.payments_eq (IsUnique-snoc (λ p. p.id) t.payments _ v.unique_ids i.id_free);
    unique_keys =
        rw i.payments_eq
          (IsUnique-snoc (λ p. p.idempotency_key) t.payments _ v.unique_keys i.key_free);
    announced =
        rw (i.payments_eq, i.outbox_eq)
          (All-append (Announced _) t.payments (new_payment env req ∷ [])
            (All-map_of t.payments (Announced-grows t.outbox_events _) v.announced)
            (new-Announced env req t.outbox_events, tt));
  }

  Outcome-Recorded :
      (env : Env) (req : CreatePaymentRequest) (t : Tables) (s : rdb.Store)
      (out : Reply rdb enc ttl)
      → Outcome rdb enc ttl env req t s out
      → Recorded t
      → Recorded out.1
  Outcome-Recorded env req t s (err e, t', s') same v = subst Recorded (sym same) v
  Outcome-Recorded env req t s (ok p, t', s') (inl (same, old)) v = subst Recorded (sym same) v
  Outcome-Recorded env req t s (ok p, t', s') (inr (e, i)) v = Inserted-Recorded env req i v

  -- Whatever fails in it, `CreatePayment` keeps payment ids and idempotency keys unique, and every
  -- payment in the table with an event in the outbox.
  pub create-Recorded :
      (env : Env) (req : CreatePaymentRequest) (t : Tables) (s : rdb.Store)
      → Recorded t
      → Recorded (create rdb enc ttl env req t s).1
  create-Recorded env req t s =
      Outcome-Recorded env (with_currency req) t s (create rdb enc ttl env req t s)
        (create-Outcome rdb enc ttl env req t s)

  Outcome-taken :
      (env : Env) (req : CreatePaymentRequest) (t : Tables) (s : rdb.Store)
      (out : Reply rdb enc ttl) {p : Payment}
      → Outcome rdb enc ttl env req t s out
      → find_by_idempotency_key req.idempotency_key t.payments ≡ some p
      → out.1 ≡ t
  Outcome-taken env req t s (err e, t', s') same h = same
  Outcome-taken env req t s (ok q, t', s') (inl (same, old)) h = same
  Outcome-taken env req t s (ok q, t', s') (inr (e, i)) h = let free = i.key_free in absurd (cc)

  with_currency-key :
      (req : CreatePaymentRequest) → (with_currency req).idempotency_key ≡ req.idempotency_key
  with_currency-key req = ground arith

  -- A request whose idempotency key has a payment already changes no table, whatever the
  -- idempotency store answers and whatever fails.
  pub create_once :
      (env : Env) (req : CreatePaymentRequest) (t : Tables) (s : rdb.Store) {p : Payment}
      → find_by_idempotency_key req.idempotency_key t.payments ≡ some p
      → (create rdb enc ttl env req t s).1 ≡ t
  create_once env req t s h =
      Outcome-taken env (with_currency req) t s (create rdb enc ttl env req t s)
        (create-Outcome rdb enc ttl env req t s)
        (ap (λ k. find_by_idempotency_key k t.payments) (with_currency-key req) ∙ h)
