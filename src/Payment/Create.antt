-- ===== src/Payment/Create.antt =====
-- cmd/payment-service/internal/payment/service.go: `CreatePayment`. The JSON encodings and the
-- SHA-256 of a request are parameters. `Site` names the database calls; a transaction works on its
-- own copy of the tables, which only a commit publishes.
use Prim.Native.String
use q_pay_flow.Base.{
  ℕ, String, Bool, not, ◌&&◌, ◌||◌, Option, none, some, Result, ok, err, ◌>>=◌, ◌>>◌, fail_if,
  wrap_err, str_eq, if◌then◌else◌,
}
use q_pay_flow.Base.Int.{ℤ, pos, leb_ℤ, eqb_ℤ}
use q_pay_flow.Redis.Interface.{Redis}
use q_pay_flow.Idempotency.Manager.{
  Codec, Record, Status, in_flight, completed, IdempotencyError, request_in_flight, key_conflict,
  start, complete, release, is_in_flight,
}
use q_pay_flow.Idempotency.Manager
use q_pay_flow.Payment.Model.{Payment, pending, status_text, OutboxEvent, PaymentCreatedEvent}
use q_pay_flow.Payment.Repository.{
  RepositoryError, get_payment_by_idempotency_key, create_payment, create_outbox_event,
}
use q_pay_flow.Schema.{Tables}

pub record CreatePaymentRequest : Type 0 where
  pub idempotency_key : String
  pub source_account_id : String
  pub target_account_id : String
  pub amount : ℤ
  pub currency : String

pub data CreateError : Type 0 where
  key_required accounts_required same_account amount_not_positive already_processed
        key_reused_payload key_reused_parameters begin_failed commit_failed :
      CreateError
  check_failed insert_failed event_failed : RepositoryError → CreateError

pub data Site : Type 0 where
  check_key begin_tx insert_payment insert_event commit_tx : Site

-- What a run gets from outside.
pub record Env : Type 0 where
  pub now : ℕ
  pub payment_uuid : String
  pub event_uuid : String
  pub fails : Site → Bool
  pub redis_fails : Manager.Site → Bool

-- The encodings that the service uses: of the cached record, of a payment, of the created event,
-- and the hex text of the SHA-256 of a request's JSON.
pub record Encodings : Type 0 where
  pub record_json : Codec Record
  pub payment_json : Codec Payment
  pub created_json : Codec PaymentCreatedEvent
  pub payload_hash : CreatePaymentRequest → String

abbrev pub validate : CreatePaymentRequest → Result CreateError (Unit {0})
validate req = do
  fail_if (str_eq req.idempotency_key "") key_required
  fail_if (str_eq req.source_account_id "" || str_eq req.target_account_id "") accounts_required
  fail_if (str_eq req.source_account_id req.target_account_id) same_account
  fail_if (leb_ℤ req.amount (pos 0)) amount_not_positive

-- `req.Currency = "USD"` where it is empty.
abbrev pub with_currency : CreatePaymentRequest → CreatePaymentRequest
with_currency req = if str_eq req.currency "" then record req { currency = "USD" } else req

abbrev pub new_payment : Env → CreatePaymentRequest → Payment
new_payment env req = record {
  id = String.◌++◌ "pay_" env.payment_uuid;
  idempotency_key = req.idempotency_key;
  source_account_id = req.source_account_id;
  target_account_id = req.target_account_id;
  amount = req.amount;
  currency = req.currency;
  status = pending;
  created_at = env.now;
  updated_at = env.now;
}

abbrev pub created_event : Payment → PaymentCreatedEvent
created_event p = record {
  id = p.id;
  idempotency_key = p.idempotency_key;
  source_account_id = p.source_account_id;
  target_account_id = p.target_account_id;
  amount = p.amount;
  currency = p.currency;
  status = status_text p.status;
}

-- A payment in the table that the same key asked for with other parameters.
abbrev pub differs : Payment → CreatePaymentRequest → Bool
differs p req =
    not (str_eq p.source_account_id req.source_account_id)
    || not (str_eq p.target_account_id req.target_account_id)
    || not (eqb_ℤ p.amount req.amount)
    || not (str_eq p.currency req.currency)

module _ (rdb : Redis) (enc : Encodings) (ttl : ℕ) where
  open rdb use {Store}

  abbrev pub outbox_event : Env → Payment → OutboxEvent
  outbox_event env p = record {
    id = String.◌++◌ "evt_" env.event_uuid;
    aggregate_type = "Payment";
    aggregate_id = p.id;
    event_type = "PaymentCreated";
    payload = enc.created_json.encode (created_event p);
    status = "PENDING";
    created_at = env.now;
  }

  -- Step 3 up to the commit: the payment and its event, on the transaction's copy of the tables.
  unfoldable pub insert_tx : Env → CreatePaymentRequest → Tables → Result CreateError Tables
  insert_tx env req t = do
    fail_if (env.fails begin_tx) begin_failed
    t1 ← wrap_err insert_failed (create_payment (env.fails insert_payment) t (new_payment env req))
    t2 ←
        wrap_err event_failed
          (create_outbox_event (env.fails insert_event) t1 (outbox_event env (new_payment env req)))
    fail_if (env.fails commit_tx) commit_failed
    ok t2

  -- `_ = s.idempotencyMgr.Complete(...)`: the store after it.
  abbrev pub completed_store : Env → String → Payment → Store → Store
  completed_store env key p s =
      (complete rdb enc.record_json ttl env.redis_fails key (some (enc.payment_json.encode p))
        env.now s).1

  abbrev pub Reply : Type 0
  Reply = Result CreateError Payment × Tables × Store

  -- How the transaction ends: its tables and a completed key, or neither and a released key.
  abbrev pub end_insert :
      Env → CreatePaymentRequest → Tables → Store → Result CreateError Tables → Reply
  end_insert env req t s (ok t') =
      let p = new_payment env req in (ok p, t', completed_store env req.idempotency_key p s)
  end_insert env req t s (err e) =
      (err e, t, release rdb enc.record_json ttl env.redis_fails req.idempotency_key s)

  -- Steps 2 and 3, on what the table says of the key.
  abbrev pub after_check :
      Env → CreatePaymentRequest → Tables → Store → Result RepositoryError (Option Payment) → Reply
  after_check env req t s (err e) = (err (check_failed e), t, s)
  after_check env req t s (ok none) = end_insert env req t s (insert_tx env req t)
  after_check env req t s (ok (some p)) =
      if differs p req
      then (err key_reused_parameters, t, s)
      else (ok p, t, completed_store env req.idempotency_key p s)

  unfoldable pub check_and_insert : Env → CreatePaymentRequest → Tables → Store → Reply
  unfolding insert_tx
  check_and_insert env req t s =
      after_check env req t s
        (get_payment_by_idempotency_key (env.fails check_key) t req.idempotency_key)

  -- The cached response, if the record has one that decodes.
  abbrev pub cached : Record → Option Payment
  cached rec =
      if not (is_in_flight rec.status) && not (str_eq rec.response_data "")
      then enc.payment_json.decode rec.response_data
      else none

  abbrev pub or_cached : Option Payment → Tables → Store → Reply → Reply
  or_cached (some p) t s rest = (ok p, t, s)
  or_cached none t s rest = rest

  -- Step 1: what the idempotency store answers. Its other errors are passed over.
  abbrev pub after_start :
      Env → CreatePaymentRequest → Tables → Result IdempotencyError Record × Store → Reply
  after_start env req t (err request_in_flight, s) = (err already_processed, t, s)
  after_start env req t (err key_conflict, s) = (err key_reused_payload, t, s)
  after_start env req t (err _, s) = check_and_insert env req t s
  after_start env req t (ok rec, s) = or_cached (cached rec) t s (check_and_insert env req t s)

  abbrev pub run_valid : Env → CreatePaymentRequest → Tables → Store → Reply
  run_valid env req t s = after_start env req t (
      start rdb enc.record_json ttl env.redis_fails req.idempotency_key (enc.payload_hash req)
        env.now s)

  abbrev pub after_validate :
      Env → CreatePaymentRequest → Tables → Store → Result CreateError (Unit {0}) → Reply
  after_validate env req t s (err e) = (err e, t, s)
  after_validate env req t s (ok u) = run_valid env (with_currency req) t s

  unfoldable pub create : Env → CreatePaymentRequest → Tables → Store → Reply
  unfolding check_and_insert
  create env req t s = after_validate env req t s (validate req)
