-- ===== src/Payment/Handler.antt =====
-- cmd/payment-service/internal/payment/handler.go. A body is decoded before the handler is
-- modelled: `none` stands for one that is no JSON of a request.
use q_pay_flow.Base.{
  ℕ, ◌≡◌, refl, String, Bool, ◌⊎◌, inl, inr, Option, none, some, Result, ok, err, str_eq,
  if◌then◌else◌,
}
use q_pay_flow.Redis.Interface.{Redis}
use q_pay_flow.Idempotency.Manager.{IdempotencyError, request_in_flight, key_conflict}
use q_pay_flow.Payment.Model.{Payment}
use q_pay_flow.Payment.Repository.{RepositoryError}
use q_pay_flow.Payment.Create.{
  Encodings, Env, CreatePaymentRequest, CreateError, Reply, create, key_required, accounts_required,
  same_account, amount_not_positive, already_processed, key_reused_payload, key_reused_parameters,
  begin_failed, commit_failed, check_failed, insert_failed, event_failed,
}
use q_pay_flow.Payment.Process.{get_payment}
use q_pay_flow.Schema.{Tables}

pub data Body : Type 0 where
  invalid_json payment_id_required payment_not_found health_up : Body
  payment_body : Payment → Body
  create_error : CreateError → Body
  service_error : RepositoryError → Body

pub record Response : Type 0 where
  pub status : ℕ
  pub body : Body

abbrev pub respond : ℕ → Body → Response
respond status body = record { status = status; body = body }

-- The idempotency error that an error of the service wraps: `errors.New` wraps none, and `%w`
-- stands there for errors of the database only.
abbrev pub wrapped : CreateError → Option IdempotencyError
wrapped key_required = none
wrapped accounts_required = none
wrapped same_account = none
wrapped amount_not_positive = none
wrapped already_processed = none
wrapped key_reused_payload = none
wrapped key_reused_parameters = none
wrapped begin_failed = none
wrapped commit_failed = none
wrapped (check_failed e) = none
wrapped (insert_failed e) = none
wrapped (event_failed e) = none

-- The two `errors.Is`, in their order.
abbrev pub error_status : Option IdempotencyError → ℕ
error_status (some request_in_flight) = 409
error_status (some key_conflict) = 422
error_status _ = 400

-- `Idempotency-Key` of the header, where the body has no key.
abbrev pub with_header : String → CreatePaymentRequest → CreatePaymentRequest
with_header header req =
    if str_eq req.idempotency_key "" then record req { idempotency_key = header } else req

abbrev pub payment_response : Result RepositoryError (Option Payment) → Response
payment_response (err e) = respond 500 (service_error e)
payment_response (ok none) = respond 404 payment_not_found
payment_response (ok (some p)) = respond 200 (payment_body p)

unfoldable pub get_payment_handler : Bool → Tables → String → Response
unfolding get_payment
get_payment_handler down t id =
    if str_eq id ""
    then respond 400 payment_id_required
    else payment_response (get_payment down t id)

abbrev pub health_check : Response
health_check = respond 200 health_up

module _ (rdb : Redis) (enc : Encodings) (ttl : ℕ) where
  abbrev pub create_response : Reply rdb enc ttl → Response × Tables × rdb.Store
  create_response (err e, t, s) = (respond (error_status (wrapped e)) (create_error e), t, s)
  create_response (ok p, t, s) = (respond 201 (payment_body p), t, s)

  unfoldable pub create_payment_handler :
      Env
      → (header : String) → Option CreatePaymentRequest
      → Tables
      → rdb.Store
      → Response × Tables × rdb.Store
  create_payment_handler env header none t s = (respond 400 invalid_json, t, s)
  create_payment_handler env header (some req) t s =
      create_response (create rdb enc ttl env (with_header header req) t s)

  wrapped-none : (e : CreateError) → wrapped e ≡ none
  wrapped-none key_required = refl
  wrapped-none accounts_required = refl
  wrapped-none same_account = refl
  wrapped-none amount_not_positive = refl
  wrapped-none already_processed = refl
  wrapped-none key_reused_payload = refl
  wrapped-none key_reused_parameters = refl
  wrapped-none begin_failed = refl
  wrapped-none commit_failed = refl
  wrapped-none (check_failed e) = refl
  wrapped-none (insert_failed e) = refl
  wrapped-none (event_failed e) = refl

  create_response-status :
      (out : Reply rdb enc ttl)
      → ((create_response out).0.status ≡ 201) ⊎ ((create_response out).0.status ≡ 400)
  create_response-status (ok p, t, s) = inl refl
  create_response-status (err e, t, s) = rw (wrapped-none e) (inr refl)

  -- The answer to POST /payments is 201 or 400, also for a key that is in flight or in conflict:
  -- 409 and 422 are never sent.
  pub create_payment_handler-status :
      (env : Env) (header : String) (body : Option CreatePaymentRequest) (t : Tables)
      (s : rdb.Store)
      → ((create_payment_handler env header body t s).0.status ≡ 201)
        ⊎ ((create_payment_handler env header body t s).0.status ≡ 400)
  unfolding create_payment_handler
  create_payment_handler-status env header none t s = inr refl
  create_payment_handler-status env header (some req) t s =
      create_response-status (create rdb enc ttl env (with_header header req) t s)
