-- ===== src/Account/Handler.antt =====
-- cmd/account-service/internal/account/handler.go. A body is decoded before the handler is
-- modelled: `none` stands for one that is no JSON of a request.
use q_pay_flow.Base.{ℕ, String, Bool, Option, none, some, Result, ok, err, str_eq, if◌then◌else◌}
use q_pay_flow.Base.Int.{ℤ}
use q_pay_flow.Redis.Interface.{Redis}
use q_pay_flow.Account.Model.{Account}
use q_pay_flow.Account.Repository.{RepositoryError}
use q_pay_flow.Account.Service.{Env, Request, get_account, transfer}
use q_pay_flow.Account.RedisLock.{LockEnv, LockedError, Reply, as_reply, transfer_with_redis_lock}
use q_pay_flow.Schema.{Tables}

pub record TransferRequest : Type 0 where
  pub transaction_id : String
  pub from_account_id : String
  pub to_account_id : String
  pub amount : ℤ
  pub currency : String
  pub description : String
  pub lock_strategy : String

pub data Body : Type 0 where
  invalid_account_id account_not_found invalid_request_body health_up : Body
  service_error : RepositoryError → Body
  account_body : Account → Body
  transfer_error : LockedError → Body
  transfer_success : String → Body

-- `respondJSON` and `respondError`: the status and the body that are written.
pub record Response : Type 0 where
  pub status : ℕ
  pub body : Body

abbrev pub respond : ℕ → Body → Response
respond status body = record { status = status; body = body }

abbrev pub account_response : Result RepositoryError (Option Account) → Response
account_response (err e) = respond 500 (service_error e)
account_response (ok none) = respond 404 account_not_found
account_response (ok (some acc)) = respond 200 (account_body acc)

unfoldable pub get_account_handler : Bool → Tables → String → Response
unfolding get_account
get_account_handler down t id =
    if str_eq id ""
    then respond 400 invalid_account_id
    else account_response (get_account down t id)

abbrev pub health_check : Response
health_check = respond 200 health_up

abbrev pub request_of : TransferRequest → Request
request_of req = record {
  tx_id = req.transaction_id;
  from_acc_id = req.from_account_id;
  to_acc_id = req.to_account_id;
  amount = req.amount;
  currency = req.currency;
  description = req.description;
}

module _ (rdb : Redis) where
  abbrev pub transfer_response : String → Reply rdb → Response × Tables × rdb.Store
  transfer_response tx_id (err e, t, s) = (respond 400 (transfer_error e), t, s)
  transfer_response tx_id (ok u, t, s) = (respond 200 (transfer_success tx_id), t, s)

  unfoldable pub transfer_handler :
      (has_redis : Bool)
      → LockEnv
      → Env
      → Option TransferRequest
      → Tables
      → rdb.Store
      → Response × Tables × rdb.Store
  transfer_handler has_redis le env none t s = (respond 400 invalid_request_body, t, s)
  transfer_handler has_redis le env (some req) t s = transfer_response req.transaction_id (
      if str_eq req.lock_strategy "redis"
      then transfer_with_redis_lock rdb has_redis le env t s (request_of req)
      else as_reply rdb (transfer env t (request_of req)) s)
