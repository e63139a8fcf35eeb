-- ===== src/Account/RedisLock.antt =====
-- cmd/account-service/internal/account/service.go: `TransferWithRedisLock`, over the locks of
-- pkg/redis. The deferred releases run in reverse order, on the store that the last call left.
use Prim.Native.String
use q_pay_flow.Base.{ℕ, String, Bool, true, false, Result, ok, err, ◌*◌, wrap_err}
use q_pay_flow.Redis.Interface.{Redis}
use q_pay_flow.Redis.Lock.{Lock, LockError, acquire_lock, release}
use q_pay_flow.Account.Service.{Env, Request, TransferError, transfer, lock_order}
use q_pay_flow.Schema.{Tables}

pub data LockSite : Type 0 where
  token_first setnx_first token_second setnx_second release_first release_second : LockSite

-- The two random tokens, the time of each step, and which calls fail.
pub record LockEnv : Type 0 where
  pub first_token : String
  pub second_token : String
  pub first_time : ℕ
  pub second_time : ℕ
  pub release_time : ℕ
  pub lock_fails : LockSite → Bool

pub data LockedError : Type 0 where
  redis_lock_failed : String → LockError → LockedError
  transfer_failed : TransferError → LockedError

abbrev pub lock_key : String → String
lock_key id = String.◌++◌ "lock:acc:" id

abbrev pub lock_ttl : ℕ
lock_ttl = 5 * 1000000000

module _ (rdb : Redis) where
  open rdb use {Store}

  abbrev pub Reply : Type 0
  Reply = Result LockedError (Unit {0}) × Tables × Store

  abbrev pub as_reply : Result TransferError (Unit {0}) × Tables → Store → Reply
  as_reply (r, t) s = (wrap_err transfer_failed r, t, s)

  abbrev pub release_at : LockEnv → LockSite → Lock → Store → Store
  release_at le site l s = (release rdb (le.lock_fails site) l le.release_time s).1

  -- With the first lock held, on the answer for the second one.
  abbrev pub with_first :
      LockEnv → Env → Tables → Request → Lock → Result LockError Lock × Store → Reply
  with_first le env t r l1 (err e, s) = (
    err (redis_lock_failed (lock_order r.from_acc_id r.to_acc_id).1 e),
    t,
    release_at le release_first l1 s,
  )
  with_first le env t r l1 (ok l2, s) =
      as_reply (transfer env t r)
        (release_at le release_first l1 (release_at le release_second l2 s))

  -- On the answer for the first lock.
  abbrev pub on_first : LockEnv → Env → Tables → Request → Result LockError Lock × Store → Reply
  on_first le env t r (err e, s) =
      (err (redis_lock_failed (lock_order r.from_acc_id r.to_acc_id).0 e), t, s)
  on_first le env t r (ok l1, s) = with_first le env t r l1 (
      acquire_lock rdb (le.lock_fails token_second) (le.lock_fails setnx_second) le.second_token
        (lock_key (lock_order r.from_acc_id r.to_acc_id).1) lock_ttl le.second_time s)

  -- `has_redis` is false where the service has no Redis client.
  unfoldable pub transfer_with_redis_lock :
      (has_redis : Bool) → LockEnv → Env → Tables → Store → Request → Reply
  transfer_with_redis_lock false le env t s r = as_reply (transfer env t r) s
  transfer_with_redis_lock true le env t s r = on_first le env t r (
      acquire_lock rdb (le.lock_fails token_first) (le.lock_fails setnx_first) le.first_token
        (lock_key (lock_order r.from_acc_id r.to_acc_id).0) lock_ttl le.first_time s)
