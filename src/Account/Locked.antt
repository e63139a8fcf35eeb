-- ===== src/Account/Locked.antt =====
-- `TransferWithRedisLock` against `Transfer`.
use q_pay_flow.Base.{◌≡◌, refl, Bool, true, false, Result, ok, err}
use q_pay_flow.Redis.Interface.{Redis}
use q_pay_flow.Redis.Lock.{Lock, LockError}
use q_pay_flow.Account.Service.{Env, Request, TransferError, transfer}
use q_pay_flow.Account.Steps.{Transferred}
use q_pay_flow.Account.Ledger
use q_pay_flow.Account.Ledger.{transfer-Outcome}
use q_pay_flow.Account.RedisLock.{
  LockEnv, Reply, as_reply, with_first, on_first, transfer_with_redis_lock,
}
use q_pay_flow.Schema.{Tables}

module _ (rdb : Redis) where
  -- Committed as `Transfer` commits, or refused with the tables as they were.
  abbrev pub LockedOutcome : Env → Tables → Request → Reply rdb → Type 0
  LockedOutcome env t r (ok _, t', s') = Transferred env t r t'
  LockedOutcome env t r (err _, t', s') = t' ≡ t

  as_reply-Outcome :
      (env : Env) (t : Tables) (r : Request) (out : Result TransferError (Unit {0}) × Tables)
      (s : rdb.Store)
      → Ledger.Outcome env t r out
      → LockedOutcome env t r (as_reply rdb out s)
  as_reply-Outcome env t r (ok u, t') s h = h
  as_reply-Outcome env t r (err e, t') s h = h

  with_first-Outcome :
      (le : LockEnv) (env : Env) (t : Tables) (r : Request) (l : Lock)
      (answer : Result LockError Lock × rdb.Store)
      → LockedOutcome env t r (with_first rdb le env t r l answer)
  with_first-Outcome le env t r l (err e, s) = refl
  with_first-Outcome le env t r l (ok l2, s) =
      as_reply-Outcome env t r (transfer env t r) _ (transfer-Outcome env t r)

  on_first-Outcome :
      (le : LockEnv) (env : Env) (t : Tables) (r : Request)
      (answer : Result LockError Lock × rdb.Store)
      → LockedOutcome env t r (on_first rdb le env t r answer)
  on_first-Outcome le env t r (err e, s) = refl
  on_first-Outcome le env t r (ok l1, s) = with_first-Outcome le env t r l1 _

  -- With the Redis locks a transfer is all or nothing as well, whatever happens to the locks and
  -- whatever call fails: on an error, that of a lock included, the tables are as they were; on
  -- success a transfer was committed as it is without these locks.
  pub transfer_with_redis_lock-Outcome :
      (has_redis : Bool) (le : LockEnv) (env : Env) (t : Tables) (s : rdb.Store) (r : Request)
      → LockedOutcome env t r (transfer_with_redis_lock rdb has_redis le env t s r)
  unfolding transfer_with_redis_lock
  transfer_with_redis_lock-Outcome false le env t s r =
      as_reply-Outcome env t r (transfer env t r) s (transfer-Outcome env t r)
  transfer_with_redis_lock-Outcome true le env t s r = on_first-Outcome le env t r _
