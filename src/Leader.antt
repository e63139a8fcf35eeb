-- ===== src/Leader.antt =====
-- cmd/settlement-service/internal/leader/election.go: one candidate. A heartbeat and the end of its
-- context are the two events of the loop in `Run`; the periodic job that `onElected` starts runs
-- until its context is cancelled, which `job_running` says.
pub mod Cluster
pub mod Moves
pub mod Safety
use Prim.Native.String
use q_pay_flow.Base.{
  ℕ, ◌*◌, ◌/◌, String, Bool, true, false, ◌&&◌, ◌==◌, none, some, str_eq, if◌then◌else◌,
}
use q_pay_flow.Redis.Interface.{Redis, Exchange, is_answered, left_by}
use q_pay_flow.Redis.Lock.{release_lua}

pub record Elector : Type 0 where
  pub lock_key : String
  pub instance_id : String
  pub ttl : ℕ
  pub is_leader : Bool
  pub job_running : Bool

abbrev pub second : ℕ
second = 1000000000

-- `NewElector`, with the hex text of the eight random bytes: a ttl that is not positive becomes ten
-- seconds.
abbrev pub new_elector : (hex lock_key : String) → ℕ → Elector
new_elector hex lock_key ttl = record {
  lock_key = lock_key;
  instance_id = String.◌++◌ "node_" hex;
  ttl = if ttl == 0 then 10 * second else ttl;
  is_leader = false;
  job_running = false;
}

-- `int64(e.ttl.Seconds())`, which EXPIRE gets, as ticks.
abbrev pub renewed_ttl : Elector → ℕ
renewed_ttl e = e.ttl / second * second

module _ (rdb : Redis) where
  open rdb use {Store}

  -- `renewScript`: the reply, and the store after.
  unfoldable pub renew_lua : (key token : String) → (ttl now : ℕ) → Store → ℕ × Store
  renew_lua key token ttl now s = elim (rdb.get key now s) [
    | none ↦ (0, s)
    | some held ↦ if str_eq held token then (1, rdb.expire key ttl now s) else (0, s)
  ]

  -- A heartbeat of the leader: it stays only if the script answers 1.
  abbrev pub after_renew : Exchange → Elector → Store → ℕ × Store → Elector × Store
  after_renew exchange e s (reply, s') = (
    if is_answered exchange && reply == 1
        then e
        else record e { is_leader = false; job_running = false },
    left_by exchange s s',
  )

  -- A heartbeat of a follower: SET NX of its id.
  abbrev pub after_attempt : Exchange → Elector → Store → Bool × Store → Elector × Store
  after_attempt exchange e s (won, s') = (
    if is_answered exchange && won then record e { is_leader = true; job_running = true } else e,
    left_by exchange s s',
  )

  unfoldable pub on_heartbeat : Exchange → (now : ℕ) → Elector → Store → Elector × Store
  unfolding renew_lua
  on_heartbeat exchange now e s =
      if e.is_leader
      then after_renew exchange e s (renew_lua e.lock_key e.instance_id (renewed_ttl e) now s)
      else after_attempt exchange e s (rdb.set_nx e.lock_key e.instance_id e.ttl now s)

  -- `stepDown`: `releaseScript` is the script that releases a lock.
  unfoldable pub step_down : Exchange → (now : ℕ) → Elector → Store → Elector × Store
  step_down exchange now e s =
      let (reply, s') = release_lua rdb e.lock_key e.instance_id now s in
      if e.is_leader then (record e { is_leader = false }, left_by exchange s s') else (e, s)

  -- The end of the context: the job is cancelled, then the candidate steps down.
  unfoldable pub on_done : Exchange → (now : ℕ) → Elector → Store → Elector × Store
  unfolding step_down
  on_done exchange now e s = step_down exchange now (record e { job_running = false }) s
