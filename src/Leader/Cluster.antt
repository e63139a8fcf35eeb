-- ===== src/Leader/Cluster.antt =====
-- Any number of candidates for one key, on one Redis server and one clock, in any interleaving. One
-- that has ended may go on as a new one.
use q_pay_flow.Base.{ℕ, ◌+◌, ◌≤◌, ◌≡◌, String, false, ◌==◌, if◌then◌else◌}
use q_pay_flow.Redis.Interface.{Redis, Exchange}
use q_pay_flow.Leader.{Elector, on_heartbeat, on_done, renewed_ttl}

abbrev pub update {ℓ} : {A : Type ℓ} → (ℕ → A) → ℕ → A → ℕ → A
update f i a j = if j == i then a else f j

-- `lease i` is no state of the program: the time until which the last success of candidate i holds.
pub record Cluster (rdb : Redis) : Type 0 where
  pub nodes : ℕ → Elector
  pub lease : ℕ → ℕ
  pub store : rdb.Store
  pub clock : ℕ

-- What a heartbeat is good for, if it succeeds.
abbrev pub lease_from : Elector → ℕ → ℕ
lease_from e now = if e.is_leader then now + renewed_ttl e else now + e.ttl

module _ (rdb : Redis) where
  abbrev pub put : Cluster rdb → ℕ → ℕ → ℕ → Elector × rdb.Store → Cluster rdb
  put c i lease now (e, s) = record {
    nodes = update c.nodes i e;
    lease = update c.lease i lease;
    store = s;
    clock = now;
  }

  pub data Step (c : Cluster rdb) : Cluster rdb → Type 0 where
    beats :
        (i now : ℕ) (exchange : Exchange)
        → c.clock ≤ now
        → Step c (
            put c i
              (lease_from (c.nodes i) now)
              now
              (on_heartbeat rdb exchange now (c.nodes i) c.store))
    stops :
        (i now : ℕ) (exchange : Exchange)
        → c.clock ≤ now
        → Step c (put c i (c.lease i) now (on_done rdb exchange now (c.nodes i) c.store))

  -- The candidates are new, whatever the store holds.
  pub record IsBegun (key : String) (ids : ℕ → String) (c : Cluster rdb) : Type 0 where
    pub keys : (i : ℕ) → (c.nodes i).lock_key ≡ key
    pub names : (i : ℕ) → (c.nodes i).instance_id ≡ ids i
    pub followers : (i : ℕ) → (c.nodes i).is_leader ≡ false
    pub idle : (i : ℕ) → (c.nodes i).job_running ≡ false

  pub data Reach (key : String) (ids : ℕ → String) : Cluster rdb → Type 0 where
    begun : {c : Cluster rdb} → IsBegun key ids c → Reach key ids c
    after : {c d : Cluster rdb} → Reach key ids c → Step c d → Reach key ids d
