-- ===== src/System/Interleavings.antt =====
-- Runs of `ProcessFraudResult` that interleave with each other and with all the other operations.
use q_pay_flow.Base.{
  ℕ, String, Bool, List, [], ◌∷◌, All, All-map_of, Appended, Appended-refl, Appended-trans,
}
use q_pay_flow.Redis.Interface.{Redis}
use q_pay_flow.Resilience.Breaker.{CircuitBreaker}
use q_pay_flow.Account.Service
use q_pay_flow.Account.RedisLock.{LockEnv}
use q_pay_flow.Payment.Create.{Encodings}
use q_pay_flow.Payment.Process.{Env}
use q_pay_flow.Payment.Overlap.{Worker, arrived, advance_at}
use q_pay_flow.System.Contract.{account_server, account_server-Contract}
use q_pay_flow.System.Books.{Good}
use q_pay_flow.System.Overlaps.{IsReady, Ready-grows, AllStepped, advance_at-AllStepped}
use q_pay_flow.System.Runs.{Step, Step-Good, Step-History}
use q_pay_flow.Schema.{Tables}

module _ (rdb : Redis) (enc : Encodings) (ttl : ℕ) where
  -- The run at a position takes a step, and calls the account service if it is at that point.
  abbrev pub moved :
      LockEnv
      → Service.Env
      → rdb.Store
      → ℕ
      → Env
      → List Worker
      → Tables × rdb.Store × CircuitBreaker
      → List Worker × (Tables × rdb.Store × CircuitBreaker)
  moved le served account_store =
      advance_at rdb enc ttl (account_server rdb le served account_store)

  -- A fraud result arrives, a run takes one step with whatever it meets, or another operation runs.
  pub data Interleaved (ks : List Worker) (t : Tables) : List Worker → Tables → Type 0 where
    arrives : (id : String) (approved : Bool) → Interleaved ks t (arrived id approved ∷ ks) t
    advances :
        (le : LockEnv) (served : Service.Env) (account_store : rdb.Store) (n : ℕ) (env : Env)
        (s : rdb.Store) (cb : CircuitBreaker)
        → Interleaved ks t
            (moved le served account_store n env ks (t, s, cb)).0
            (moved le served account_store n env ks (t, s, cb)).1.0
    aside : {t' : Tables} → Step rdb enc ttl t t' → Interleaved ks t ks t'

  pub data Interleaving (ks : List Worker) (t : Tables) : List Worker → Tables → Type 0 where
    begins : Interleaving ks t ks t
    continues :
        {ks' ks'' : List Worker} {t' t'' : Tables}
        → Interleaving ks t ks' t'
        → Interleaved ks' t' ks'' t''
        → Interleaving ks t ks'' t''

  Interleaved-AllStepped :
      {ks : List Worker} {t : Tables} {ks' : List Worker} {t' : Tables}
      → Interleaved ks t ks' t'
      → All (IsReady t.balance_ledgers) ks
      → Good t
      → AllStepped t t' ks'
  Interleaved-AllStepped {ks} {t = t} (arrives id approved) h g = record {
    good = g;
    ledger = Appended-refl t.balance_ledgers;
    ready = (tt, h);
  }
  Interleaved-AllStepped {ks} {t = t} (advances le served account_store n env s cb) h g =
      advance_at-AllStepped rdb enc ttl (account_server rdb le served account_store)
        (account_server-Contract rdb le served account_store) n env ks (t, s, cb) h g
  Interleaved-AllStepped {ks} (aside step) h g =
      let past = Step-History rdb enc ttl step in
      record {
        good = Step-Good rdb enc ttl step g;
        ledger = past.ledger;
        ready = All-map_of ks (λ j. Ready-grows j.payment_id j.phase past.ledger) h;
      }

  Interleaving-AllStepped :
      {ks : List Worker} {t : Tables} {ks' : List Worker} {t' : Tables}
      → Interleaving ks t ks' t'
      → All (IsReady t.balance_ledgers) ks
      → Good t
      → AllStepped t t' ks'
  Interleaving-AllStepped {t} begins h g = record {
    good = g;
    ledger = Appended-refl t.balance_ledgers;
    ready = h;
  }
  Interleaving-AllStepped (continues before step) h g =
      let a = Interleaving-AllStepped before h g in
      let b = Interleaved-AllStepped step a.ready a.good in
      record { good = b.good; ledger = Appended-trans a.ledger b.ledger; ready = b.ready }

  -- From good tables and with no run under way, the tables stay good, and the ledger is only appended
  -- to, over any interleaving of fraud results that arrive, of the steps of any number of runs of
  -- `ProcessFraudResult`, for the same payment or not, and of the whole operations of System/Runs,
  -- whatever calls fail in them.
  pub Interleaving-Good :
      {ks' : List Worker} {t t' : Tables}
      → Interleaving [] t ks' t'
      → Good t
      → Good t' × Appended t.balance_ledgers t'.balance_ledgers
  Interleaving-Good run g = let a = Interleaving-AllStepped run tt g in (a.good, a.ledger)
