-- ===== src/System/Runs.antt =====
-- Any sequence of the operations that write: payments that are created, fraud results that are
-- processed, one alone or as the saga consumer reads them, with the transfers behind them, transfers
-- that come from elsewhere, batches of the outbox relay, and accounts that the seeder adds.
use q_pay_flow.Base.{ℕ, ◌≡◌, String, Bool, false, ok, List, []}
use q_pay_flow.Base.Int.{ℤ, pos, ◌≤ℤ◌}
use q_pay_flow.Redis.Interface.{Redis}
use q_pay_flow.Resilience.Breaker.{CircuitBreaker}
use q_pay_flow.Account.Service
use q_pay_flow.Account.Service.{Request, transfer}
use q_pay_flow.Account.RedisLock.{LockEnv}
use q_pay_flow.Payment.Create
use q_pay_flow.Payment.Create.{Encodings, CreatePaymentRequest, create}
use q_pay_flow.Payment.Process
use q_pay_flow.Payment.Process.{TransferBody, process_fraud_result}
use q_pay_flow.Payment.Model.{PaymentCreatedEvent, FraudCheckedEvent, PaymentResultEvent}
use q_pay_flow.Payment.Outbox.{Message, RelayEnv, process_batch}
use q_pay_flow.Payment.Saga.{SagaState, saga_handler}
use q_pay_flow.Idempotency.Manager.{Codec}
use q_pay_flow.Kafka
use q_pay_flow.Kafka.{Producer, Published, PublishEnv, Read}
use q_pay_flow.Generator.Seeding.{SeedEnv, seed_account}
use q_pay_flow.Generator.Seeded.{IsFresh}
use q_pay_flow.Settlement.Reconciliation.{run_audit}
use q_pay_flow.Settlement.Audits.{WellFormed-audit, audit_three_way_iff}
use q_pay_flow.System.Contract.{Contract, account_server, account_server-Contract}
use q_pay_flow.System.History.{
  History, History-refl, History-trans, create-History, process-History, transfer-History,
}
use q_pay_flow.System.Events.{
  process_batch-Good, process_batch-History, saga-Good, saga-History, seed-Good, seed-History,
}
use q_pay_flow.System.Books.{Good, transfer-Good, create-Good, process-Good}
use q_pay_flow.Schema.{Tables}

module _ (rdb : Redis) (enc : Encodings) (ttl : ℕ) where
  -- What the account service meets in one call: its locks, its database and its Redis.
  abbrev pub Around : Type 0
  Around = LockEnv × Service.Env × rdb.Store

  abbrev pub serving : Around → TransferBody → Tables → ℕ × Tables
  serving (le, env, s) = account_server rdb le env s

  serving-Contract : (a : Around) → Contract (serving a)
  serving-Contract (le, env, s) = account_server-Contract rdb le env s

  -- The saga consumer, on what its topic brings.
  abbrev pub consumed :
      (checked_json : Codec FraudCheckedEvent) (result_json : Codec PaymentResultEvent)
      (producer : Producer)
      → List (Read (Around × Process.Env × PublishEnv))
      → SagaState checked_json result_json producer rdb enc ttl serving
      → SagaState checked_json result_json producer rdb enc ttl serving
  consumed checked_json result_json producer reads w =
      Kafka.start (saga_handler checked_json result_json producer rdb enc ttl serving) reads w

  -- One operation, with whatever store and breaker it finds and whatever fails in it.
  pub data Step (t : Tables) : Tables → Type 0 where
    creates :
        (env : Create.Env) (req : CreatePaymentRequest) (s : rdb.Store)
        → Step t (create rdb enc ttl env req t s).1
    processes :
        (le : LockEnv) (served : Service.Env) (account_store : rdb.Store) (env : Process.Env)
        (id : String) (approved : Bool) (s : rdb.Store) (cb : CircuitBreaker)
        → Step t
            (process_fraud_result rdb enc ttl
              (account_server rdb le served account_store)
              env
              id
              approved
              (t, s, cb)).1.0
    transfers : (env : Service.Env) (r : Request) → Step t (transfer env t r).1
    relays :
        (json : Codec PaymentCreatedEvent) (env : RelayEnv) (batch : ℕ) (sent : List Message)
        → Step t (process_batch json env batch (t, sent)).1
    consumes :
        (checked_json : Codec FraudCheckedEvent) (result_json : Codec PaymentResultEvent)
        (producer : Producer) (reads : List (Read (Around × Process.Env × PublishEnv)))
        (s : rdb.Store) (cb : CircuitBreaker) (sent : List Published)
        → Step t (consumed checked_json result_json producer reads ((t, s, cb), sent)).0.0
    seeds :
        (env : SeedEnv) (idx : ℕ) (balance : ℤ) (currency : String)
        → IsFresh env idx balance t
        → pos 0 ≤ℤ balance
        → Step t (seed_account env idx balance currency t).1

  pub data Run (t : Tables) : Tables → Type 0 where
    start : Run t t
    next : {t' t'' : Tables} → Run t t' → Step t' t'' → Run t t''

  pub Step-Good : {t t' : Tables} → Step t t' → Good t → Good t'
  Step-Good {t} (creates env req s) g = create-Good rdb enc ttl env req t s g
  Step-Good {t} (processes le served account_store env id approved s cb) g =
      process-Good rdb enc ttl (account_server rdb le served account_store)
        (account_server-Contract rdb le served account_store) env id approved (t, s, cb) g
  Step-Good {t} (transfers env r) g = transfer-Good env t r g
  Step-Good {t} (relays json env batch sent) g = process_batch-Good json env batch t sent g
  Step-Good {t} (consumes checked_json result_json producer reads s cb sent) g =
      saga-Good checked_json result_json producer rdb enc ttl serving serving-Contract reads
        ((t, s, cb), sent) g
  Step-Good {t} (seeds env idx balance currency fresh nonneg) g =
      seed-Good env idx balance currency fresh nonneg g

  -- The tables stay good over any run of the operations above, whatever calls fail in them, where
  -- the seeder adds only accounts that are not there yet, with balances that are not negative:
  -- account ids are unique, no balance is negative, every balance is the sum of its ledger
  -- entries, and every SUCCESS payment has at least two ledger entries.
  pub Run-Good : {t t' : Tables} → Run t t' → Good t → Good t'
  Run-Good start g = g
  Run-Good (next run step) g = Step-Good step (Run-Good run g)

  pub Step-History : {t t' : Tables} → Step t t' → History t t'
  Step-History {t} (creates env req s) = create-History rdb enc ttl env req t s
  Step-History {t} (processes le served account_store env id approved s cb) =
      process-History rdb enc ttl (account_server rdb le served account_store)
        (account_server-Contract rdb le served account_store) env id approved (t, s, cb)
  Step-History {t} (transfers env r) = transfer-History env t r
  Step-History {t} (relays json env batch sent) = process_batch-History json env batch t sent
  Step-History {t} (consumes checked_json result_json producer reads s cb sent) =
      saga-History checked_json result_json producer rdb enc ttl serving serving-Contract reads
        ((t, s, cb), sent)
  Step-History {t} (seeds env idx balance currency fresh nonneg) =
      seed-History env idx balance currency fresh

  -- Over any run of the operations above, whatever calls fail in them, the ledger is only appended
  -- to, and every payment is there still: with the same key, accounts, amount and currency, and, once
  -- its status is not PENDING, with that status.
  pub Run-History : {t t' : Tables} → Run t t' → History t t'
  Run-History {t} start = History-refl t
  Run-History (next run step) = History-trans (Run-History run) (Step-History step)

  -- An audit after any run that began with good tables, and whose queries succeed, reports nothing.
  pub Run-run_audit :
      {t t' : Tables}
      → Run t t'
      → Good t
      → run_audit false false false t' ≡ record { integrity = ok []; three_way = ok 0 }
  unfolding run_audit
  Run-run_audit {t} {t'} run g =
      let g' = Run-Good run g in
      rw (WellFormed-audit t' g'.books, (audit_three_way_iff t').1 g'.matched)
