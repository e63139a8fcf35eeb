-- ===== src/Scenarios/Runs.antt =====
-- A payment that is created and approved, with the transfer behind it.
use q_pay_flow.Base.{refl, arith, eq_iff, ◌≡◌, true, false, ok, []}
use q_pay_flow.Redis.Memory.{memory, memory-Laws}
use q_pay_flow.Resilience.Breaker.{new_circuit_breaker}
use q_pay_flow.Account.RedisLock.{LockEnv, transfer_with_redis_lock}
use q_pay_flow.Account.Unlocked.{Unlocked, transfer_with_redis_lock-Unlocked}
use q_pay_flow.Account.Locked.{LockedOutcome, transfer_with_redis_lock-Outcome}
use q_pay_flow.Settlement.Reconciliation.{run_audit}
use q_pay_flow.System.Contract.{Contract, account_server, account_server-Contract}
use q_pay_flow.System.Books.{Good}
use q_pay_flow.System.Runs.{
  Run, start, next, creates, processes, transfers, Run-Good, Run-run_audit,
}
use q_pay_flow.Payment.Create.{create}
use q_pay_flow.Payment.Process.{process_fraud_result}
use q_pay_flow.Account.Service.{transfer}
use q_pay_flow.Scenarios.Accounts.{books, books-WellFormed, up_env, pay}
use q_pay_flow.Scenarios.Payments.{encodings, empty_store, req, create_env, process_env}
use q_pay_flow.Schema.{Tables}

abbrev pub lock_env : LockEnv
lock_env = record {
  first_token = "t1";
  second_token = "t2";
  first_time = 1;
  second_time = 2;
  release_time = 3;
  lock_fails = λ site. false;
}

abbrev pub created : Tables
created = (create memory encodings 100 create_env req books empty_store).1

abbrev pub processed : Tables
processed =
    (process_fraud_result memory encodings 100 (account_server memory lock_env up_env empty_store)
      process_env "pay_1" true (created, empty_store, new_circuit_breaker 5 3 10 0)).1.0

-- A transfer under the same generated ids is refused, and changes nothing.
abbrev pub at_end : Tables
at_end = (transfer up_env processed (pay 15)).1

pub whole_run : Run memory encodings 100 books at_end
whole_run =
    next
      (next (next start (creates create_env req empty_store)) (
        processes lock_env up_env empty_store process_env "pay_1" true empty_store
          (new_circuit_breaker 5 3 10 0)))
      (transfers up_env (pay 15))

pub books-Good : Good books
books-Good = record { books = books-WellFormed; matched = tt }

pub created-Good : Good created
created-Good =
    Run-Good memory encodings 100 (next start (creates create_env req empty_store)) books-Good

Run-Good_example : Good at_end
Run-Good_example = Run-Good memory encodings 100 whole_run books-Good

Run-run_audit_example :
    run_audit false false false at_end ≡ record { integrity = ok []; three_way = ok 0 }
Run-run_audit_example = Run-run_audit memory encodings 100 whole_run books-Good

account_server-Contract_example : Contract (account_server memory lock_env up_env empty_store)
account_server-Contract_example = account_server-Contract memory lock_env up_env empty_store

transfer_with_redis_lock-Outcome_example :
    LockedOutcome memory up_env books
      (pay 15)
      (transfer_with_redis_lock memory true lock_env up_env books empty_store (pay 15))
transfer_with_redis_lock-Outcome_example =
    transfer_with_redis_lock-Outcome memory true lock_env up_env books empty_store (pay 15)

transfer_with_redis_lock-Unlocked_example :
    Unlocked memory memory-Laws 3 "lock:acc:alice" "lock:acc:bob" empty_store
      (transfer_with_redis_lock memory true lock_env up_env books empty_store (pay 15)).2
unfolding q_pay_flow.Account.Service.lock_order
transfer_with_redis_lock-Unlocked_example =
    transfer_with_redis_lock-Unlocked memory memory-Laws lock_env (λ site. refl)
      (omega arith, omega arith) (omega arith, omega arith) up_env books (pay 15) empty_store
      (λ e. ground (arith, eq_iff "bob" "alice", e))
