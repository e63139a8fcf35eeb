-- ===== src/Scenarios/Overlaps.antt =====
-- Two fraud results for one payment, whose runs overlap.
use q_pay_flow.Base.{
  Bool, if◌then◌else◌, ℕ, ◌≡◌, refl, true, false, some, Option, none, [], ◌∷◌, Appended, List, ◌+◌,
  ◌*◌, ◌≤◌,
}
use q_pay_flow.Base.Int.{ℤ, pos}
use q_pay_flow.Redis.Memory.{memory, Memory}
use q_pay_flow.Resilience.Breaker.{CircuitBreaker, new_circuit_breaker}
use q_pay_flow.Account.Model.{Account}
use q_pay_flow.Account.Repository.{find_account}
use q_pay_flow.Account.Service.{Env}
use mathlib.Core.Option
use q_pay_flow.Payment.Process.{TransferBody, process_fraud_result, transfer_body}
use q_pay_flow.Payment.Overlap.{Worker, arrived, admitting, advance_by, run_moves}
use q_pay_flow.Payment.Process
use q_pay_flow.Settlement.Reconciliation.{ledger_count}
use q_pay_flow.System.Repeats.{owing, given_up, run_moves_repeats}
use q_pay_flow.System.Contract.{account_server, account_server-Contract}
use q_pay_flow.System.Books.{Good}
use q_pay_flow.System.History.{History}
use q_pay_flow.System.Interleavings.{
  Interleaving, begins, continues, arrives, advances, aside, Interleaving-Good, moved,
}
use q_pay_flow.System.Runs.{creates, Run-History}
use q_pay_flow.Scenarios.Accounts.{books, up_env}
use q_pay_flow.Scenarios.Payments.{
  encodings, empty_store, req, create_env, process_env, paid, with_paid,
}
use q_pay_flow.Scenarios.Runs.{lock_env, created, books-Good, at_end, whole_run}
use q_pay_flow.Schema.{Tables}

Run-History_example : History books at_end
Run-History_example = Run-History memory encodings 100 whole_run

abbrev breaker : CircuitBreaker
breaker = new_circuit_breaker 5 3 10 0

-- Each call generates its own ids.
abbrev meets : Bool → Env
meets second = if second then record up_env { debit_uuid = "d2"; credit_uuid = "c2" } else up_env

abbrev serving : Bool → TransferBody → Tables → ℕ × Tables
serving second = account_server memory lock_env (meets second) empty_store

-- Both runs have read the payment; then each asks the breaker and calls.
abbrev both_before : List Worker
both_before =
    record { payment_id = "pay_1"; approved = true; phase = admitting paid }
    ∷ record { payment_id = "pay_1"; approved = true; phase = admitting paid }
    ∷ []

abbrev both_call : List (ℕ × Bool × Process.Env)
both_call =
    (0, false, process_env)
    ∷ (0, false, process_env)
    ∷ (1, true, process_env)
    ∷ (1, true, process_env)
    ∷ []

run_moves_repeats_example :
    ledger_count "pay_1" with_paid.balance_ledgers + 2 * owing "pay_1" both_before
    ≤ ledger_count "pay_1"
        (run_moves memory encodings 100 serving both_call
          (both_before, (with_paid, empty_store, breaker))).1.0.balance_ledgers
      + 2
        * owing "pay_1"
            (run_moves memory encodings 100 serving both_call
              (both_before, (with_paid, empty_store, breaker))).0
      + 2
        * given_up memory encodings 100 "pay_1" serving both_call both_before
            (with_paid, empty_store, breaker)
run_moves_repeats_example =
    run_moves_repeats memory encodings 100 serving
      (λ second. account_server-Contract memory lock_env (meets second) empty_store) "pay_1"
      both_call both_before (with_paid, empty_store, breaker)

abbrev both_called : Tables
both_called =
    (run_moves memory encodings 100 serving
      ((0, false, process_env) ∷ (1, true, process_env) ∷ both_call)
      (arrived "pay_1" true ∷ arrived "pay_1" true ∷ [], (with_paid, empty_store, breaker))).1.0

-- Alice had 100, and the payment is of 30.
alice_pays_twice :
    Option.map (λ (a : Account). a.balance) (find_account "alice" both_called.accounts)
    ≡ some (pos 40)
unfolding run_moves q_pay_flow.Payment.Overlap.advance_at q_pay_flow.Payment.Overlap.advance
    q_pay_flow.Payment.Overlap.after_read q_pay_flow.Payment.Repository.get_payment_by_id
    q_pay_flow.Resilience.Breaker.admit new_circuit_breaker q_pay_flow.Payment.Process.call_transfer
    account_server q_pay_flow.Account.Handler.transfer_handler q_pay_flow.Account.Service.transfer
    q_pay_flow.Account.Service.lock_accounts q_pay_flow.Account.Repository.create_ledger_entry
    q_pay_flow.Account.Repository.get_account_by_id_with_lock
    q_pay_flow.Account.Repository.update_account_balance q_pay_flow.Account.Service.lock_order
    q_pay_flow.Account.Service.lock_row q_pay_flow.Account.Service.move_funds
    q_pay_flow.Account.Service.transfer_tx q_pay_flow.Base.Int.◌+ℤ◌ q_pay_flow.Base.Int.◌-ℤ◌
alice_pays_twice = refl

-- A payment is created, its fraud result arrives twice, and each run reads it.
abbrev both_read : List Worker × (Tables × Memory × CircuitBreaker)
both_read =
    let (ks, w) =
      moved memory encodings 100 lock_env up_env empty_store 0 process_env
        (arrived "pay_1" true ∷ arrived "pay_1" true ∷ []) (created, empty_store, breaker) in
    moved memory encodings 100 lock_env up_env empty_store 1 process_env ks
      (w.0, empty_store, breaker)

both_running : Interleaving memory encodings 100 [] books both_read.0 both_read.1.0
both_running =
    continues
      (continues
        (continues
          (continues (continues begins (aside (creates create_env req empty_store)))
            (arrives "pay_1" true))
          (arrives "pay_1" true))
        (advances lock_env up_env empty_store 0 process_env empty_store breaker))
      (advances lock_env up_env empty_store 1 process_env empty_store breaker)

Interleaving-Good_example :
    Good both_read.1.0 × Appended books.balance_ledgers both_read.1.0.balance_ledgers
Interleaving-Good_example = Interleaving-Good memory encodings 100 both_running books-Good
