-- ===== src/Scenarios/Audits.antt =====
-- Audits of the two accounts.
use q_pay_flow.Base.{String, ◌∷◌, ◌≡◌, false, true, ok, All, ◌↔◌, [], List, select, map, refl}
use q_pay_flow.Base.Int.{ℤ, pos, ◌+ℤ◌}
use q_pay_flow.Account.Model.{BalanceLedger}
use q_pay_flow.Payment.Model.{success}
use q_pay_flow.Schema.{Tables}
use q_pay_flow.Settlement.Reconciliation.{
  LedgerDiscrepancy, is_off, joined_row, audit_ledger_integrity, audit_three_way_reconciliation,
}
use q_pay_flow.Settlement.Audits.{
  audit_ledger_integrity_report, audit_three_way_iff, Any, Describes, IsFound, Matched,
}
use q_pay_flow.Settlement.Floats.{float_distance, to_float, round_float, round_half}
use q_pay_flow.Scenarios.Accounts.{books}

abbrev entry : String → String → BalanceLedger
entry id type = record {
  id = id;
  account_id = "bob";
  amount = pos 5;
  type = type;
  reference_id = "pay_1";
  created_at = 0;
}

-- An entry that no balance follows.
abbrev tampered : Tables
tampered = record books { balance_ledgers = entry "l3" "CREDIT" ∷ books.balance_ledgers }

abbrev tampered_report : List LedgerDiscrepancy
tampered_report = select is_off (map (joined_row tampered.balance_ledgers) tampered.accounts)

audit_ledger_integrity_report_example :
    All (λ d. Any (Describes tampered.balance_ledgers d) tampered.accounts) tampered_report
    × All (IsFound tampered.balance_ledgers tampered_report) tampered.accounts
unfolding audit_ledger_integrity
audit_ledger_integrity_report_example = audit_ledger_integrity_report tampered refl

abbrev off_by_one : ℤ → LedgerDiscrepancy
off_by_one sum = record {
  account_id = "bob";
  current_balance = sum +ℤ pos 1;
  ledger_sum = sum;
  difference = pos 1;
}

-- As float64, 100.0001 - 100 is more than 0.0001, and 1.0001 - 1 is less.
hundred_off : is_off (off_by_one (pos 1000000)) ≡ true
unfolding is_off float_distance to_float round_float round_half ◌+ℤ◌
hundred_off = refl

one_off : is_off (off_by_one (pos 10000)) ≡ false
unfolding is_off float_distance to_float round_float round_half ◌+ℤ◌
one_off = refl

-- A SUCCESS payment, and its two ledger entries.
abbrev paid_books : Tables
paid_books = record books {
  balance_ledgers = entry "l3" "DEBIT" ∷ entry "l4" "CREDIT" ∷ books.balance_ledgers;
  payments =
      record {
        id = "pay_1";
        idempotency_key = "key1";
        source_account_id = "alice";
        target_account_id = "bob";
        amount = pos 5;
        currency = "USD";
        status = success;
        created_at = 0;
        updated_at = 0;
      }
      ∷ [];
}

audit_three_way_iff_example :
    (audit_three_way_reconciliation false paid_books ≡ ok 0)
    ↔ All (Matched paid_books.balance_ledgers) paid_books.payments
audit_three_way_iff_example = audit_three_way_iff paid_books

-- Two DEBIT entries pass the three-way audit as well.
abbrev both_debit : Tables
both_debit = record paid_books {
  balance_ledgers = entry "l3" "DEBIT" ∷ entry "l4" "DEBIT" ∷ books.balance_ledgers;
}

two_debits : audit_three_way_reconciliation false both_debit ≡ ok 0
unfolding audit_three_way_reconciliation
two_debits = refl
