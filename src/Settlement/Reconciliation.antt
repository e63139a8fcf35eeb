-- ===== src/Settlement/Reconciliation.antt =====
-- cmd/settlement-service/internal/reconciliation/reconciliation.go: the two audits. The flags say
-- that the query, or the reading of its rows, fails.
use q_pay_flow.Base.{
  ℕ, String, Bool, true, false, ◌&&◌, List, map, Result, ok, err, str_eq, ltb, if◌then◌else◌,
  select, count_if,
}
use q_pay_flow.Base.Int.{ℤ, ◌-ℤ◌}
use q_pay_flow.Account.Model.{Account, BalanceLedger}
use q_pay_flow.Account.Repository.{ledger_sum}
use q_pay_flow.Payment.Model.{Payment, PaymentStatus, success}
use q_pay_flow.Settlement.Floats.{to_float, float_distance}
use q_pay_flow.Schema.{Tables}

pub record LedgerDiscrepancy : Type 0 where
  pub account_id : String
  pub current_balance : ℤ
  pub ledger_sum : ℤ
  pub difference : ℤ

pub data AuditError : Type 0 where
  integrity_query_failed scan_failed three_way_failed : AuditError

-- One row of `LEFT JOIN ... GROUP BY a.id, a.balance`: the account and the sum of its entries, as
-- the record that is reported if they differ.
unfoldable pub joined_row : List BalanceLedger → Account → LedgerDiscrepancy
joined_row ledgers a = record {
  account_id = a.id;
  current_balance = a.balance;
  ledger_sum = ledger_sum a.id ledgers;
  difference = a.balance -ℤ ledger_sum a.id ledgers;
}

-- `math.Abs(balance - ledgerSum) > 0.0001`, on float64: 0.0001 is the float64 of one unit.
unfoldable pub is_off : LedgerDiscrepancy → Bool
is_off d = ltb (to_float 1) (float_distance d.current_balance d.ledger_sum)

unfoldable pub audit_ledger_integrity :
    (query_down scan_down : Bool) → Tables → Result AuditError (List LedgerDiscrepancy)
unfolding joined_row
audit_ledger_integrity query_down scan_down t =
    if query_down
    then err integrity_query_failed
    else if scan_down
    then err scan_failed
    else ok (select is_off (map (joined_row t.balance_ledgers) t.accounts))

abbrev pub is_success : PaymentStatus → Bool
is_success success = true
is_success _ = false

abbrev pub refers_to : String → BalanceLedger → Bool
refers_to id e = str_eq e.reference_id id

-- The number of ledger entries of a payment; none is less than two as well.
abbrev pub ledger_count : String → List BalanceLedger → ℕ
ledger_count id = count_if (refers_to id)

abbrev pub is_missing : List BalanceLedger → Payment → Bool
is_missing ledgers p = is_success p.status && ltb (ledger_count p.id ledgers) 2

unfoldable pub audit_three_way_reconciliation : (query_down : Bool) → Tables → Result AuditError ℕ
audit_three_way_reconciliation query_down t =
    if query_down
    then err three_way_failed
    else ok (count_if (is_missing t.balance_ledgers) t.payments)

-- What `RunAudit` logs: each audit's error or finding. The second runs whatever the first gave.
pub record AuditReport : Type 0 where
  pub integrity : Result AuditError (List LedgerDiscrepancy)
  pub three_way : Result AuditError ℕ

unfoldable pub run_audit : (query_down scan_down three_way_down : Bool) → Tables → AuditReport
unfolding audit_ledger_integrity audit_three_way_reconciliation
run_audit query_down scan_down three_way_down t = record {
  integrity = audit_ledger_integrity query_down scan_down t;
  three_way = audit_three_way_reconciliation three_way_down t;
}
