-- ===== src/Account/Success.antt =====
-- When a transfer goes through, and what a refused one says.
use Prim.Native.String
use q_pay_flow.Base.{false, ◌≡◌, ◌≢◌, none, some, arith, ok, err, ◌↔◌}
use q_pay_flow.Base.Int.{pos, ◌<ℤ◌}
use q_pay_flow.Base.Table.{find_by}
use q_pay_flow.Account.Model.{Account, BalanceLedger}
use q_pay_flow.Account.Repository.{find_account}
use q_pay_flow.Account.Service.{
  Env, Request, Site, transfer, transfer_tx, move_funds, insufficient_balance, lock_first,
  lock_second, begin_tx, commit_tx,
}
use q_pay_flow.Account.Ledger.{transfer-Transferred}
use q_pay_flow.Schema.{Tables}
use q_pay_flow.Account.Funds.{IsCovered, check_request-ok, lock_accounts-ok, move_funds-ok}

-- The ids that the two ledger entries will get are free.
pub record IdsFree (env : Env) (t : Tables) : Type 0 where
  pub debit_free :
      find_by (λ (e : BalanceLedger). e.id) (String.◌++◌ "ldg_dr_" env.debit_uuid) t.balance_ledgers
      ≡ none
  pub credit_free :
      find_by
        (λ (e : BalanceLedger). e.id)
        (String.◌++◌ "ldg_cr_" env.credit_uuid)
        t.balance_ledgers
      ≡ none

module _ (env : Env) (t : Tables) (r : Request) (up : (site : Site) → env.fails site ≡ false) where
  transfer_succeeds :
      {src dst : Account} → IdsFree env t → IsCovered t r src dst → (transfer env t r).0 ≡ ok tt
  unfolding transfer transfer_tx
  transfer_succeeds free c =
      let (t', moved) = move_funds-ok env t r up c free.debit_free free.credit_free in
      ground (
        arith,
        check_request-ok r c.positive c.from_given c.to_given c.distinct,
        up begin_tx,
        up commit_tx,
        lock_accounts-ok env t r (up lock_first) (up lock_second) c.distinct c.src_found
            c.dst_found,
        moved,
      )

  -- Where every call succeeds and the generated ids are free, a transfer goes through exactly when
  -- its amount is positive, its two account ids are given and distinct, both accounts exist, and
  -- the source holds the amount.
  pub transfer_iff :
      IdsFree env t
      → ((transfer env t r).0 ≡ ok tt) ↔ ((src : Account) × (dst : Account) × IsCovered t r src dst)
  transfer_iff free = (
    (λ h.
        let s = transfer-Transferred env t r h in
        (
          s.src,
          s.dst,
          record {
            positive = s.positive;
            from_given = s.from_given;
            to_given = s.to_given;
            distinct = s.distinct;
            src_found = s.src_found;
            dst_found = s.dst_found;
            covered = s.moved.covered;
          },
        )),
    (λ c. transfer_succeeds free c.2),
  )

  -- A transfer of more than the source holds is refused with both amounts, and nothing changes.
  pub transfer_overdraft :
      (src dst : Account)
      → pos 0 <ℤ r.amount
      → r.from_acc_id ≢ ""
      → r.to_acc_id ≢ ""
      → r.from_acc_id ≢ r.to_acc_id
      → find_account r.from_acc_id t.accounts ≡ some src
      → find_account r.to_acc_id t.accounts ≡ some dst
      → src.balance <ℤ r.amount
      → transfer env t r ≡ (err (insufficient_balance src.balance r.amount), t)
  unfolding transfer transfer_tx move_funds
  transfer_overdraft src dst p f g d hs hd short = ground (
    arith,
    check_request-ok r p f g d,
    up begin_tx,
    lock_accounts-ok env t r (up lock_first) (up lock_second) d hs hd,
  )
