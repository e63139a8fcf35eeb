-- ===== src/System/Contract.antt =====
-- POST /accounts/transfer, as the payment service calls it and as the account service answers it.
use q_pay_flow.Base.{
  ℕ, ◌+◌, ◌≤◌, ◌≡◌, refl, String, true, some, Result, ok, err, [], ◌∷◌, ◌++◌, arith, str_eq_refl,
  count_if, count_if-append, append_assoc, Appended, Appended-refl, Appended-count, ap, sym, ◌∙◌,
}
use q_pay_flow.Redis.Interface.{Redis}
use q_pay_flow.Account.Service.{Env, Request, transfer, TransferError, debit_entry, credit_entry}
use q_pay_flow.Account.Steps.{Transferred}
use q_pay_flow.Account.Ledger.{
  WellFormed, transfer-WellFormed, transfer-Outcome, transfer-Transferred, Outcome_elim,
}
use q_pay_flow.Account.RedisLock.{LockEnv}
use q_pay_flow.Account.Handler.{TransferRequest, request_of, transfer_handler}
use q_pay_flow.Payment.Process.{TransferBody}
use q_pay_flow.Settlement.Reconciliation.{ledger_count, refers_to}
use q_pay_flow.Schema.{Tables}

-- What the payment service and the audits rely on: the books stay well formed, payments are not
-- touched, the ledger is only appended to, and 200 means that two entries of the transfer are new.
pub record Contract (server : TransferBody → Tables → ℕ × Tables) : Type 0 where
  pub keeps_books : (body : TransferBody) (t : Tables) → WellFormed t → WellFormed (server body t).1
  pub same_payments : (body : TransferBody) (t : Tables) → (server body t).1.payments ≡ t.payments
  pub only_appends :
      (body : TransferBody) (t : Tables)
      → Appended t.balance_ledgers (server body t).1.balance_ledgers
  pub both_entries :
      (body : TransferBody) (t : Tables)
      → (server body t).0 ≡ 200
      → 2 + ledger_count body.transaction_id t.balance_ledgers
        ≤ ledger_count body.transaction_id (server body t).1.balance_ledgers

pub more_entries :
    {server : TransferBody → Tables → ℕ × Tables}
    → Contract server
    → (body : TransferBody) (t : Tables) (k : String)
    → ledger_count k t.balance_ledgers ≤ ledger_count k (server body t).1.balance_ledgers
more_entries contract body t k = Appended-count (refers_to k) (contract.only_appends body t)

-- The body of the payment service has no `lock_strategy`.
abbrev pub request_of_body : TransferBody → TransferRequest
request_of_body body = record {
  transaction_id = body.transaction_id;
  from_account_id = body.from_account_id;
  to_account_id = body.to_account_id;
  amount = body.amount;
  currency = body.currency;
  description = body.description;
  lock_strategy = "";
}

-- The account service behind its route: the status that it answers, and the tables.
unfoldable pub account_server :
    (rdb : Redis) → LockEnv → Env → rdb.Store → TransferBody → Tables → ℕ × Tables
account_server rdb le env s body t =
    let (response, t', s') = transfer_handler rdb true le env (some (request_of_body body)) t s in
    (response.status, t')

abbrev status_of : Result TransferError (Unit {0}) → ℕ
status_of (ok u) = 200
status_of (err e) = 400

account_server-eq :
    (rdb : Redis) (le : LockEnv) (env : Env) (s : rdb.Store) (body : TransferBody) (t : Tables)
    → let out = transfer env t (request_of (request_of_body body)) in
      account_server rdb le env s body t ≡ (status_of out.0, out.1)
unfolding account_server transfer_handler
account_server-eq rdb le env s body t = ground arith

-- A committed transfer takes no entry away, and leaves two for its transaction.
module _ {env : Env} {t : Tables} {r : Request} {t' : Tables} (s : Transferred env t r t') where
  open s use {src, dst, moved}

  count_after :
      (k : String)
      → ledger_count k t'.balance_ledgers
        ≡ ledger_count k t.balance_ledgers
          + count_if (refers_to k) (debit_entry env r src ∷ [])
          + count_if (refers_to k) (credit_entry env r dst ∷ [])
  count_after k = rw moved.ledgers_eq (
      rw (
        count_if-append (refers_to k) (t.balance_ledgers ++ debit_entry env r src ∷ [])
            (credit_entry env r dst ∷ []),
        count_if-append (refers_to k) t.balance_ledgers (debit_entry env r src ∷ []),
      ))

  pub transfer-Appended : Appended t.balance_ledgers t'.balance_ledgers
  transfer-Appended = record {
    added = debit_entry env r src ∷ credit_entry env r dst ∷ [];
    added_eq =
        moved.ledgers_eq
        ∙ append_assoc t.balance_ledgers (debit_entry env r src ∷ []) (credit_entry env r dst ∷ []);
  }

  count_both : 2 + ledger_count r.tx_id t.balance_ledgers ≤ ledger_count r.tx_id t'.balance_ledgers
  count_both = rw (count_after r.tx_id, str_eq_refl r.tx_id) (omega arith)

module _ (rdb : Redis) (le : LockEnv) (env : Env) (s : rdb.Store) where
  server_books :
      (body : TransferBody) (t : Tables)
      → WellFormed t
      → WellFormed (account_server rdb le env s body t).1
  server_books body t v =
      rw (account_server-eq rdb le env s body t)
        (transfer-WellFormed env t (request_of (request_of_body body)) v)

  server_payments :
      (body : TransferBody) (t : Tables)
      → (account_server rdb le env s body t).1.payments ≡ t.payments
  server_payments body t =
      let r = request_of (request_of_body body) in
      rw (account_server-eq rdb le env s body t) (
        Outcome_elim (λ t'. t'.payments ≡ t.payments) (transfer env t r) refl
          (λ t' m. m.moved.payments_eq) (transfer-Outcome env t r))

  server_appends :
      (body : TransferBody) (t : Tables)
      → Appended t.balance_ledgers (account_server rdb le env s body t).1.balance_ledgers
  server_appends body t =
      let r = request_of (request_of_body body) in
      rw (account_server-eq rdb le env s body t) (
        Outcome_elim (λ t'. Appended t.balance_ledgers t'.balance_ledgers) (transfer env t r)
          (Appended-refl t.balance_ledgers) (λ t' m. transfer-Appended m)
          (transfer-Outcome env t r))

  status_of-ok : (m : Result TransferError (Unit {0})) → status_of m ≡ 200 → m ≡ ok tt
  status_of-ok (ok u) h = refl
  status_of-ok (err e) h = ground arith

  server_both :
      (body : TransferBody) (t : Tables)
      → (account_server rdb le env s body t).0 ≡ 200
      → 2 + ledger_count body.transaction_id t.balance_ledgers
        ≤ ledger_count body.transaction_id (account_server rdb le env s body t).1.balance_ledgers
  server_both body t h =
      let r = request_of (request_of_body body) in
      let answered = sym (ap (λ p. p.0) (account_server-eq rdb le env s body t)) ∙ h in
      rw (account_server-eq rdb le env s body t)
        (count_both (transfer-Transferred env t r (status_of-ok (transfer env t r).0 answered)))

  -- The account service keeps its side, whatever of its calls to the database fails: the books stay
  -- well formed, payments are not touched, the ledger is only appended to, and it answers 200 only
  -- if two ledger entries of the transaction were added.
  pub account_server-Contract : Contract (account_server rdb le env s)
  account_server-Contract = record {
    keeps_books = server_books;
    same_payments = server_payments;
    only_appends = server_appends;
    both_entries = server_both;
  }
