-- ===== src/System/Repeats.antt =====
-- Runs of `ProcessFraudResult` for one payment that overlap: what each of them does to the ledger.
use q_pay_flow.Base.{
  ℕ, zero, suc, ◌+◌, ◌*◌, ◌≤◌, ◌≡◌, String, Bool, true, false, not, ◌&&◌, List, [], ◌∷◌, arith, inl,
  inr, Bool-cases, str_eq, eq_iff, ◌==◌, if◌then◌else◌, sym,
}
use q_pay_flow.Redis.Interface.{Redis}
use q_pay_flow.Resilience.Breaker.{CircuitBreaker, admit}
use q_pay_flow.Payment.Create.{Encodings}
use q_pay_flow.Payment.Repository.{update_payment_status}
use q_pay_flow.Payment.Process.{
  TransferBody, transfer_body, Delivery, not_sent, reply_lost, replied, call_transfer, Env, World,
}
use q_pay_flow.Payment.Overlap.{
  Phase, waiting, admitting, calling, returning, marking, completing, finished, Worker, advance,
  advance_at, run_moves,
}
use q_pay_flow.Settlement.Reconciliation.{ledger_count}
use q_pay_flow.System.Contract.{Contract, more_entries}
use q_pay_flow.Schema.{Tables}

-- A run that has read the payment, PENDING and approved, and has not called the account service yet.
abbrev pub owes_at : String → Phase → ℕ
owes_at id (admitting p) = if str_eq p.id id then 1 else 0
owes_at id (calling p) = if str_eq p.id id then 1 else 0
owes_at id waiting = 0
owes_at id (returning p res) = 0
owes_at id (marking site p status) = 0
owes_at id (completing p) = 0
owes_at id (finished r) = 0

abbrev pub owing : String → List Worker → ℕ
owing id [] = 0
owing id (k ∷ ks) = let more = owing id ks in owes_at id k.phase + more

-- The request is not sent, or not answered with 200; a reply that is lost is an answer.
abbrev pub is_refused :
    (TransferBody → Tables → ℕ × Tables) → Delivery → TransferBody → Tables → Bool
is_refused server not_sent body t = true
is_refused server reply_lost body t = not ((server body t).0 == 200)
is_refused server replied body t = not ((server body t).0 == 200)

module _ (server : TransferBody → Tables → ℕ × Tables) (contract : Contract server) where
  answered_entries :
      (body : TransferBody) (t : Tables) (id : String)
      → ledger_count id t.balance_ledgers + 2 * (if str_eq body.transaction_id id then 1 else 0)
        ≤ ledger_count id (server body t).1.balance_ledgers
          + 2 * (if str_eq body.transaction_id id && not ((server body t).0 == 200) then 1 else 0)
  answered_entries body t id =
      let more = more_entries contract body t id in
      elim (Bool-cases (str_eq body.transaction_id id)) [
        | inr e ↦ rw e (omega (arith, more))
        | inl e ↦ elim (Bool-cases ((server body t).0 == 200)) [
          | inr r ↦ rw e (rw r (omega (arith, more)))
          | inl r ↦
              let same : body.transaction_id ≡ id = (eq_iff body.transaction_id id).0 e in
              let both = contract.both_entries body t (ground arith) in
              rw e (rw r (rw (sym same) (omega (arith, both))))
        ]
      ]

  call_entries :
      (d : Delivery) (body : TransferBody) (t : Tables) (id : String)
      → ledger_count id t.balance_ledgers + 2 * (if str_eq body.transaction_id id then 1 else 0)
        ≤ ledger_count id (call_transfer server d body t).1.balance_ledgers
          + 2 * (if str_eq body.transaction_id id && is_refused server d body t then 1 else 0)
  unfolding call_transfer
  call_entries not_sent body t id = elim (Bool-cases (str_eq body.transaction_id id)) [
    | inl e ↦ rw e (omega arith)
    | inr e ↦ rw e (omega arith)
  ]
  call_entries reply_lost body t id = answered_entries body t id
  call_entries replied body t id = answered_entries body t id

module _ (rdb : Redis) (enc : Encodings) (ttl : ℕ) where
  -- Whether a step of a run gives up its transfer for the payment: the breaker refuses, the request is not sent, or
  -- the account service does not answer 200.
  abbrev pub gives_up_at :
      String
      → (TransferBody → Tables → ℕ × Tables)
      → Env
      → Phase
      → Tables × rdb.Store × CircuitBreaker
      → Bool
  gives_up_at id server env (admitting p) (t, s, cb) = str_eq p.id id && not (admit env.now cb).0
  gives_up_at id server env (calling p) (t, s, cb) =
      str_eq p.id id && is_refused server env.delivery (transfer_body p) t
  gives_up_at id server env waiting w = false
  gives_up_at id server env (returning p res) w = false
  gives_up_at id server env (marking site p status) w = false
  gives_up_at id server env (completing p) w = false
  gives_up_at id server env (finished r) w = false

  abbrev pub gives_up :
      String
      → (TransferBody → Tables → ℕ × Tables)
      → ℕ
      → Env
      → List Worker
      → Tables × rdb.Store × CircuitBreaker
      → ℕ
  gives_up id server n env [] w = 0
  gives_up id server zero env (k ∷ ks) w = if gives_up_at id server env k.phase w then 1 else 0
  gives_up id server (suc n) env (k ∷ ks) w = gives_up id server n env ks w

  -- How many transfers for the payment are given up along a schedule.
  abbrev pub given_up :
      {E : Type 0}
      → String
      → (E → TransferBody → Tables → ℕ × Tables)
      → List (ℕ × E × Env)
      → List Worker
      → Tables × rdb.Store × CircuitBreaker
      → ℕ
  given_up id server [] ks w = 0
  given_up id server ((n, e, env) ∷ moves) ks w =
      let next = advance_at rdb enc ttl (server e) n env ks w in
      gives_up id (server e) n env ks w + given_up id server moves next.0 next.1

  module _ (server : TransferBody → Tables → ℕ × Tables) (contract : Contract server)
      (id : String) where
    advance_entries :
        (env : Env) (k_id : String) (approved : Bool) (phase : Phase) (w : World rdb enc ttl server)
        → let (phase', w') = advance rdb enc ttl server env k_id approved phase w in
          ledger_count id w.0.balance_ledgers + 2 * owes_at id phase
          ≤ ledger_count id w'.0.balance_ledgers
            + 2 * owes_at id phase'
            + 2 * (if gives_up_at id server env phase w then 1 else 0)
    unfolding advance update_payment_status
    advance_entries env k_id approved waiting (t, s, cb) = omega arith
    advance_entries env k_id approved (admitting p) (t, s, cb) =
        elim (Bool-cases (admit env.now cb).0) [
          | inl e ↦ rw e (omega arith)
          | inr e ↦ rw e (ground arith)
        ]
    advance_entries env k_id approved (calling p) (t, s, cb) =
        let entries : ledger_count id t.balance_ledgers + 2 * owes_at id (calling p)
            ≤ ledger_count id
                (call_transfer server env.delivery (transfer_body p) t).1.balance_ledgers
              + 2 * (if gives_up_at id server env (calling p) (t, s, cb) then 1 else 0) =
          call_entries server contract env.delivery (transfer_body p) t id in
        omega (arith, entries)
    advance_entries env k_id approved (returning p res) (t, s, cb) = omega arith
    advance_entries env k_id approved (marking site p status) (t, s, cb) =
        elim (Bool-cases (env.fails site)) [
          | inl e ↦ rw e (omega arith)
          | inr e ↦ rw e (omega arith)
        ]
    advance_entries env k_id approved (completing p) (t, s, cb) = omega arith
    advance_entries env k_id approved (finished r) (t, s, cb) = omega arith

    advance_at_entries :
        (n : ℕ) (env : Env) (ks : List Worker) (w : World rdb enc ttl server)
        → let (ks', w') = advance_at rdb enc ttl server n env ks w in
          ledger_count id w.0.balance_ledgers + 2 * owing id ks
          ≤ ledger_count id w'.0.balance_ledgers
            + 2 * owing id ks'
            + 2 * gives_up id server n env ks w
    unfolding advance_at
    advance_at_entries n env [] w = omega arith
    advance_at_entries zero env (k ∷ ks) w =
        omega (arith, advance_entries env k.payment_id k.approved k.phase w)
    advance_at_entries (suc n) env (k ∷ ks) w = omega (arith, advance_at_entries n env ks w)

  module _ {E : Type 0} (server : E → TransferBody → Tables → ℕ × Tables)
      (contract : (e : E) → Contract (server e)) (id : String) where
    -- Along any schedule of any runs of `ProcessFraudResult`, against an account service that keeps
    -- its contract, the ledger gets two entries for each approved run that has read the payment while
    -- it was PENDING and stands before its call at the start, whatever status other runs write in
    -- between; except for the runs that still stand before their call at the end, and those that gave
    -- up their transfer because the breaker refused, the request was not sent or the account service
    -- did not answer 200.
    pub run_moves_repeats :
        (moves : List (ℕ × E × Env)) (ks : List Worker) (w : Tables × rdb.Store × CircuitBreaker)
        → let (ks', w') = run_moves rdb enc ttl server moves (ks, w) in
          ledger_count id w.0.balance_ledgers + 2 * owing id ks
          ≤ ledger_count id w'.0.balance_ledgers
            + 2 * owing id ks'
            + 2 * given_up id server moves ks w
    unfolding run_moves
    run_moves_repeats [] ks w = omega arith
    run_moves_repeats ((n, e, env) ∷ moves) ks w =
        let next = advance_at rdb enc ttl (server e) n env ks w in
        omega (
          arith,
          advance_at_entries (server e) (contract e) id n env ks w,
          run_moves_repeats moves next.0 next.1,
        )
