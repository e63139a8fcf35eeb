-- ===== src/System/Overlaps.antt =====
-- What one step of a run of `ProcessFraudResult` keeps, whatever other runs stand at.
use q_pay_flow.Base.{
  ℕ, zero, suc, ◌≤◌, ◌≡◌, refl, String, Bool, true, false, Option, none, some, Result, ok, err,
  List, [], ◌∷◌, arith, inl, inr, Bool-cases, All, All-map_of, Appended, Appended-refl,
  Appended-count,
}
use q_pay_flow.Base.Table.{find_by-key}
use q_pay_flow.Redis.Interface.{Redis}
use q_pay_flow.Resilience.Breaker.{admit}
use q_pay_flow.Account.Model.{BalanceLedger}
use q_pay_flow.Payment.Model.{Payment, success}
use q_pay_flow.Payment.Repository.{RepositoryError, get_payment_by_id, update_payment_status}
use q_pay_flow.Payment.Create.{Encodings}
use q_pay_flow.Payment.Process.{
  TransferBody, transfer_body, CallError, Delivery, not_sent, reply_lost, replied, call_transfer,
  Env, final_status, is_pending_status, World,
}
use q_pay_flow.Payment.Overlap.{
  Phase, waiting, admitting, calling, returning, marking, completing, finished, Worker, after_read,
  advance, advance_at,
}
use q_pay_flow.Settlement.Reconciliation.{ledger_count, refers_to}
use q_pay_flow.System.Contract.{Contract}
use q_pay_flow.System.Books.{Good, server-Good, Marked-Good}
use q_pay_flow.Schema.{Tables}

-- Two ledger entries of a payment.
abbrev pub Backed : String → List BalanceLedger → Type 0
Backed id es = 2 ≤ ledger_count id es

-- What a run that stands at a phase relies on of the ledger.
abbrev pub Ready : String → List BalanceLedger → Phase → Type 0
Ready id es (admitting p) = p.id ≡ id
Ready id es (calling p) = p.id ≡ id
Ready id es (returning p res) = res ≡ ok tt → Backed id es
Ready id es (marking site p status) = status ≡ success → Backed id es
Ready id es _ = Unit

abbrev pub IsReady : List BalanceLedger → Worker → Type 0
IsReady es k = Ready k.payment_id es k.phase

Backed-grows :
    (id : String) {es es' : List BalanceLedger} → Appended es es' → Backed id es → Backed id es'
Backed-grows id a b = omega (arith, b, Appended-count (refers_to id) a)

pub Ready-grows :
    (id : String) {es es' : List BalanceLedger} (phase : Phase)
    → Appended es es'
    → Ready id es phase
    → Ready id es' phase
Ready-grows id waiting a h = tt
Ready-grows id (admitting p) a h = h
Ready-grows id (calling p) a h = h
Ready-grows id (returning p res) a h = λ e. Backed-grows id a (h e)
Ready-grows id (marking site p status) a h = λ e. Backed-grows id a (h e)
Ready-grows id (completing p) a h = tt
Ready-grows id (finished r) a h = tt

after_read-Ready :
    (id : String) (approved : Bool) (es : List BalanceLedger)
    (m : Result RepositoryError (Option Payment))
    → ((p : Payment) → m ≡ ok (some p) → p.id ≡ id)
    → Ready id es (after_read id approved m)
unfolding after_read
after_read-Ready id approved es (err e) h = tt
after_read-Ready id approved es (ok none) h = tt
after_read-Ready id true es (ok (some p)) h = elim (Bool-cases (is_pending_status p.status)) [
  | inl e ↦ rw e (h p refl)
  | inr e ↦ rw e tt
]
after_read-Ready id false es (ok (some p)) h = elim (Bool-cases (is_pending_status p.status)) [
  | inl e ↦ rw e (λ s. absurd (cc))
  | inr e ↦ rw e tt
]

-- What a step of a run leaves: good tables, a ledger with more at its end, and the run ready.
pub record Stepped (id : String) (t t' : Tables) (phase' : Phase) : Type 0 where
  pub good : Good t'
  pub ledger : Appended t.balance_ledgers t'.balance_ledgers
  pub ready : Ready id t'.balance_ledgers phase'

-- The same of the run at a position; the others stay ready.
pub record AllStepped (t t' : Tables) (ks' : List Worker) : Type 0 where
  pub good : Good t'
  pub ledger : Appended t.balance_ledgers t'.balance_ledgers
  pub ready : All (IsReady t'.balance_ledgers) ks'

module _ (rdb : Redis) (enc : Encodings) (ttl : ℕ) (server : TransferBody → Tables → ℕ × Tables)
    (contract : Contract server) where
  -- A step that leaves the tables.
  stayed :
      {id : String} {t : Tables} {phase' : Phase}
      → Good t
      → Ready id t.balance_ledgers phase'
      → Stepped id t t phase'
  stayed {id} {t} g r = record { good = g; ledger = Appended-refl t.balance_ledgers; ready = r }

  call-Stepped :
      (d : Delivery) (p : Payment) (id : String) (t : Tables)
      → p.id ≡ id
      → Good t
      → let (res, t') = call_transfer server d (transfer_body p) t in
        Stepped id t t' (returning p res)
  unfolding call_transfer
  call-Stepped not_sent p id t same g = stayed g (λ e. absurd (cc))
  call-Stepped reply_lost p id t same g = record {
    good = server-Good rdb enc ttl server contract (transfer_body p) t g;
    ledger = contract.only_appends (transfer_body p) t;
    ready = λ e. absurd (cc);
  }
  call-Stepped replied p id t same g = record {
    good = server-Good rdb enc ttl server contract (transfer_body p) t g;
    ledger = contract.only_appends (transfer_body p) t;
    ready = λ e.
        let new = contract.both_entries (transfer_body p) t (ground arith) in
        rw (← same) (omega (arith, new));
  }

  final_status-success :
      (res : Result CallError (Unit {0})) → final_status res ≡ success → res ≡ ok tt
  final_status-success (ok u) e = refl
  final_status-success (err x) e = absurd (cc)

  advance-Stepped :
      (env : Env) (id : String) (approved : Bool) (phase : Phase) (w : World rdb enc ttl server)
      → Ready id w.0.balance_ledgers phase
      → Good w.0
      → let (phase', w') = advance rdb enc ttl server env id approved phase w in
        Stepped id w.0 w'.0 phase'
  unfolding advance get_payment_by_id update_payment_status
  advance-Stepped env id approved waiting (t, s, cb) h g = stayed g (
      after_read-Ready id approved t.balance_ledgers _
        (λ p found. find_by-key (λ (x : Payment). x.id) id t.payments {a = p} (ground arith)))
  advance-Stepped env id approved (admitting p) (t, s, cb) h g =
      elim (Bool-cases (admit env.now cb).0) [
        | inl e ↦ rw e (stayed g h)
        | inr e ↦ rw e (stayed g (λ x. absurd (cc)))
      ]
  advance-Stepped env id approved (calling p) (t, s, cb) h g = call-Stepped env.delivery p id t h g
  advance-Stepped env id approved (returning p res) (t, s, cb) h g =
      stayed g (λ e. h (final_status-success res e))
  advance-Stepped env id approved (marking site p status) (t, s, cb) h g =
      elim (Bool-cases (env.fails site)) [
        | inl e ↦ rw e (stayed g tt)
        | inr e ↦ rw e (record {
          good = Marked-Good rdb enc ttl server contract env.later id status t _ (inr refl) g h;
          ledger = Appended-refl t.balance_ledgers;
          ready = tt;
        })
      ]
  advance-Stepped env id approved (completing p) (t, s, cb) h g = stayed g tt
  advance-Stepped env id approved (finished r) (t, s, cb) h g = stayed g tt

  pub advance_at-AllStepped :
      (n : ℕ) (env : Env) (ks : List Worker) (w : World rdb enc ttl server)
      → All (IsReady w.0.balance_ledgers) ks
      → Good w.0
      → let (ks', w') = advance_at rdb enc ttl server n env ks w in AllStepped w.0 w'.0 ks'
  unfolding advance_at
  advance_at-AllStepped n env [] w h g = record {
    good = g;
    ledger = Appended-refl w.0.balance_ledgers;
    ready = tt;
  }
  advance_at-AllStepped zero env (k ∷ ks) w h g =
      let stepped = advance-Stepped env k.payment_id k.approved k.phase w h.0 g in
      record {
        good = stepped.good;
        ledger = stepped.ledger;
        ready = (
          stepped.ready,
          All-map_of ks (λ j. Ready-grows j.payment_id j.phase stepped.ledger) h.1,
        );
      }
  advance_at-AllStepped (suc n) env (k ∷ ks) w h g =
      let stepped = advance_at-AllStepped n env ks w h.1 g in
      record {
        good = stepped.good;
        ledger = stepped.ledger;
        ready = (Ready-grows k.payment_id k.phase stepped.ledger h.0, stepped.ready);
      }
