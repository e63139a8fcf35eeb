-- ===== src/Leader/Safety.antt =====
-- No two candidates lead on live leases, and the job runs where its node leads.
use q_pay_flow.Base.{
  ℕ, ◌≤◌, ◌<◌, ◌≡◌, ◌≢◌, sym, ap, ◌∙◌, String, true, some, arith, ◌==◌, Bool-cases, inl, inr,
  some_inj,
}
use q_pay_flow.Redis.Interface.{Redis, Laws}
use q_pay_flow.Leader.{Elector, on_heartbeat, on_done}
use q_pay_flow.Leader.Cluster.{Cluster, Step, beats, stops, Reach, begun, after, lease_from, put}
use q_pay_flow.Leader.Moves.{
  heartbeat_other, done_other, heartbeat_self, heartbeat_static, done_static,
}

eqb-eq : (j i : ℕ) → (j == i) ≡ true → j ≡ i
eqb-eq j i o = ground (arith, o)

module _ (rdb : Redis) where
  module _ (laws : Laws rdb) where
    -- What holds of every cluster that can be reached.
    pub record Inv (key : String) (ids : ℕ → String) (c : Cluster rdb) : Type 0 where
      pub keys : (i : ℕ) → (c.nodes i).lock_key ≡ key
      pub names : (i : ℕ) → (c.nodes i).instance_id ≡ ids i
      pub holds :
          (i t : ℕ)
          → (c.nodes i).is_leader ≡ true
          → c.clock ≤ t
          → t < c.lease i
          → rdb.get key t c.store ≡ some (ids i)
      pub jobs : (i : ℕ) → (c.nodes i).job_running ≡ (c.nodes i).is_leader

    -- A candidate's move keeps the invariant, if it keeps its own part and leaves the store alone where
    -- another one holds the key.
    module _ {key : String} {ids : ℕ → String} (distinct : (i j : ℕ) → ids i ≡ ids j → i ≡ j)
        (c : Cluster rdb) (inv : Inv key ids c) where
      put-Inv :
          (i lease now : ℕ) (r : Elector × rdb.Store)
          → c.clock ≤ now
          → r.0.lock_key ≡ key
          → r.0.instance_id ≡ ids i
          → r.0.job_running ≡ r.0.is_leader
          → ((t : ℕ)
              → r.0.is_leader ≡ true
              → now ≤ t
              → t < lease
              → rdb.get key t r.1 ≡ some (ids i))
          → ((v : String) → rdb.get key now c.store ≡ some v → v ≢ ids i → r.1 ≡ c.store)
          → Inv key ids (put rdb c i lease now r)
      put-Inv i lease now (e, s) le on_key named job own other = record {
        keys = λ j. elim (Bool-cases (j == i)) [
          | inl own_one ↦ rw own_one on_key
          | inr o ↦ rw o (inv.keys j)
        ];
        names = λ j. elim (Bool-cases (j == i)) [
          | inl o ↦ rw o (named ∙ ap ids (sym (eqb-eq j i o)))
          | inr o ↦ rw o (inv.names j)
        ];
        holds = λ j t leads a b. elim (Bool-cases (j == i)) [
          | inl o ↦
              own t (ground (arith, o, leads)) a (ground (arith, o, b))
              ∙ ap (λ n. some (ids n)) (sym (eqb-eq j i o))
          | inr o ↦
              let was : (c.nodes j).is_leader ≡ true = ground (arith, o, leads) in
              let live : t < c.lease j = ground (arith, o, b) in
              let unchanged =
                other (ids j) (inv.holds j now was le (omega (arith, a, live)))
                  (λ same. absurd (ground (arith, o, distinct j i same))) in
              ap (rdb.get key t) unchanged ∙ inv.holds j t was (omega (arith, le, a)) live
        ];
        jobs = λ j. elim (Bool-cases (j == i)) [ inl o ↦ rw o job | inr o ↦ rw o (inv.jobs j) ];
      }

      Step-Inv : {d : Cluster rdb} → Step rdb c d → Inv key ids d
      Step-Inv (beats i now exchange le) =
          let e = c.nodes i in
          let (keeps_key, keeps_name, keeps_job) =
            heartbeat_static rdb laws exchange now e c.store in
          put-Inv i (lease_from e now) now (on_heartbeat rdb exchange now e c.store) le
            (keeps_key ∙ inv.keys i) (keeps_name ∙ inv.names i) (keeps_job (inv.jobs i))
            (λ t leads a b.
              ap (λ k. rdb.get k t (on_heartbeat rdb exchange now e c.store).1) (sym (inv.keys i))
              ∙ heartbeat_self rdb laws exchange now e c.store t leads a b
              ∙ ap some (inv.names i))
            (λ v held ne.
              heartbeat_other rdb laws exchange now e c.store v
                (ap (λ k. rdb.get k now c.store) (inv.keys i) ∙ held)
                (λ same. ne (same ∙ inv.names i)))
      Step-Inv (stops i now exchange le) =
          let e = c.nodes i in
          let (keeps_key, keeps_name, follows, idle) =
            done_static rdb laws exchange now e c.store in
          put-Inv i (c.lease i) now (on_done rdb exchange now e c.store) le (keeps_key ∙ inv.keys i)
            (keeps_name ∙ inv.names i) (idle ∙ sym follows)
            (λ t leads a b. absurd (ground (arith, leads, follows)))
            (λ v held ne.
              done_other rdb laws exchange now e c.store v
                (ap (λ k. rdb.get k now c.store) (inv.keys i) ∙ held)
                (λ same. ne (same ∙ inv.names i)))

    module _ {key : String} {ids : ℕ → String} (distinct : (i j : ℕ) → ids i ≡ ids j → i ≡ j) where
      Reach-Inv : {c : Cluster rdb} → Reach rdb key ids c → Inv key ids c
      Reach-Inv (begun fresh) = record {
        keys = fresh.keys;
        names = fresh.names;
        holds = λ i t leads a b. absurd (ground (arith, leads, fresh.followers i));
        jobs = λ i. fresh.idle i ∙ sym (fresh.followers i);
      }
      Reach-Inv (after {c = c} r step) = Step-Inv distinct c (Reach-Inv r) step

      -- Candidates with different ids compete for one key; heartbeats and ends come in any order, some
      -- are not answered, and the clock does not go back. Of two candidates that lead while neither
      -- one's lease has run out, both are the same one.
      pub Reach-one_leader :
          (c : Cluster rdb)
          → Reach rdb key ids c
          → (i j : ℕ) → (c.nodes i).is_leader ≡ true
          → c.clock < c.lease i
          → (c.nodes j).is_leader ≡ true
          → c.clock < c.lease j
          → i ≡ j
      Reach-one_leader c reached i j leads live leads' live' =
          let inv = Reach-Inv reached in
          distinct i j (
            some_inj (
              sym (inv.holds i c.clock leads (omega arith) live)
              ∙ inv.holds j c.clock leads' (omega arith) live'))

      -- In the same runs, the periodic job of a candidate runs exactly while it leads.
      pub Reach-jobs :
          (c : Cluster rdb)
          → Reach rdb key ids c
          → (i : ℕ) → (c.nodes i).job_running ≡ (c.nodes i).is_leader
      Reach-jobs c reached i = (Reach-Inv reached).jobs i
