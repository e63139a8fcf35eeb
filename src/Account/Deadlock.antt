-- ===== src/Account/Deadlock.antt =====
-- Ordered row locks: of transfers that wait for each other, the one that waits for the greatest row
-- waits for one that can go on.
use q_pay_flow.Base.{
  String, Bool, true, false, ◌≡◌, ◌≢◌, refl, List, [], ◌∷◌, All, All-map_of, inl, inr, ◌⊎◌,
  Bool-cases, eq_iff, arith,
}
use q_pay_flow.Base.Order.{str_gt, gt_trans, gt_irrefl, gt_total}
use q_pay_flow.Account.Service.{lock_order}
use q_pay_flow.Account.RowLocks.{
  LockStage, asks_first, asks_second, holds_both, ended, Locker, transfer_locker, holds_at, holds,
  is_held, can_move_at, can_move, IsOrdered, lockers, any_moves,
}

lock_order-IsOrdered :
    (from_acc_id to_acc_id : String) (stage : LockStage)
    → from_acc_id ≢ to_acc_id
    → IsOrdered (transfer_locker from_acc_id to_acc_id stage)
unfolding lock_order
lock_order-IsOrdered from_acc_id to_acc_id stage ne =
    elim (Bool-cases (str_gt from_acc_id to_acc_id)) [
      | inl e ↦ rw e e
      | inr e ↦ rw e (gt_total from_acc_id to_acc_id ne e)
    ]

abbrev waits_at : LockStage → Bool
waits_at asks_second = true
waits_at asks_first = false
waits_at holds_both = false
waits_at ended = false

-- One that waits for its second row, and no other waits for a greater one.
record Furthest (ls others : List Locker) : Type 0 where
  locker : Locker
  waits : waits_at locker.stage ≡ true
  stuck : can_move ls locker ≡ false
  most : All (λ x. waits_at x.stage ≡ true → str_gt x.second locker.second ≡ false) others

module _ (ls : List Locker) where
  abbrev IsStuck : Locker → Type 0
  IsStuck l = can_move ls l ≡ false

  All-greater :
      (x : Locker) (m : String) (others : List Locker)
      → str_gt x.second m ≡ true
      → All (λ y. waits_at y.stage ≡ true → str_gt y.second m ≡ false) others
      → All (λ y. waits_at y.stage ≡ true → str_gt y.second x.second ≡ false) others
  All-greater x m [] h a = tt
  All-greater x m (y ∷ others) h a = (
    λ w. elim (Bool-cases (str_gt y.second x.second)) [
      | inl e ↦ absurd (ground (arith, gt_trans y.second x.second m e h, a.0 w))
      | inr e ↦ e
    ],
    All-greater x m others h a.1,
  )

  furthest :
      (others : List Locker)
      → All IsStuck others
      → All (λ x. waits_at x.stage ≡ false) others ⊎ Furthest ls others
  furthest [] s = inl tt
  furthest (x ∷ others) s = elim (Bool-cases (waits_at x.stage)) [
    | inl w ↦ elim (furthest others s.1) [
      | inl none_waits ↦ inr (record {
        locker = x;
        waits = w;
        stuck = s.0;
        most = (λ v. gt_irrefl x.second, All-map_of others (λ y e f. cc) none_waits);
      })
      | inr m ↦ elim (Bool-cases (str_gt x.second m.locker.second)) [
        | inl e ↦ inr (record {
          locker = x;
          waits = w;
          stuck = s.0;
          most = (λ v. gt_irrefl x.second, All-greater x m.locker.second others e m.most);
        })
        | inr e ↦ inr (record {
          locker = m.locker;
          waits = m.waits;
          stuck = m.stuck;
          most = (λ v. e, m.most);
        })
      ]
    ]
    | inr w ↦ elim (furthest others s.1) [
      | inl none_waits ↦ inl (w, none_waits)
      | inr m ↦ inr (record {
        locker = m.locker;
        waits = m.waits;
        stuck = m.stuck;
        most = (λ v. absurd (cc), m.most);
      })
    ]
  ]

  -- The one that holds a row.
  holder :
      (k : String) (P : Locker → Type 0) (others : List Locker)
      → is_held others k ≡ true
      → All P others
      → (h : Locker) × (holds h k ≡ true) × P h
  holder k P [] e a = absurd (cc)
  holder k P (x ∷ others) e a = elim (Bool-cases (holds x k)) [
    | inl h ↦ (x, h, a.0)
    | inr h ↦ holder k P others (ground (arith, e, h)) a.1
  ]

  All-both :
      (P Q : Locker → Type 0) (others : List Locker)
      → All P others
      → All Q others
      → All (λ x. P x × Q x) others
  All-both P Q [] p q = tt
  All-both P Q (x ∷ others) p q = ((p.0, q.0), All-both P Q others p.1 q.1)

  -- The holder of the row that the furthest one waits for would wait further on.
  blocked :
      (st : LockStage) (h : Locker) (k : String)
      → holds_at st h k ≡ true
      → can_move_at st ls h ≡ false
      → IsOrdered h
      → (waits_at st ≡ true → str_gt h.second k ≡ false)
      → ⊥
  blocked asks_first h k held s o m = absurd (cc)
  blocked asks_second h k held s o m =
      let same : h.first ≡ k = (eq_iff h.first k).0 held in
      let below : str_gt h.second h.first ≡ false = rw same (m refl) in
      absurd (ground (arith, o, below))
  blocked holds_both h k held s o m = absurd (cc)
  blocked ended h k held s o m = absurd (cc)

  waits-held :
      (st : LockStage) (l : Locker)
      → waits_at st ≡ true
      → can_move_at st ls l ≡ false
      → is_held ls l.second ≡ true
  waits-held asks_first l w s = absurd (cc)
  waits-held asks_second l w s = ground arith
  waits-held holds_both l w s = absurd (cc)
  waits-held ended l w s = absurd (cc)

  none_waits : All IsStuck ls → All IsOrdered ls → All (λ x. waits_at x.stage ≡ false) ls
  none_waits s o = elim (furthest ls s) [
    | inl done ↦ done
    | inr m ↦
        let k = m.locker.second in
        let (h, held, ((stuck, ordered), below)) =
          holder k _ ls (waits-held m.locker.stage m.locker m.waits m.stuck)
            (All-both _ _ ls (All-both _ _ ls s o) m.most) in
        absurd (blocked h.stage h k held stuck ordered below)
  ]

  holds_nothing :
      (st : LockStage) (l : Locker) (k : String)
      → waits_at st ≡ false
      → can_move_at st ls l ≡ false
      → holds_at st l k ≡ false
  holds_nothing asks_first l k w s = refl
  holds_nothing asks_second l k w s = cc
  holds_nothing holds_both l k w s = cc
  holds_nothing ended l k w s = refl

  none_held :
      (k : String) (others : List Locker)
      → All IsStuck others
      → All (λ x. waits_at x.stage ≡ false) others
      → is_held others k ≡ false
  none_held k [] s w = refl
  none_held k (x ∷ others) s w = rw (holds_nothing x.stage x k w.0 s.0) (none_held k others s.1 w.1)

  must_end :
      (st : LockStage) (l : Locker)
      → ((k : String) → is_held ls k ≡ false)
      → waits_at st ≡ false
      → can_move_at st ls l ≡ false
      → st ≡ ended
  must_end asks_first l free w s = absurd (ground (arith, free l.first, s))
  must_end asks_second l free w s = cc
  must_end holds_both l free w s = cc
  must_end ended l free w s = refl

  stuck-ended : All IsStuck ls → All IsOrdered ls → All (λ l. l.stage ≡ ended) ls
  stuck-ended s o =
      let w = none_waits s o in
      All-map_of ls (λ l p. must_end l.stage l (λ k. none_held k ls s w) p.0 p.1)
        (All-both _ _ ls w s)

lockers-IsOrdered :
    (runs : List ((String × String) × LockStage))
    → All (λ run. run.0.0 ≢ run.0.1) runs
    → All IsOrdered (lockers runs)
lockers-IsOrdered [] ne = tt
lockers-IsOrdered ((ids, stage) ∷ runs) ne =
    (lock_order-IsOrdered ids.0 ids.1 stage ne.0, lockers-IsOrdered runs ne.1)

none_moves :
    (ls others : List Locker)
    → any_moves ls others ≡ false
    → All (λ l. can_move ls l ≡ false) others
none_moves ls [] e = tt
none_moves ls (l ∷ others) e = (ground arith, none_moves ls others (ground arith))

-- Transfers that lock their rows in the order of `lock_order`, each between two different accounts,
-- never deadlock: however many there are and however far they have got, one of them can get its
-- next lock or end, or all have ended.
pub no_deadlock :
    (runs : List ((String × String) × LockStage))
    → All (λ run. run.0.0 ≢ run.0.1) runs
    → (any_moves (lockers runs) (lockers runs) ≡ true) ⊎ All (λ l. l.stage ≡ ended) (lockers runs)
no_deadlock runs ne = elim (Bool-cases (any_moves (lockers runs) (lockers runs))) [
  | inl e ↦ inl e
  | inr e ↦ inr (
      stuck-ended (lockers runs) (none_moves (lockers runs) (lockers runs) e)
        (lockers-IsOrdered runs ne))
]
