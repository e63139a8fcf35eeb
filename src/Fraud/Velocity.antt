-- ===== src/Fraud/Velocity.antt =====
-- How many payments of an account pass the velocity check.
use q_pay_flow.Base.{
  ℕ, suc, ◌*◌, ◌≤◌, ◌<◌, ◌≡◌, refl, String, Bool, true, false, List, [], ◌∷◌, arith, ltb, count_if,
  if◌then◌else◌, Bool-cases, inl, inr,
}
use q_pay_flow.Base.Int.{ℤ, ltb_ℤ}
use q_pay_flow.Redis.Interface.{answered}
use q_pay_flow.Redis.SortedSets.{SortedSets, Laws}
use q_pay_flow.Redis.SortedSets.Window.{in_window, Tracks, count_if-later}
use q_pay_flow.Redis.SortedSets.Adding.{Tracks-add, Tracks-same, Tracks-empty, zcard-add}
use q_pay_flow.Fraud.Check.{
  Clock, Reason, max_amount, minute, velocity_limit, velocity_key, velocity_pipeline, check_payment,
  over_limit,
}

-- A payment of one account that is to be checked.
pub record Attempt : Type 0 where
  pub clock : Clock
  pub amount : ℤ

-- Each reading of the clock is later than those before, within one attempt or not earlier.
abbrev pub InOrder : ℕ → List Attempt → Type 0
InOrder last [] = Unit
InOrder last (a ∷ more) =
    (last < a.clock.now) × (a.clock.now ≤ a.clock.later) × InOrder a.clock.later more

abbrev pub last_time : ℕ → List Attempt → ℕ
last_time last [] = last
last_time last (a ∷ more) = last_time a.clock.later more

module _ (z : SortedSets) (account : String) where
  -- Payments of the account, one after another: when those that passed were checked, the last first.
  abbrev pub note : Attempt → List ℕ → (Bool × Reason) × z.Store → List ℕ × z.Store
  note a approved ((ok, reason), s) = (if ok then a.clock.now ∷ approved else approved, s)

  abbrev pub run : List Attempt → List ℕ × z.Store → List ℕ × z.Store
  run [] w = w
  run (a ∷ more) (approved, s) =
      run more (note a approved (check_payment z answered a.clock account a.amount s))

  -- A payment over the amount limit is refused, whatever Redis does, and leaves no trace.
  pub check_payment_over :
      (c : Clock) (amount : ℤ) (s : z.Store)
      → ltb_ℤ max_amount amount ≡ true
      → check_payment z answered c account amount s ≡ ((false, over_limit), s)
  unfolding check_payment
  check_payment_over c amount s over = rw over

module _ (z : SortedSets) (laws : Laws z) (account : String) where
  module _ {seen : List ℕ} {last : ℕ} {s : z.Store}
      (old : Tracks z (velocity_key account) minute seen last s) (c : Clock) (fresh : last < c.now)
      (read : c.now ≤ c.later) where
    velocity_pipeline-Tracks :
        Tracks z
          (velocity_key account)
          minute
          (c.now ∷ seen)
          c.later
          (velocity_pipeline z c (velocity_key account) s).1
    unfolding velocity_pipeline
    velocity_pipeline-Tracks =
        Tracks-add z laws (velocity_key account) minute old (2 * minute) c.now c.later fresh read
          (omega arith)

    -- The count is that of the times in the window, the new one with them.
    velocity_pipeline-count :
        (velocity_pipeline z c (velocity_key account) s).0
        ≡ suc (count_if (in_window minute c.later) seen)
    unfolding velocity_pipeline
    velocity_pipeline-count =
        zcard-add z laws (velocity_key account) minute old (2 * minute) c.now c.later fresh read
          (omega arith)

  -- The set keeps every payment that is below the amount limit; those that passed are among them.
  abbrev Within : List ℕ → List ℕ → Type 0
  Within approved seen =
      (t : ℕ) → count_if (in_window minute t) approved ≤ count_if (in_window minute t) seen

  abbrev Bounded : ℕ → List ℕ → Type 0
  Bounded last approved =
      (t : ℕ) → last ≤ t → count_if (in_window minute t) approved ≤ velocity_limit

  -- What an attempt adds to the times that passed.
  abbrev approved_after : Attempt → List ℕ → List ℕ → List ℕ
  approved_after a seen approved =
      if ltb_ℤ max_amount a.amount
      then approved
      else if ltb velocity_limit (suc (count_if (in_window minute a.clock.later) seen))
      then approved
      else a.clock.now ∷ approved

  abbrev seen_after : Attempt → List ℕ → List ℕ
  seen_after a seen = if ltb_ℤ max_amount a.amount then seen else a.clock.now ∷ seen

  approved_after-Within :
      (a : Attempt) (seen approved : List ℕ)
      → Within approved seen
      → Within (approved_after a seen approved) (seen_after a seen)
  approved_after-Within a seen approved w t = ground (arith, w t)

  approved_after-Bounded :
      (a : Attempt) (last : ℕ) (seen approved : List ℕ)
      → last < a.clock.now
      → a.clock.now ≤ a.clock.later
      → Within approved seen
      → Bounded last approved
      → Bounded a.clock.later (approved_after a seen approved)
  approved_after-Bounded a last seen approved h read w b t le =
      ground (arith, b t, w a.clock.later, count_if-later minute a.clock.later t approved le)

  module _ {seen : List ℕ} {last : ℕ} {s : z.Store}
      (old : Tracks z (velocity_key account) minute seen last s) (a : Attempt)
      (fresh : last < a.clock.now) (read : a.clock.now ≤ a.clock.later) where
    note-after :
        (approved : List ℕ)
        → (note z account a approved (check_payment z answered a.clock account a.amount s)).0
          ≡ approved_after a seen approved
    unfolding check_payment
    note-after approved = rw (velocity_pipeline-count old a.clock fresh read) (ground arith)

    note-Tracks :
        (approved : List ℕ)
        → Tracks z
            (velocity_key account)
            minute
            (seen_after a seen)
            a.clock.later
            (note z account a approved (check_payment z answered a.clock account a.amount s)).1
    unfolding check_payment
    note-Tracks approved = elim (Bool-cases (ltb_ℤ max_amount a.amount)) [
      | inl over ↦
          rw over (
            Tracks-same z (velocity_key account) minute a.clock.later (omega arith) (λ t. refl) old)
      | inr fits ↦ rw fits (velocity_pipeline-Tracks old a.clock fresh read)
    ]

  run-Bounded :
      (attempts : List Attempt) {seen : List ℕ} {last : ℕ} (w : List ℕ × z.Store)
      → Tracks z (velocity_key account) minute seen last w.1
      → InOrder last attempts
      → Within w.0 seen
      → Bounded last w.0
      → Bounded (last_time last attempts) (run z account attempts w).0
  run-Bounded [] w old order within b = b
  run-Bounded (a ∷ more) {seen} {last} (approved, s) old (h, read, order) within b =
      run-Bounded more
        (note z account a approved (check_payment z answered a.clock account a.amount s))
        (note-Tracks old a h read approved) order
        (rw (note-after old a h read approved) (approved_after-Within a seen approved within))
        (rw (note-after old a h read approved)
          (approved_after-Bounded a last seen approved h read within b))

  -- Of the payments of one account, checked one after another at different ticks, from an empty
  -- set and while Redis answers, at most ten are approved within any minute that ends when or
  -- after the last one is checked.
  pub approved_bounded :
      (attempts : List Attempt) (s : z.Store) (t : ℕ)
      → ((t : ℕ) → z.entries (velocity_key account) t s ≡ [])
      → InOrder 0 attempts
      → last_time 0 attempts ≤ t
      → count_if (in_window minute t) (run z account attempts ([], s)).0 ≤ velocity_limit
  approved_bounded attempts s t empty order le =
      run-Bounded attempts ([], s) (Tracks-empty z (velocity_key account) minute s empty) order
        (λ t'. omega arith) (λ t' h. omega arith) t le
