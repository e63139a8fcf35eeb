-- ===== src/Redis/SortedSets/Window.antt =====
-- A sorted set as a sliding window over times: scores that are too old are removed before the rest
-- is counted, and each new time is its own member. The gateway's script and the fraud service's
-- pipeline both do this.
use q_pay_flow.Base.{
  ℕ, suc, ◌+◌, ◌-◌, ◌≤◌, ◌<◌, ◌≡◌, refl, sym, ap, ◌∙◌, String, Bool, List, [], ◌∷◌, map, arith, ltb,
  All, All-map_of, select, count_if, length, if◌then◌else◌, Bool-cases, inl, inr,
}
use q_pay_flow.Redis.SortedSets.{Entry, SortedSets, Laws, is_outside}

abbrev pub in_window : ℕ → ℕ → ℕ → Bool
in_window window t x = ltb t (x + window)

abbrev pub scores : List Entry → List ℕ
scores = map (λ e. e.score)

pub select-select :
    (window c t : ℕ) (xs : List ℕ)
    → c ≤ t
    → select (in_window window t) (select (in_window window c) xs) ≡ select (in_window window t) xs
select-select window c t [] h = refl
select-select window c t (x ∷ xs) h = ground (arith, select-select window c t xs h)

pub select-none :
    (window t last : ℕ) (xs : List ℕ)
    → All (λ x. x ≤ last) xs
    → last + window ≤ t
    → select (in_window window t) xs ≡ []
select-none window t last [] a h = refl
select-none window t last (x ∷ xs) a h = ground (arith, select-none window t last xs a.1 h)

length-select_eq {ℓ} :
    {A : Type ℓ} (p : A → Bool) (xs : List A) → length (select p xs) ≡ count_if p xs
length-select_eq p [] = refl
length-select_eq p (x ∷ xs) = ground (arith, length-select_eq p xs)

length-scores : (es : List Entry) → length (scores es) ≡ length es
length-scores [] = refl
length-scores (e ∷ es) = ap suc (length-scores es)

scores-outside :
    (window c : ℕ) (es : List Entry)
    → window ≤ c
    → scores (select (is_outside 0 (c - window)) es) ≡ select (in_window window c) (scores es)
scores-outside window c [] h = refl
scores-outside window c (e ∷ es) h = ground (arith, scores-outside window c es h)

in_window-early : (window c : ℕ) (xs : List ℕ) → c < window → select (in_window window c) xs ≡ xs
in_window-early window c [] h = refl
in_window-early window c (x ∷ xs) h = ground (arith, in_window-early window c xs h)

All-outside {κ} :
    (P : Entry → Type κ) (p : Entry → Bool) (es : List Entry) → All P es → All P (select p es)
All-outside P p [] h = tt
All-outside P p (e ∷ es) h = elim (Bool-cases (p e)) [
  | inl keep ↦ rw keep (h.0, All-outside P p es h.1)
  | inr drop ↦ rw drop (All-outside P p es h.1)
]

-- Fewer times count later on.
pub count_if-later :
    (window c t : ℕ) (xs : List ℕ)
    → c ≤ t
    → count_if (in_window window t) xs ≤ count_if (in_window window c) xs
count_if-later window c t [] h = omega arith
count_if-later window c t (x ∷ xs) h = ground (arith, count_if-later window c t xs h)

module _ (z : SortedSets) where
  -- ZREMRANGEBYSCORE from 0 to `cutoff - window`, which is an empty range below 0.
  unfoldable pub clear : String → (window cutoff : ℕ) → z.Store → z.Store
  clear k window cutoff s =
      if ltb cutoff window then s else z.zrem_range_by_score k 0 (cutoff - window) cutoff s

  -- The set knows, of the times that were added, those that still count.
  pub record Tracks (k : String) (window : ℕ) (seen : List ℕ) (last : ℕ) (s : z.Store)
      : Type 0 where
    pub same :
        (t : ℕ)
        → last ≤ t
        → select (in_window window t) seen ≡ select (in_window window t) (scores (z.entries k t s))
    pub seen_le : All (λ x. x ≤ last) seen
    pub members_le : (t : ℕ) → last ≤ t → All (λ e. e.member ≤ last) (z.entries k t s)

  module _ (laws : Laws z) (k : String) (window : ℕ) where
    scores-clear :
        (c t : ℕ) (s : z.Store)
        → c ≤ t
        → scores (z.entries k t (clear k window c s)) ≡ (
            if ltb c window
            then scores (z.entries k t s)
            else select (in_window window c) (scores (z.entries k t s)))
    unfolding clear
    scores-clear c t s h = elim (Bool-cases (ltb c window)) [
      | inl early ↦ rw early
      | inr late ↦ rw late (
          ap scores (laws.entries-zrem k 0 (c - window) c t s h)
          ∙ scores-outside window c (z.entries k t s) (ground arith))
    ]

    -- At the cutoff exactly the times in the window are left.
    pub scores-clear_now :
        (c t : ℕ) (s : z.Store)
        → c ≤ t
        → scores (z.entries k t (clear k window c s))
          ≡ select (in_window window c) (scores (z.entries k t s))
    scores-clear_now c t s h = scores-clear c t s h ∙ elim (Bool-cases (ltb c window)) [
      | inl early ↦
          rw early (sym (in_window-early window c (scores (z.entries k t s)) (ground arith)))
      | inr late ↦ rw late
    ]

    pub members-clear :
        (c t last : ℕ) (s : z.Store)
        → c ≤ t
        → All (λ e. e.member ≤ last) (z.entries k t s)
        → All (λ e. e.member ≤ last) (z.entries k t (clear k window c s))
    unfolding clear
    members-clear c t last s h a = elim (Bool-cases (ltb c window)) [
      | inl early ↦ rw early a
      | inr late ↦
          rw (late, laws.entries-zrem k 0 (c - window) c t s h)
            (All-outside (λ e. e.member ≤ last) (is_outside 0 (c - window)) (z.entries k t s) a)
    ]

    module _ {seen : List ℕ} {last : ℕ} {s : z.Store} (old : Tracks k window seen last s) where
      pub Tracks-clear : (c : ℕ) → last ≤ c → Tracks k window seen c (clear k window c s)
      Tracks-clear c h = record {
        same = λ t le.
            old.same t (omega arith)
            ∙ sym (
                ap (select (in_window window t)) (scores-clear_now c t s le)
                ∙ select-select window c t (scores (z.entries k t s)) le);
        seen_le = All-map_of seen (λ x le. omega arith) old.seen_le;
        members_le = λ t le.
            All-map_of (z.entries k t (clear k window c s)) (λ e below. omega arith)
              (members-clear c t last s le (old.members_le t (omega arith)));
      }

      -- What ZCARD counts after the removal.
      pub zcard-clear :
          (c : ℕ) → last ≤ c → z.zcard k c (clear k window c s) ≡ count_if (in_window window c) seen
      zcard-clear c h =
          laws.zcard-entries k c (clear k window c s)
          ∙ sym (length-scores (z.entries k c (clear k window c s)))
          ∙ ap length (scores-clear_now c c s (omega arith) ∙ sym (old.same c h))
          ∙ length-select_eq (in_window window c) seen
