-- ===== src/Redis/SortedSets/Adding.antt =====
-- A sliding window to which a time is added, and the windows of the other keys.
use q_pay_flow.Base.{
  ℕ, suc, length, count_if, ◌+◌, ◌≤◌, ◌<◌, ◌≡◌, ◌≢◌, sym, ap, ◌∙◌, String, Bool, List, [], ◌∷◌,
  arith, ltb, All, All-map_of, select, Bool-cases, inl, inr,
}
use q_pay_flow.Redis.SortedSets.{SortedSets, Laws}
use q_pay_flow.Redis.SortedSets.Window.{
  in_window, scores, select-select, select-none, clear, Tracks, scores-clear_now, members-clear,
  zcard-clear,
}

-- One more time at the head of what is compared.
select-cons :
    (p : ℕ → Bool) (x : ℕ) (xs ys : List ℕ)
    → select p xs ≡ select p ys
    → select p (x ∷ xs) ≡ select p (x ∷ ys)
select-cons p x xs ys h = ground arith

module _ (z : SortedSets) (laws : Laws z) (k : String) (window : ℕ) where
  -- ZADD of a time as its own member, and EXPIRE.
  abbrev pub add : (ttl now cutoff : ℕ) → z.Store → z.Store
  add ttl now cutoff s = z.expire k ttl cutoff (z.zadd k now now cutoff s)

  module _ {seen : List ℕ} {last : ℕ} {s : z.Store} (old : Tracks z k window seen last s)
      (ttl now c : ℕ) (fresh : last < now) (read : now ≤ c) (long : window ≤ ttl) where
    cleared : z.Store
    cleared = clear z k window c s

    entries-added :
        (t : ℕ)
        → c ≤ t
        → t < c + ttl
        → z.entries k t (add ttl now c cleared)
          ≡ record { score = now; member = now } ∷ z.entries k c cleared
    unfolding cleared
    entries-added t a b =
        laws.entries-expire_live k ttl c t (z.zadd k now now c cleared) a b
        ∙ laws.entries-zadd k now now c cleared (
            All-map_of (z.entries k c cleared) (λ e le eq. absurd (omega (arith, le, eq)))
              (members-clear z laws k window c c last s (omega arith)
                (old.members_le c (omega arith))))

    -- What ZCARD counts once the time is added.
    pub zcard-add :
        z.zcard k c (z.zadd k now now c (clear z k window c s))
        ≡ suc (count_if (in_window window c) seen)
    zcard-add =
        laws.zcard-entries k c _
        ∙ ap length (
            laws.entries-zadd k now now c (clear z k window c s) (
              All-map_of (z.entries k c (clear z k window c s))
                (λ e le eq. absurd (omega (arith, le, eq)))
                (members-clear z laws k window c c last s (omega arith)
                  (old.members_le c (omega arith)))))
        ∙ ap suc (
            sym (laws.zcard-entries k c (clear z k window c s))
            ∙ zcard-clear z laws k window old c (omega arith))

    seen_below : All (λ x. x ≤ c) (now ∷ seen)
    seen_below = (read, All-map_of seen (λ x le. omega (arith, le)) old.seen_le)

    -- The times that count, before the new one.
    same_cleared :
        (t : ℕ)
        → c ≤ t
        → select (in_window window t) seen
          ≡ select (in_window window t) (scores (z.entries k c cleared))
    unfolding cleared
    same_cleared t a =
        sym (select-select window c t seen a)
        ∙ ap (select (in_window window t))
            (old.same c (omega arith) ∙ sym (scores-clear_now z laws k window c c s (omega arith)))

    pub Tracks-add : Tracks z k window (now ∷ seen) c (add ttl now c (clear z k window c s))
    unfolding cleared
    Tracks-add = record {
      same = λ t a. elim (Bool-cases (ltb t (c + ttl))) [
        | inl live ↦ rw (entries-added t a (ground arith)) (
            select-cons (in_window window t) now seen (scores (z.entries k c cleared))
              (same_cleared t a))
        | inr gone ↦
            rw (laws.entries-expire_gone k ttl c t (z.zadd k now now c cleared) (ground arith))
              (select-none window t c (now ∷ seen) seen_below (ground arith))
      ];
      seen_le = seen_below;
      members_le = λ t a. elim (Bool-cases (ltb t (c + ttl))) [
        | inl live ↦ rw (entries-added t a (ground arith)) (
          read,
          All-map_of (z.entries k c cleared) (λ e le. omega (arith, le))
              (members-clear z laws k window c c last s (omega arith)
                (old.members_le c (omega arith))),
        )
        | inr gone ↦
            rw (laws.entries-expire_gone k ttl c t (z.zadd k now now c cleared) (ground arith)) tt
      ];
    }

-- What is done to another key's set.
module _ (z : SortedSets) (laws : Laws z) (j k : String) (ne : j ≢ k) where
  pub entries-clear_ne :
      (window c t : ℕ) (s : z.Store) → z.entries j t (clear z k window c s) ≡ z.entries j t s
  unfolding clear
  entries-clear_ne window c t s = elim (Bool-cases (ltb c window)) [
    | inl early ↦ rw early
    | inr late ↦ rw (late, laws.entries-zrem_ne j k 0 _ c t s ne)
  ]

  pub entries-add_ne :
      (window ttl now c t : ℕ) (s : z.Store)
      → z.entries j t (z.expire k ttl c (z.zadd k now now c s)) ≡ z.entries j t s
  entries-add_ne window ttl now c t s =
      laws.entries-expire_ne j k ttl c t _ ne ∙ laws.entries-zadd_ne j k now now c t s ne

module _ (z : SortedSets) (j : String) (window : ℕ) where
  -- Only the entries matter, and time may pass.
  pub Tracks-same :
      {seen : List ℕ} {last : ℕ} {s s' : z.Store} (c : ℕ)
      → last ≤ c
      → ((t : ℕ) → z.entries j t s' ≡ z.entries j t s)
      → Tracks z j window seen last s
      → Tracks z j window seen c s'
  Tracks-same {seen} {last} {s} {s'} c h e old = record {
    same = λ t a.
        old.same t (omega arith) ∙ sym (ap (λ es. select (in_window window t) (scores es)) (e t));
    seen_le = All-map_of seen (λ x le. omega (arith, le)) old.seen_le;
    members_le = λ t a.
        rw (e t) (
          All-map_of (z.entries j t s) (λ m le. omega (arith, le))
            (old.members_le t (omega arith)));
  }

  pub Tracks-empty : (s : z.Store) → ((t : ℕ) → z.entries j t s ≡ []) → Tracks z j window [] 0 s
  Tracks-empty s e = record {
    same = λ t a. rw (e t);
    seen_le = tt;
    members_le = λ t a. rw (e t) tt;
  }
