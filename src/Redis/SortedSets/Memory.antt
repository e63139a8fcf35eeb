-- ===== src/Redis/SortedSets/Memory.antt =====
-- Sorted sets in memory, which show that the laws can be met: each key has its entries and,
-- if it has one, the time at which it is gone.
use q_pay_flow.Base.{
  ℕ, ◌+◌, ◌≡◌, ◌≢◌, refl, String, Bool, true, false, Option, none, some, List, [], ◌∷◌, arith,
  str_eq, ltb, ◌==◌, All, select, length, if◌then◌else◌, str_eq_refl, str_eq-false, Bool-cases, inl,
  inr,
}
use q_pay_flow.Redis.SortedSets.{Entry, SortedSets, Laws, is_outside}

abbrev pub Sets : Type 0
Sets = String → List Entry × Option ℕ

abbrev live : ℕ → List Entry × Option ℕ → List Entry
live now (es, none) = es
live now (es, some end) = if ltb now end then es else []

abbrev write : String → List Entry × Option ℕ → Sets → Sets
write k v s j = if str_eq j k then v else s j

-- The score of a member that is there changes.
abbrev put : ℕ → ℕ → List Entry → List Entry
put score member [] = record { score = score; member = member } ∷ []
put score member (e ∷ es) =
    let rest = put score member es in
    if e.member == member then record e { score = score } ∷ es else e ∷ rest

abbrev is_member : ℕ → List Entry → Bool
is_member member [] = false
is_member member (e ∷ es) =
    let rest = is_member member es in if e.member == member then true else rest

abbrev add : ℕ → ℕ → List Entry → List Entry
add score member es =
    if is_member member es
    then put score member es
    else record { score = score; member = member } ∷ es

-- A set that holds nothing is no key, and has no time to live.
abbrev lease : List Entry → Option ℕ → Option ℕ
lease [] end = none
lease (e ∷ es) end = end

abbrev pub sets : SortedSets
sets = record {
  Store = Sets;
  entries = λ k now s. live now (s k);
  zrem_range_by_score = λ k lo hi now s. write k (select (is_outside lo hi) (s k).0, (s k).1) s;
  zadd = λ k score member now s.
      write k (add score member (live now (s k)), lease (live now (s k)) (s k).1) s;
  zcard = λ k now s. length (live now (s k));
  expire = λ k ttl now s. write k (live now (s k), some (now + ttl)) s;
}

is_member-new :
    (member : ℕ) (es : List Entry) → All (λ e. e.member ≢ member) es → is_member member es ≡ false
is_member-new member [] h = refl
is_member-new member (e ∷ es) h = ground (arith, is_member-new member es)

live-zrem :
    (lo hi later : ℕ) (v : List Entry × Option ℕ)
    → live later (select (is_outside lo hi) v.0, v.1) ≡ select (is_outside lo hi) (live later v)
live-zrem lo hi later (es, none) = refl
live-zrem lo hi later (es, some end) = elim (Bool-cases (ltb later end)) [
  | inl e ↦ rw e
  | inr e ↦ rw e
]

live-zadd :
    (score member now : ℕ) (v : List Entry × Option ℕ)
    → All (λ e. e.member ≢ member) (live now v)
    → live now (add score member (live now v), lease (live now v) v.1)
      ≡ record { score = score; member = member } ∷ live now v
live-zadd score member now ([], none) h = refl
live-zadd score member now (e ∷ es, none) h = rw (is_member-new member (e ∷ es) h)
live-zadd score member now ([], some end) h = elim (Bool-cases (ltb now end)) [
  | inl e ↦ rw e
  | inr e ↦ rw e
]
live-zadd score member now (x ∷ es, some end) h = elim (Bool-cases (ltb now end)) [
  | inl e ↦ let new = is_member-new member (x ∷ es) (rw e at h) in rw (e, new) (rw e)
  | inr e ↦ rw e
]

pub sets-Laws : Laws sets
sets-Laws = record {
  entries-zrem = λ k lo hi now later s h. rw (str_eq_refl k) (live-zrem lo hi later (s k));
  entries-zadd =
      λ k score member now s new. rw (str_eq_refl k) (live-zadd score member now (s k) new);
  zcard-entries = λ k now s. refl;
  entries-expire_live = λ k ttl now later s a b. rw (str_eq_refl k) (ground arith);
  entries-expire_gone = λ k ttl now later s h. rw (str_eq_refl k) (ground arith);
  entries-zrem_ne = λ j k lo hi now later s h. rw (str_eq-false j k h);
  entries-zadd_ne = λ j k score member now later s h. rw (str_eq-false j k h);
  entries-expire_ne = λ j k ttl now later s h. rw (str_eq-false j k h);
}
