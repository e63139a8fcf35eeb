-- ===== src/Http/Matching.antt =====
-- The handler that is found belongs to a pattern for the path, and there is none only if no pattern is.
use q_pay_flow.Base.{
  String, Bool, true, false, ◌≡◌, refl, Option, none, some, List, [], ◌∷◌, str_eq, Bool-cases,
  Option-cases, not, ◌&&◌, ◌||◌, inl, inr, ◌⊎◌, arith,
}
use q_pay_flow.Http.{
  Segment, literal, wildcard, rest, or_else, matches, after_literal, after_wildcard, is_end,
  is_rest, RouteTable, advance_all, first_where, lookup,
}

module _ {H : Type 0} (target : H) where
  -- Every pattern for the path has the target.
  abbrev pub Only : List String → RouteTable H → Type 0
  Only path [] = Unit
  Only path ((segs, h) ∷ ps) = (matches segs path ≡ true → h ≡ target) × Only path ps

  -- Nothing, or the target.
  abbrev pub AtMost : Option H → Type 0
  AtMost found = (found ≡ none) ⊎ (found ≡ some target)

  pub or_else-AtMost : (a b : Option H) → AtMost a → AtMost b → AtMost (or_else a b)
  or_else-AtMost a b (inl e) h = rw e h
  or_else-AtMost a b (inr e) h = rw e (inr refl)

  first_where-AtMost :
      (test : List Segment → Bool) (path : List String) (ps : RouteTable H)
      → ((segs : List Segment) → test segs ≡ true → matches segs path ≡ true)
      → Only path ps
      → AtMost (first_where test ps)
  first_where-AtMost test path [] fits o = inl refl
  first_where-AtMost test path ((segs, k) ∷ ps) fits o = elim (Bool-cases (test segs)) [
    | inl t ↦ rw (t, o.0 (fits segs t)) (inr refl)
    | inr f ↦ rw f (first_where-AtMost test path ps fits o.1)
  ]

  is_end-matches : (segs : List Segment) → is_end segs ≡ true → matches segs [] ≡ true
  is_end-matches [] e = refl
  is_end-matches (seg ∷ segs) e = cc

  is_rest-matches :
      (s : String) (path : List String) (segs : List Segment)
      → is_rest segs ≡ true
      → matches segs (s ∷ path) ≡ true
  is_rest-matches s path [] e = cc
  is_rest-matches s path (literal l ∷ segs) e = cc
  is_rest-matches s path (wildcard ∷ segs) e = cc
  is_rest-matches s path (rest ∷ segs) e = refl

  advance_all-Only :
      (f : List Segment → Option (List Segment)) (s : String) (path : List String)
      (ps : RouteTable H)
      → ((segs segs' : List Segment)
          → f segs ≡ some segs'
          → matches segs' path ≡ true
          → matches segs (s ∷ path) ≡ true)
      → Only (s ∷ path) ps
      → Only path (advance_all f ps)
  advance_all-Only f s path [] back o = tt
  advance_all-Only f s path ((segs, k) ∷ ps) back o =
      let more = advance_all-Only f s path ps back o.1 in
      elim (Option-cases (f segs)) [
        | inl e ↦ rw e more
        | inr (segs', e) ↦ rw e ((λ m. o.0 (back segs segs' e m)), more)
      ]

  after_literal-matches :
      (s : String) (path : List String) (segs segs' : List Segment)
      → after_literal s segs ≡ some segs'
      → matches segs' path ≡ true
      → matches segs (s ∷ path) ≡ true
  after_literal-matches s path [] segs' e m = cc
  after_literal-matches s path (literal l ∷ segs) segs' e m = ground arith
  after_literal-matches s path (wildcard ∷ segs) segs' e m = cc
  after_literal-matches s path (rest ∷ segs) segs' e m = cc

  after_wildcard-matches :
      (s : String) (path : List String)
      → str_eq s "" ≡ false
      → (segs segs' : List Segment) → after_wildcard segs ≡ some segs'
      → matches segs' path ≡ true
      → matches segs (s ∷ path) ≡ true
  after_wildcard-matches s path ne [] segs' e m = cc
  after_wildcard-matches s path ne (literal l ∷ segs) segs' e m = cc
  after_wildcard-matches s path ne (wildcard ∷ segs) segs' e m = ground arith
  after_wildcard-matches s path ne (rest ∷ segs) segs' e m = cc

  -- Where all patterns for a path have one handler, no other is found.
  pub lookup-AtMost :
      (ps : RouteTable H) (path : List String) → Only path ps → AtMost (lookup ps path)
  lookup-AtMost ps [] o = first_where-AtMost is_end [] ps is_end-matches o
  lookup-AtMost ps (s ∷ path) o =
      let named =
        lookup-AtMost (advance_all (after_literal s) ps) path
          (advance_all-Only (after_literal s) s path ps (after_literal-matches s path) o) in
      let below = first_where-AtMost is_rest (s ∷ path) ps (is_rest-matches s path) o in
      or_else-AtMost _ _ named (
        or_else-AtMost _ _
          (elim (Bool-cases (str_eq s "")) [
            | inl e ↦ rw e (inl refl)
            | inr e ↦ rw e (
                lookup-AtMost (advance_all after_wildcard ps) path
                  (advance_all-Only after_wildcard s path ps (after_wildcard-matches s path e) o))
          ])
          below)

abbrev pub is_found {ℓ} : {A : Type ℓ} → Option A → Bool
is_found none = false
is_found (some a) = true

pub is_found-or_else :
    {A : Type 0} (a b : Option A) → is_found (or_else a b) ≡ (is_found a || is_found b)
is_found-or_else none b = refl
is_found-or_else (some a) b = refl

module _ {H : Type 0} where
  abbrev pub any_match : RouteTable H → List String → Bool
  any_match [] path = false
  any_match ((segs, h) ∷ ps) path = let more = any_match ps path in matches segs path || more

  first_where-end : (ps : RouteTable H) → is_found (first_where is_end ps) ≡ any_match ps []
  first_where-end [] = refl
  first_where-end (([], h) ∷ ps) = refl
  first_where-end ((literal l ∷ segs, h) ∷ ps) = first_where-end ps
  first_where-end ((wildcard ∷ segs, h) ∷ ps) = first_where-end ps
  first_where-end ((rest ∷ segs, h) ∷ ps) = first_where-end ps

  -- A pattern for a longer path begins with its first name, with a wildcard, or with a slash at the
  -- end.
  any_match-cons :
      (s : String) (path : List String) (ps : RouteTable H)
      → any_match ps (s ∷ path) ≡ (
          any_match (advance_all (after_literal s) ps) path
          || (not (str_eq s "") && any_match (advance_all after_wildcard ps) path)
          || is_found (first_where is_rest ps))
  any_match-cons s path [] = ground arith
  any_match-cons s path (([], h) ∷ ps) = any_match-cons s path ps
  any_match-cons s path ((literal l ∷ segs, h) ∷ ps) = elim (Bool-cases (str_eq l s)) [
    | inl e ↦ rw (e, any_match-cons s path ps) (ground arith)
    | inr e ↦ rw (e, any_match-cons s path ps) (ground arith)
  ]
  any_match-cons s path ((wildcard ∷ segs, h) ∷ ps) = rw (any_match-cons s path ps) (ground arith)
  any_match-cons s path ((rest ∷ segs, h) ∷ ps) = ground arith

  -- A handler is found exactly if some pattern is one for the path.
  pub lookup-any_match :
      (ps : RouteTable H) (path : List String) → is_found (lookup ps path) ≡ any_match ps path
  lookup-any_match ps [] = first_where-end ps
  lookup-any_match ps (s ∷ path) =
      let named = lookup-any_match (advance_all (after_literal s) ps) path in
      let wild = lookup-any_match (advance_all after_wildcard ps) path in
      rw
        (
          is_found-or_else (lookup (advance_all (after_literal s) ps) path) _,
          is_found-or_else _ (first_where is_rest ps),
          named,
          any_match-cons s path ps,
        )
        (elim (Bool-cases (str_eq s "")) [
          | inl e ↦ rw e (ground arith)
          | inr e ↦ rw (e, wild) (ground arith)
        ])
