-- ===== src/Http/Dispatch.antt =====
-- What a mux answers, read off its patterns.
use q_pay_flow.Base.{
  String, Bool, false, ◌&&◌, ◌||◌, ◌≡◌, refl, ◌∙◌, Option, none, some, List, [], ◌∷◌, str_eq,
  Bool-cases, inl, inr, arith, if◌then◌else◌,
}
use q_pay_flow.Http.{
  Pattern, matches, lookup, for_method, all_methods, find, or_refused, dispatch, served,
  method_not_allowed, not_found,
}
use q_pay_flow.Http.Matching.{
  Only, AtMost, or_else-AtMost, lookup-AtMost, any_match, lookup-any_match, is_found,
  is_found-or_else,
}

-- Whether a pattern's method is one for a request's.
abbrev pub method_fits : String → String → Bool
method_fits given m = str_eq given m || (str_eq m "HEAD" && str_eq given "GET") || str_eq given ""

module _ {H : Type 0} where
  -- Whether some pattern is one for a request.
  abbrev pub allows : List (Pattern H) → String → List String → Bool
  allows [] m path = false
  allows (p ∷ ps) m path =
      let more = allows ps m path in (method_fits p.method m && matches p.segments path) || more

  -- The same for one method, as it is written.
  abbrev allows_only : List (Pattern H) → String → List String → Bool
  allows_only [] m path = false
  allows_only (p ∷ ps) m path =
      let more = allows_only ps m path in (str_eq p.method m && matches p.segments path) || more

  any_match-for_method :
      (m : String) (ps : List (Pattern H)) (path : List String)
      → any_match (for_method m ps) path ≡ allows_only ps m path
  any_match-for_method m [] path = refl
  any_match-for_method m (p ∷ ps) path = elim (Bool-cases (str_eq p.method m)) [
    | inl e ↦ rw (e, any_match-for_method m ps path) refl
    | inr e ↦ rw (e, any_match-for_method m ps path) refl
  ]

  allows-eq :
      (m : String) (ps : List (Pattern H)) (path : List String)
      → (allows_only ps m path
          || ((str_eq m "HEAD" && allows_only ps "GET" path) || allows_only ps "" path))
        ≡ allows ps m path
  allows-eq m [] path = ground arith
  allows-eq m (p ∷ ps) path = rw (← allows-eq m ps path) (ground arith)

  is_found-find :
      (ps : List (Pattern H)) (m : String) (path : List String)
      → is_found (find ps m path) ≡ allows ps m path
  is_found-find ps m path =
      let own = lookup-any_match (for_method m ps) path ∙ any_match-for_method m ps path in
      let get = lookup-any_match (for_method "GET" ps) path ∙ any_match-for_method "GET" ps path in
      let any = lookup-any_match (for_method "" ps) path ∙ any_match-for_method "" ps path in
      rw
        (
          is_found-or_else (lookup (for_method m ps) path) _,
          is_found-or_else _ (lookup (for_method "" ps) path),
          own,
          any,
        )
        (elim (Bool-cases (str_eq m "HEAD")) [
          | inl e ↦ rw (e, get) (rw (← allows-eq m ps path, e) refl)
          | inr e ↦ rw e (rw (← allows-eq m ps path, e) refl)
        ])

  module _ (target : H) where
    for_method-Only :
        (m : String) (ps : List (Pattern H)) (path : List String)
        → Only target path (all_methods ps)
        → Only target path (for_method m ps)
    for_method-Only m [] path o = tt
    for_method-Only m (p ∷ ps) path o =
        let more = for_method-Only m ps path o.1 in
        elim (Bool-cases (str_eq p.method m)) [ inl e ↦ rw e (o.0, more) | inr e ↦ rw e more ]

    find-AtMost :
        (ps : List (Pattern H)) (m : String) (path : List String)
        → Only target path (all_methods ps)
        → AtMost target (find ps m path)
    find-AtMost ps m path o =
        let own = lookup-AtMost target (for_method m ps) path (for_method-Only m ps path o) in
        let get =
          lookup-AtMost target (for_method "GET" ps) path (for_method-Only "GET" ps path o) in
        let any = lookup-AtMost target (for_method "" ps) path (for_method-Only "" ps path o) in
        or_else-AtMost target _ _ own (
          or_else-AtMost target _ _
            (elim (Bool-cases (str_eq m "HEAD")) [ inl e ↦ rw e get | inr e ↦ rw e (inl refl) ])
            any)

    or_refused-eq :
        (found other : Option H) (b c : Bool)
        → AtMost target found
        → is_found found ≡ b
        → is_found other ≡ c
        → or_refused found other
          ≡ (if b then served target else if c then method_not_allowed else not_found)
    or_refused-eq none none b c h e f = rw (← e, ← f) refl
    or_refused-eq none (some o) b c h e f = rw (← e, ← f) refl
    or_refused-eq (some x) other b c (inl bad) e f = cc
    or_refused-eq (some x) other b c (inr same) e f = rw (← e) (ground arith)

    -- Where all patterns for a path have one handler, it gets the requests that some pattern is for;
    -- the others are answered 405 where there is a pattern for the path, and 404 where there is none.
    pub dispatch-target :
        (ps : List (Pattern H)) (m : String) (path : List String)
        → Only target path (all_methods ps)
        → dispatch ps m path ≡ (
            if allows ps m path
            then served target
            else if any_match (all_methods ps) path
            then method_not_allowed
            else not_found)
    unfolding dispatch
    dispatch-target ps m path o =
        or_refused-eq (find ps m path) (lookup (all_methods ps) path) _ _ (find-AtMost ps m path o)
          (is_found-find ps m path) (lookup-any_match (all_methods ps) path)
