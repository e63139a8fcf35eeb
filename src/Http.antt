-- ===== src/Http.antt =====
-- What the services use of `http.ServeMux`: patterns with a method and with segments of a path, and
-- the handler that a request goes to. A path is the list of its segments, cleaned, as the mux sees it:
-- "/payments" is `"payments" ∷ []`, and "/payments/" is `"payments" ∷ "" ∷ []`.
pub mod Matching
pub mod Dispatch
use q_pay_flow.Base.{
  String, Bool, true, false, ◌&&◌, not, Option, none, some, List, [], ◌∷◌, str_eq, if◌then◌else◌,
}

-- A name, `{id}`, or what a slash at the end stands for.
pub data Segment : Type 0 where
  literal : String → Segment
  wildcard rest : Segment

-- `mux.Handle("METHOD /path", h)`; "" is any method.
pub record Pattern (H : Type 0) : Type 0 where
  pub method : String
  pub segments : List Segment
  pub handler : H

pub data Served (H : Type 0) : Type 0 where
  served : H → Served H
  method_not_allowed not_found : Served H

abbrev pub or_else : {A : Type 0} → Option A → Option A → Option A
or_else none b = b
or_else (some a) b = some a

-- Whether a pattern is one for a path.
abbrev pub matches : List Segment → List String → Bool
matches [] [] = true
matches [] (s ∷ path) = false
matches (literal l ∷ segs) [] = false
matches (wildcard ∷ segs) [] = false
matches (rest ∷ segs) [] = false
matches (literal l ∷ segs) (s ∷ path) = let more = matches segs path in str_eq l s && more
matches (wildcard ∷ segs) (s ∷ path) = let more = matches segs path in not (str_eq s "") && more
matches (rest ∷ segs) (s ∷ path) = true

-- What is left of a pattern behind a segment.
abbrev pub after_literal : String → List Segment → Option (List Segment)
after_literal s [] = none
after_literal s (literal l ∷ segs) = if str_eq l s then some segs else none
after_literal s (wildcard ∷ segs) = none
after_literal s (rest ∷ segs) = none

abbrev pub after_wildcard : List Segment → Option (List Segment)
after_wildcard [] = none
after_wildcard (literal l ∷ segs) = none
after_wildcard (wildcard ∷ segs) = some segs
after_wildcard (rest ∷ segs) = none

abbrev pub is_end : List Segment → Bool
is_end [] = true
is_end (seg ∷ segs) = false

abbrev pub is_rest : List Segment → Bool
is_rest [] = false
is_rest (literal l ∷ segs) = false
is_rest (wildcard ∷ segs) = false
is_rest (rest ∷ segs) = true

abbrev pub RouteTable : Type 0 → Type 0
RouteTable H = List (List Segment × H)

module _ {H : Type 0} where
  abbrev pub keep_advanced : H → Option (List Segment) → RouteTable H → RouteTable H
  keep_advanced h none ps = ps
  keep_advanced h (some segs) ps = (segs, h) ∷ ps

  abbrev pub advance_all : (List Segment → Option (List Segment)) → RouteTable H → RouteTable H
  advance_all f [] = []
  advance_all f ((segs, h) ∷ ps) = keep_advanced h (f segs) (advance_all f ps)

  abbrev pub first_where : (List Segment → Bool) → RouteTable H → Option H
  first_where test [] = none
  first_where test ((segs, h) ∷ ps) =
      let later = first_where test ps in if test segs then some h else later

  -- The most specific pattern: a name goes before a wildcard, and that before a slash at the end.
  abbrev pub lookup : RouteTable H → List String → Option H
  lookup ps [] = first_where is_end ps
  lookup ps (s ∷ path) =
      let named = lookup (advance_all (after_literal s) ps) path in
      let wild = lookup (advance_all after_wildcard ps) path in
      or_else named (or_else (if str_eq s "" then none else wild) (first_where is_rest ps))

  abbrev pub for_method : String → List (Pattern H) → RouteTable H
  for_method m [] = []
  for_method m (p ∷ ps) =
      let more = for_method m ps in
      if str_eq p.method m then (p.segments, p.handler) ∷ more else more

  abbrev pub all_methods : List (Pattern H) → RouteTable H
  all_methods [] = []
  all_methods (p ∷ ps) = (p.segments, p.handler) ∷ all_methods ps

  -- GET patterns serve HEAD too; a pattern without a method comes last.
  abbrev pub find : List (Pattern H) → String → List String → Option H
  find ps m path = or_else (lookup (for_method m ps) path) (
      or_else (if str_eq m "HEAD" then lookup (for_method "GET" ps) path else none)
        (lookup (for_method "" ps) path))

  abbrev pub or_refused : Option H → Option H → Served H
  or_refused (some h) other = served h
  or_refused none (some h) = method_not_allowed
  or_refused none none = not_found

  -- `ServeHTTP`, without redirects: 405 where a pattern for another method has the path.
  unfoldable pub dispatch : List (Pattern H) → String → List String → Served H
  dispatch ps m path = or_refused (find ps m path) (lookup (all_methods ps) path)
