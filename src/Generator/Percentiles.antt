-- ===== src/Generator/Percentiles.antt =====
-- The figures of the reports: counts that add up, and percentiles that are there and in order.
use native.Mathlib.Nat.{mul-le-mul_left}
use q_pay_flow.Base.{
  ℕ, zero, suc, ◌+◌, ◌-◌, ◌*◌, ◌≤◌, ◌<◌, ◌≡◌, refl, ap, ◌∙◌, Bool, false, not, Option, some, List,
  [], ◌∷◌, arith, leb, All, Bool-cases, inl, inr, length, length-append, count_if, if◌then◌else◌,
}
use q_pay_flow.Generator.Metrics.{
  MetricCollector, new_metric_collector, record_metric, Outcome, not_built, not_answered, answered,
  record_outcome, record_all, insert_duration, sort_durations, element, clamp_index, latencies_of,
}

-- A request counts as a success if it is answered with a status below 400.
abbrev pub is_success : Outcome → Bool
is_success (answered status duration) = not (leb 400 status)
is_success _ = false

record_outcome-counts :
    (o : Outcome) (m : MetricCollector)
    → let m' = record_outcome o m in
      (length m'.latencies ≡ suc (length m.latencies))
      × (m'.success_count ≡ m.success_count + (if is_success o then 1 else 0))
      × (m'.error_count ≡ m.error_count + (if is_success o then 0 else 1))
unfolding record_outcome record_metric
record_outcome-counts not_built m =
    (omega (arith, length-append m.latencies (0 ∷ [])), omega arith, omega arith)
record_outcome-counts (not_answered d) m =
    (omega (arith, length-append m.latencies (d ∷ [])), omega arith, omega arith)
record_outcome-counts (answered status d) m =
    (ground (arith, length-append m.latencies (d ∷ [])), ground arith, ground arith)

record_all-from :
    (outcomes : List Outcome) (m : MetricCollector)
    → let m' = record_all outcomes m in
      (length m'.latencies ≡ length m.latencies + length outcomes)
      × (m'.success_count ≡ m.success_count + count_if is_success outcomes)
      × (m'.error_count ≡ m.error_count + count_if (λ o. not (is_success o)) outcomes)
record_all-from [] m = (omega arith, omega arith, omega arith)
record_all-from (o ∷ outcomes) m =
    let (l, s, e) = record_outcome-counts o m in
    let (ls, ss, es) = record_all-from outcomes (record_outcome o m) in
    (omega (arith, l, ls), ground (arith, s, ss), ground (arith, e, es))

-- Whatever becomes of the requests, a collector has one latency for each, and its two counters add up
-- to them: the successes are the answers with a status below 400, the errors are all others.
pub record_all-counts :
    (outcomes : List Outcome)
    → let m = record_all outcomes new_metric_collector in
      (length m.latencies ≡ length outcomes)
      × (m.success_count ≡ count_if is_success outcomes)
      × (m.success_count + m.error_count ≡ length m.latencies)
record_all-counts outcomes =
    let (l, s, e) = record_all-from outcomes new_metric_collector in
    (omega (arith, l), omega (arith, s), omega (arith, l, s, e, count_both outcomes))
  where
    count_both :
        (os : List Outcome)
        → count_if is_success os + count_if (λ o. not (is_success o)) os ≡ length os
    count_both [] = refl
    count_both (o ∷ os) = ground (arith, count_both os)

-- The first element is a bound of the others, and so on.
abbrev pub IsSorted : List ℕ → Type 0
IsSorted [] = Unit
IsSorted (d ∷ ds) = All (λ x. d ≤ x) ds × IsSorted ds

All-insert_duration :
    (lo d : ℕ) (ds : List ℕ)
    → lo ≤ d
    → All (λ x. lo ≤ x) ds
    → All (λ x. lo ≤ x) (insert_duration d ds)
All-insert_duration lo d [] h all = (h, tt)
All-insert_duration lo d (x ∷ xs) h all = elim (Bool-cases (leb d x)) [
  | inl le ↦ rw le (h, all)
  | inr gt ↦ rw gt (all.0, All-insert_duration lo d xs h all.1)
]

All-weaken : (lo hi : ℕ) (ds : List ℕ) → lo ≤ hi → All (λ x. hi ≤ x) ds → All (λ x. lo ≤ x) ds
All-weaken lo hi [] le h = tt
All-weaken lo hi (x ∷ xs) le h = (omega (arith, le, h.0), All-weaken lo hi xs le h.1)

insert_duration-IsSorted : (d : ℕ) (ds : List ℕ) → IsSorted ds → IsSorted (insert_duration d ds)
insert_duration-IsSorted d [] s = (tt, tt)
insert_duration-IsSorted d (x ∷ xs) (bound, s) = elim (Bool-cases (leb d x)) [
  | inl le ↦
      let small : d ≤ x = ground (arith, le) in
      rw le ((small, All-weaken d x xs small bound), (bound, s))
  | inr gt ↦
      let small : x ≤ d = ground (arith, gt) in
      rw gt (All-insert_duration x d xs small bound, insert_duration-IsSorted d xs s)
]

sort_durations-IsSorted : (ds : List ℕ) → IsSorted (sort_durations ds)
sort_durations-IsSorted [] = tt
sort_durations-IsSorted (d ∷ ds) =
    insert_duration-IsSorted d (sort_durations ds) (sort_durations-IsSorted ds)

length-insert_duration : (d : ℕ) (ds : List ℕ) → length (insert_duration d ds) ≡ suc (length ds)
length-insert_duration d [] = refl
length-insert_duration d (x ∷ xs) = ground (arith, length-insert_duration d xs)

length-sort_durations : (ds : List ℕ) → length (sort_durations ds) ≡ length ds
length-sort_durations [] = refl
length-sort_durations (d ∷ ds) =
    length-insert_duration d (sort_durations ds) ∙ ap suc (length-sort_durations ds)

element-All :
    (lo : ℕ) (ds : List ℕ) (i : ℕ)
    → i < length ds
    → All (λ x. lo ≤ x) ds
    → (y : ℕ) × (element ds i ≡ some y) × (lo ≤ y)
element-All lo [] i h all = absurd (omega (arith, h))
element-All lo (d ∷ ds) zero h all = (d, refl, all.0)
element-All lo (d ∷ ds) (suc i) h all = element-All lo ds i (omega (arith, h)) all.1

-- Two positions in range, the first one not behind the second, have values in that order.
abbrev pub Ordered : Option ℕ → Option ℕ → Type 0
Ordered a b = (x : ℕ) × (y : ℕ) × (a ≡ some x) × (b ≡ some y) × (x ≤ y)

element-Ordered :
    (ds : List ℕ) (i j : ℕ)
    → IsSorted ds
    → i ≤ j
    → j < length ds
    → Ordered (element ds i) (element ds j)
element-Ordered [] i j s le h = absurd (omega (arith, h))
element-Ordered (d ∷ ds) zero zero s le h = (d, d, refl, refl, omega arith)
element-Ordered (d ∷ ds) zero (suc j) s le h =
    let (y, found, bound) = element-All d ds j (omega (arith, h)) s.0 in (d, y, refl, found, bound)
element-Ordered (d ∷ ds) (suc i) zero s le h = absurd (omega (arith, le))
element-Ordered (d ∷ ds) (suc i) (suc j) s le h =
    element-Ordered ds i j s.1 (omega (arith, le)) (omega (arith, h))

clamp_index-lt : (total percent : ℕ) → 0 < total → clamp_index total percent < total
clamp_index-lt total percent h = ground (arith, h)

clamp_index-le : (total p q : ℕ) → 0 < total → p ≤ q → clamp_index total p ≤ clamp_index total q
clamp_index-le total p q h le =
    let more : total * p ≤ total * q = mul-le-mul_left total le in ground (arith, h, more)

-- Of any latencies, as soon as there is one, a report reads no position out of range: the smallest
-- latency, each of the percentiles 50, 90, 95 and 99 and the largest latency are there, in order.
pub latencies_of-Ordered :
    (ds : List ℕ)
    → 0 < length ds
    → let r = latencies_of (sort_durations ds) in
      Ordered r.min r.p50
      × Ordered r.p50 r.p90
      × Ordered r.p90 r.p95
      × Ordered r.p95 r.p99
      × Ordered r.p99 r.max
latencies_of-Ordered ds h =
    let sorted = sort_durations ds in
    let n = length sorted in
    let pos : 0 < n = omega (arith, h, length-sort_durations ds) in
    let s = sort_durations-IsSorted ds in
    let step = λ (p q : ℕ) (le : p ≤ q).
      element-Ordered sorted (clamp_index n p) (clamp_index n q) s (clamp_index-le n p q pos le)
        (clamp_index-lt n q pos) in
    (
      element-Ordered sorted 0 (clamp_index n 50) s (omega arith) (clamp_index-lt n 50 pos),
      step 50 90 (omega arith),
      step 90 95 (omega arith),
      step 95 99 (omega arith),
      element-Ordered sorted (clamp_index n 99) (n - 1) s (omega (arith, clamp_index-lt n 99 pos))
          (omega (arith, pos)),
    )
