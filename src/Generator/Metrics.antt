-- ===== src/Generator/Metrics.antt =====
-- scripts/generator/main.go: `MetricCollector` and the figures of the two reports. An index is
-- `total * pct`, of a whole number of percents; the code computes it in floating point.
use q_pay_flow.Base.{
  ℕ, zero, suc, ◌+◌, ◌-◌, ◌*◌, ◌/◌, Bool, true, ◌||◌, Option, none, some, List, [], ◌∷◌, ◌++◌, leb,
  ◌==◌, if◌then◌else◌, length,
}

-- Durations are natural numbers; `status_codes` is the map, 0 where a key is missing.
pub record MetricCollector : Type 0 where
  pub latencies : List ℕ
  pub status_codes : ℕ → ℕ
  pub error_count : ℕ
  pub success_count : ℕ

abbrev pub new_metric_collector : MetricCollector
new_metric_collector = record {
  latencies = [];
  status_codes = λ code. 0;
  error_count = 0;
  success_count = 0;
}

abbrev pub increment : ℕ → (ℕ → ℕ) → ℕ → ℕ
increment code counts k = if k == code then suc (counts k) else counts k

-- `Record`.
unfoldable pub record_metric : (status duration : ℕ) → Bool → MetricCollector → MetricCollector
record_metric status duration is_err m =
    let counted = record m {
      latencies = m.latencies ++ duration ∷ [];
      status_codes = increment status m.status_codes;
    } in
    if is_err || leb 400 status
    then record counted { error_count = suc m.error_count }
    else record counted { success_count = suc m.success_count }

-- How the request of a job goes.
pub data Outcome : Type 0 where
  not_built : Outcome
  not_answered : ℕ → Outcome  -- after a duration
  answered : (status duration : ℕ) → Outcome

unfoldable pub record_outcome : Outcome → MetricCollector → MetricCollector
unfolding record_metric
record_outcome not_built m = record_metric 0 0 true m
record_outcome (not_answered duration) m = record_metric 0 duration true m
record_outcome (answered status duration) m = record_metric status duration (leb 400 status) m

abbrev pub record_all : List Outcome → MetricCollector → MetricCollector
record_all [] m = m
record_all (o ∷ outcomes) m = record_all outcomes (record_outcome o m)

-- `sort.Slice` on durations.
abbrev pub insert_duration : ℕ → List ℕ → List ℕ
insert_duration d [] = d ∷ []
insert_duration d (x ∷ xs) =
    let rest = insert_duration d xs in if leb d x then d ∷ x ∷ xs else x ∷ rest

abbrev pub sort_durations : List ℕ → List ℕ
sort_durations [] = []
sort_durations (d ∷ ds) = insert_duration d (sort_durations ds)

-- Go's indexing, `none` for the panic out of range.
abbrev pub element : List ℕ → ℕ → Option ℕ
element [] i = none
element (d ∷ ds) zero = some d
element (d ∷ ds) (suc i) = element ds i

-- `clamp`, of a list that is sorted already.
abbrev pub clamp_index : (total percent : ℕ) → ℕ
clamp_index total percent =
    let idx = total * percent / 100 in if leb total idx then total - 1 else idx

abbrev pub clamp : List ℕ → ℕ → Option ℕ
clamp sorted percent = element sorted (clamp_index (length sorted) percent)

abbrev pub sum : List ℕ → ℕ
sum [] = 0
sum (d ∷ ds) = d + sum ds

-- The latencies of a report. `none` stands for a panic.
pub record Latencies : Type 0 where
  pub min : Option ℕ
  pub avg : ℕ
  pub p50 : Option ℕ
  pub p90 : Option ℕ
  pub p95 : Option ℕ
  pub p99 : Option ℕ
  pub max : Option ℕ

abbrev pub latencies_of : List ℕ → Latencies
latencies_of sorted = record {
  min = element sorted 0;
  avg = sum sorted / length sorted;
  p50 = clamp sorted 50;
  p90 = clamp sorted 90;
  p95 = clamp sorted 95;
  p99 = clamp sorted 99;
  max = element sorted (length sorted - 1);
}

-- `printBenchmarkReport`: nothing where no request was executed.
unfoldable pub benchmark_report : MetricCollector → Option Latencies
benchmark_report m =
    if length m.latencies == 0 then none else some (latencies_of (sort_durations m.latencies))
