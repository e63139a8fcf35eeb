-- ===== src/Scenarios/Windows.antt =====
-- Requests of two clients, and payments of one account, on the sorted sets in memory.
use q_pay_flow.Tracing.{Random, extract_from_http, is_valid_traceparent}
use q_pay_flow.Gateway.RateLimit.{rate_limit}
use q_pay_flow.Gateway.Middleware.{Request, route}
use q_pay_flow.Gateway.Routes.{route-cases}
use q_pay_flow.Base.{
  suc, true, false, ◌⊎◌, ℕ, ◌≤◌, ◌≡◌, refl, String, none, List, [], ◌∷◌, arith, count_if,
}
use q_pay_flow.Base.Int.{pos}
use q_pay_flow.Redis.Interface.{answered}
use q_pay_flow.Redis.SortedSets.Memory.{sets, sets-Laws, Sets}
use q_pay_flow.Redis.SortedSets.Window.{in_window}
use q_pay_flow.Gateway.Windows
use q_pay_flow.Gateway.Windows.{Arrival, spec_run, run-spec_run, admitted_bounded}
use q_pay_flow.Fraud.Check.{minute, velocity_limit}
use q_pay_flow.Fraud.Velocity
use q_pay_flow.Fraud.Velocity.{Attempt, approved_bounded}

abbrev pub no_sets : Sets
no_sets key = ([], none)

abbrev arrival : String → ℕ → Arrival
arrival key now = record { key = key; now = now }

abbrev arrivals : List Arrival
arrivals = arrival "a" 1 ∷ arrival "b" 2 ∷ arrival "a" 3 ∷ arrival "a" 4 ∷ arrival "a" 40 ∷ []

run-spec_run_example :
    (Windows.run sets 10 2 "a" arrivals ([], no_sets)).0 ≡ spec_run 10 2 "a" arrivals []
run-spec_run_example =
    run-spec_run sets sets-Laws 10 2 "a" arrivals no_sets (λ t. refl) (omega arith)

admitted_bounded_example :
    count_if (in_window 10 40) (Windows.run sets 10 2 "a" arrivals ([], no_sets)).0 ≤ 2
admitted_bounded_example =
    admitted_bounded sets sets-Laws 10 2 "a" arrivals no_sets 40 (λ t. refl) (omega arith)
      (omega arith)

abbrev attempt : ℕ → ℕ → Attempt
attempt now amount = record { clock = record { now = now; later = now }; amount = pos amount }

abbrev attempts : List Attempt
attempts = attempt 1 10 ∷ attempt 2 200000000 ∷ attempt 3 30 ∷ []

approved_bounded_example :
    count_if (in_window minute 3) (Velocity.run sets "alice" attempts ([], no_sets)).0
    ≤ velocity_limit
approved_bounded_example =
    approved_bounded sets sets-Laws "alice" attempts no_sets 3 (λ t. refl) (omega arith)
      (omega arith)

abbrev random : Random
random = record { trace_id = λ i. i; parent_id = λ i. i }

abbrev request : Request
request = record {
  remote_addr = "10.0.0.1";
  forwarded_for = "";
  host_header = "pay.example";
  forwarded_host = "";
  traceparent = "";
  context = none;
}

-- A service that counts its requests.
abbrev counting : Request → ℕ → ℕ × ℕ
counting r n = (200, suc n)

route-cases_example :
    let tp = extract_from_http random "" in
    let allowed = (rate_limit sets answered "10.0.0.1" "" 5 no_sets).0 in
    let (response, w) = route sets counting random answered 5 request (no_sets, 0) in
    (response.traceparent ≡ tp)
    × (is_valid_traceparent tp ≡ true)
    × (is_valid_traceparent "" ≡ true → tp ≡ "")
    × (((response.status ≡ 429) × (w.1 ≡ 0) × (allowed ≡ false))
        ⊎ ((response.status ≡ 200) × (w.1 ≡ 1) × (allowed ≡ true)))
route-cases_example = route-cases sets counting random answered 5 request no_sets 0
