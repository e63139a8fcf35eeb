-- ===== src/Gateway/Routes.antt =====
-- What a route of the gateway does with a request.
use q_pay_flow.Base.{ℕ, ◌≡◌, refl, String, Bool, true, false, some, ◌⊎◌, inl, inr}
use q_pay_flow.Redis.Interface.{Exchange}
use q_pay_flow.Redis.SortedSets.{SortedSets}
use q_pay_flow.Tracing.{Random, extract_from_http, is_valid_traceparent}
use q_pay_flow.Tracing.RoundTrip.{
  extract_from_http-valid, extract_from_http-given, or_generated-of_valid,
}
use q_pay_flow.Gateway.RateLimit.{rate_limit}
use q_pay_flow.Gateway.Middleware.{Request, proxy, limited, route}

module _ (z : SortedSets) {S : Type 0} (service : Request → S → ℕ × S) where
  -- The request that the service gets: its host, and one traceparent in its header and its context.
  abbrev pub passed_on : String → Request → Request
  passed_on tp r = record r { forwarded_host = r.host_header; traceparent = tp; context = some tp }

  limited-cases :
      (r : Request) (decision : Bool × z.Store) (s : S)
      → (((limited z service r decision s).0 ≡ 429)
          × ((limited z service r decision s).1.1 ≡ s)
          × (decision.0 ≡ false))
        ⊎ (((limited z service r decision s).0 ≡ (proxy service r s).0)
            × ((limited z service r decision s).1.1 ≡ (proxy service r s).1)
            × (decision.0 ≡ true))
  limited-cases r (true, sets) s = inr (refl, refl, refl)
  limited-cases r (false, sets) s = inl (refl, refl, refl)

  -- A route answers with a valid traceparent: that of the request, if it is one. Where the limiter
  -- refuses, the answer is 429 and the service is left alone; else the service gets the request once,
  -- with that traceparent, and its status is the answer.
  pub route-cases :
      (random : Random) (exchange : Exchange) (now : ℕ) (r : Request) (sets : z.Store) (s : S)
      → let tp = extract_from_http random r.traceparent in
        let allowed = (rate_limit z exchange r.remote_addr r.forwarded_for now sets).0 in
        let (response, w) = route z service random exchange now r (sets, s) in
        (response.traceparent ≡ tp)
        × (is_valid_traceparent tp ≡ true)
        × (is_valid_traceparent r.traceparent ≡ true → tp ≡ r.traceparent)
        × (((response.status ≡ 429) × (w.1 ≡ s) × (allowed ≡ false))
            ⊎ ((response.status ≡ (service (passed_on tp r) s).0)
                × (w.1 ≡ (service (passed_on tp r) s).1)
                × (allowed ≡ true)))
  unfolding route
  route-cases random exchange now r sets s =
      let tp = extract_from_http random r.traceparent in
      let valid = extract_from_http-valid random r.traceparent in
      let decision = rate_limit z exchange r.remote_addr r.forwarded_for now sets in
      rw (or_generated-of_valid random tp valid) (
        refl,
        valid,
        extract_from_http-given random r.traceparent,
        limited-cases (record r { traceparent = tp; context = some tp }) decision s,
      )
