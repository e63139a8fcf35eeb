-- ===== src/Gateway/Middleware.antt =====
-- cmd/api-gateway/internal/gateway/middleware.go and handler.go: the chain of a route,
-- `Traceparent(RateLimit(Logging(proxy)))`. What the proxied service does with a request is a
-- parameter; `Logging` hands the request on.
use q_pay_flow.Base.{ℕ, String, Bool, true, false, Option, some}
use q_pay_flow.Redis.Interface.{Exchange}
use q_pay_flow.Redis.SortedSets.{SortedSets}
use q_pay_flow.Tracing.{Random, extract_from_http, or_generated}
use q_pay_flow.Gateway.RateLimit.{rate_limit}

-- What of a request the gateway reads or writes; "" is a header that is not there.
pub record Request : Type 0 where
  pub remote_addr : String
  pub forwarded_for : String
  pub host_header : String
  pub forwarded_host : String
  pub traceparent : String
  pub context : Option String

-- The response of a service, or of the limiter, with the header that the gateway sets.
pub record Response : Type 0 where
  pub status : ℕ
  pub traceparent : String

-- `ProxyPayment` and `ProxyAccount`.
abbrev pub proxy : {S : Type 0} → (Request → S → ℕ × S) → Request → S → ℕ × S
proxy service r s = service (record r { forwarded_host = r.host_header }) s

module _ (z : SortedSets) {S : Type 0} (service : Request → S → ℕ × S) where
  -- `RateLimit`: 429 where it does not hand the request on.
  abbrev pub limited : Request → Bool × z.Store → S → ℕ × (z.Store × S)
  limited r (true, sets) s = let (status, s') = proxy service r s in (status, (sets, s'))
  limited r (false, sets) s = (429, (sets, s))

  abbrev pub rate_limited : Exchange → (now : ℕ) → Request → z.Store × S → ℕ × (z.Store × S)
  rate_limited exchange now r (sets, s) =
      limited r (rate_limit z exchange r.remote_addr r.forwarded_for now sets) s

  -- `Traceparent`, around it.
  unfoldable pub route :
      Random → Exchange → (now : ℕ) → Request → z.Store × S → Response × (z.Store × S)
  route random exchange now r w =
      let tp = extract_from_http random r.traceparent in
      let r' = record r { traceparent = or_generated random tp; context = some tp } in
      let (status, w') = rate_limited exchange now r' w in
      (record { status = status; traceparent = tp }, w')
