-- ===== src/Gateway/RateLimit.antt =====
-- cmd/api-gateway/internal/gateway/middleware.go: the script of the rate limiter and the middleware
-- around it. Times are the nanoseconds that the caller reads; Lua's numbers are doubles, whose
-- rounding of them is not modelled.
use Prim.Native.String
use q_pay_flow.Base.{
  ℕ, ◌+◌, ◌-◌, ◌*◌, ◌/◌, String, Bool, not, ◌||◌, ◌==◌, str_eq, ltb, if◌then◌else◌,
}
use q_pay_flow.Redis.Interface.{Exchange, is_answered, left_by}
use q_pay_flow.Redis.SortedSets.{SortedSets}
use q_pay_flow.Redis.SortedSets.Window.{clear}

abbrev pub second : ℕ
second = 1000000000

-- `math.ceil(window / 1000000000)`, the seconds of EXPIRE, as ticks.
abbrev pub whole_seconds : ℕ → ℕ
whole_seconds window = (window + (second - 1)) / second * second

abbrev pub minute : ℕ
minute = 60 * second

abbrev pub request_limit : ℕ
request_limit = 300

-- `clientIP`: the header X-Forwarded-For, where there is one.
abbrev pub client_ip : (remote_addr forwarded_for : String) → String
client_ip remote_addr forwarded_for =
    if not (str_eq forwarded_for "") then forwarded_for else remote_addr

abbrev pub limit_key : String → String
limit_key client = String.◌++◌ "ratelimit:gw:" client

module _ (z : SortedSets) where
  open z use {Store}

  -- `slidingWindowLua`: the reply, and the store after.
  unfoldable pub sliding_window : (key : String) (now window limit : ℕ) → Store → ℕ × Store
  unfolding clear
  sliding_window key now window limit s =
      let cleared = clear z key window now s in
      if ltb (z.zcard key now cleared) limit
      then (1, z.expire key (whole_seconds window) now (z.zadd key now now now cleared))
      else (0, cleared)

  -- `RateLimit`: is the request handed on? Without an answer of Redis it is.
  unfoldable pub rate_limit :
      Exchange → (remote_addr forwarded_for : String) → (now : ℕ) → Store → Bool × Store
  unfolding sliding_window
  rate_limit exchange remote_addr forwarded_for now s =
      let key = limit_key (client_ip remote_addr forwarded_for) in
      let (allowed, s') = sliding_window key now minute request_limit s in
      (not (is_answered exchange) || allowed == 1, left_by exchange s s')
