-- ===== src/Resilience/Breaker.antt =====
-- pkg/resilience/circuit_breaker.go: the circuit breaker. `Execute` holds its mutex before and
-- after the call, not during it, so it is two functions, `admit` and `settle`, and their sequence.
-- Times are ticks of a monotonic clock; the thresholds and the timeout are not negative.
pub mod Invariant
pub mod Sequences
use q_pay_flow.Base.{
  ℕ, suc, ◌+◌, ◌-◌, Bool, true, false, ◌||◌, Result, ok, err, ltb, leb, if◌then◌else◌,
}

pub data State : Type 0 where
  state_closed state_half_open state_open : State

pub State-discrete : Discrete State
State-discrete = hlevel

pub record CircuitBreaker : Type 0 where
  pub state : State
  pub failure_threshold : ℕ
  pub success_threshold : ℕ
  pub timeout : ℕ
  pub failure_count : ℕ
  pub success_count : ℕ
  pub last_state_change : ℕ

unfoldable pub new_circuit_breaker : ℕ → ℕ → ℕ → ℕ → CircuitBreaker
new_circuit_breaker failure_threshold success_threshold timeout now = record {
  state = state_closed;
  failure_threshold = failure_threshold;
  success_threshold = success_threshold;
  timeout = timeout;
  failure_count = 0;
  success_count = 0;
  last_state_change = now;
}

admit_in : State → ℕ → CircuitBreaker → Bool × CircuitBreaker
admit_in state_open now cb =
    if ltb cb.timeout (now - cb.last_state_change)
    then (true, record cb { state = state_half_open; success_count = 0 })
    else (false, cb)
admit_in state_closed now cb = (true, cb)
admit_in state_half_open now cb = (true, cb)

-- The first critical section: may the call go ahead?
unfoldable pub admit : ℕ → CircuitBreaker → Bool × CircuitBreaker
unfolding admit_in
admit now cb = admit_in cb.state now cb

abbrev is_half_open : State → Bool
is_half_open state_half_open = true
is_half_open _ = false

-- The error path of the second critical section.
settle_failure : ℕ → CircuitBreaker → CircuitBreaker
settle_failure now cb =
    let counted = record cb { failure_count = cb.failure_count + 1 } in
    if is_half_open cb.state || leb cb.failure_threshold counted.failure_count
    then record counted { state = state_open; last_state_change = now; failure_count = 0 }
    else counted

-- Its success path.
settle_success : State → ℕ → CircuitBreaker → CircuitBreaker
settle_success state_half_open now cb =
    let counted = record cb { success_count = cb.success_count + 1 } in
    if leb cb.success_threshold counted.success_count
    then record counted { state = state_closed; failure_count = 0; last_state_change = now }
    else counted
settle_success state_closed now cb = record cb { failure_count = 0 }
settle_success state_open now cb = cb

-- The second critical section, on whether the call returned an error.
unfoldable pub settle : Bool → ℕ → CircuitBreaker → CircuitBreaker
unfolding settle_failure settle_success
settle true now cb = settle_failure now cb
settle false now cb = settle_success cb.state now cb

pub data ExecuteError (E : Type 0) : Type 0 where
  circuit_open : ExecuteError E
  call_failed : E → ExecuteError E

abbrev pub is_err {ℓ} : {E : Type 0} {A : Type ℓ} → Result E A → Bool
is_err (ok a) = false
is_err (err e) = true

abbrev pub as_call : {E : Type 0} → Result E (Unit {0}) → Result (ExecuteError E) (Unit {0})
as_call (ok u) = ok u
as_call (err e) = err (call_failed e)

-- `Execute` with no other call in between: `fn` acts on a state `S` of its own.
unfoldable pub execute :
    {S E : Type 0}
    → (now later : ℕ) → (S → Result E (Unit {0}) × S)
    → CircuitBreaker × S
    → Result (ExecuteError E) (Unit {0}) × CircuitBreaker × S
execute now later fn (cb, s) =
    let (admitted, cb') = admit now cb in
    let (res, s') = fn s in
    if admitted
    then (as_call res, settle (is_err res) later cb', s')
    else (err circuit_open, cb', s)
