-- ===== src/Resilience/Breaker/Sequences.antt =====
-- What a breaker does over a sequence of calls.
use q_pay_flow.Base.{
  ℕ, ◌+◌, ◌-◌, ◌≤◌, ◌<◌, ◌≡◌, true, false, arith, err, Result, List, [], ◌∷◌, length,
}
use q_pay_flow.Resilience.Breaker.{
  state_closed, state_half_open, state_open, CircuitBreaker, admit, settle, execute, circuit_open,
  as_call,
}

module _ {S E : Type 0} (fn : S → Result E (Unit {0}) × S) (now later : ℕ) where
  -- An open breaker refuses every call until more than its timeout has passed since it opened: the
  -- function is not run, so its state is untouched, and the breaker is as it was.
  pub execute_refuses :
      (cb : CircuitBreaker) (s : S)
      → cb.state ≡ state_open
      → now - cb.last_state_change ≤ cb.timeout
      → execute now later fn (cb, s) ≡ (err circuit_open, cb, s)
  unfolding execute admit
  execute_refuses cb s o h = ground arith

  -- Otherwise the function runs, and its result is the caller's.
  pub execute_runs :
      (cb : CircuitBreaker) (s : S)
      → (cb.state ≡ state_open → cb.timeout < now - cb.last_state_change)
      → ((execute now later fn (cb, s)).0 ≡ as_call (fn s).0)
        × ((execute now later fn (cb, s)).2 ≡ (fn s).1)
  unfolding execute admit
  execute_runs cb s h = ground arith

-- Calls that all fail, at the times of the list.
unfoldable pub fail_all : List ℕ → CircuitBreaker → CircuitBreaker
fail_all [] cb = cb
fail_all (now ∷ times) cb = fail_all times (settle true now (admit now cb).1)

-- Calls that all succeed.
unfoldable pub succeed_all : List ℕ → CircuitBreaker → CircuitBreaker
succeed_all [] cb = cb
succeed_all (now ∷ times) cb = succeed_all times (settle false now (admit now cb).1)

-- A closed breaker counts failures in a row, and stays closed while they are fewer than its
-- threshold.
pub fail_all_closed :
    (times : List ℕ) (cb : CircuitBreaker)
    → cb.state ≡ state_closed
    → cb.failure_count + length times < cb.failure_threshold
    → fail_all times cb ≡ record cb { failure_count = cb.failure_count + length times }
unfolding fail_all settle admit
fail_all_closed [] cb c h = ground arith
fail_all_closed (now ∷ times) cb c h =
    ground (arith, fail_all_closed times (record cb { failure_count = cb.failure_count + 1 }))

-- The failure that reaches the threshold opens it.
pub fail_all_opens :
    (times : List ℕ) (last : ℕ) (cb : CircuitBreaker)
    → cb.state ≡ state_closed
    → cb.failure_count + length times + 1 ≡ cb.failure_threshold
    → settle true last (admit last (fail_all times cb)).1
      ≡ record cb { state = state_open; failure_count = 0; last_state_change = last }
unfolding settle admit
fail_all_opens times last cb c h = ground (arith, fail_all_closed times cb)

-- A half-open breaker closes after as many successes as its threshold asks for.
pub succeed_all_half_open :
    (times : List ℕ) (cb : CircuitBreaker)
    → cb.state ≡ state_half_open
    → cb.success_count + length times < cb.success_threshold
    → succeed_all times cb ≡ record cb { success_count = cb.success_count + length times }
unfolding succeed_all settle admit
succeed_all_half_open [] cb c h = ground arith
succeed_all_half_open (now ∷ times) cb c h =
    ground (arith, succeed_all_half_open times (record cb { success_count = cb.success_count + 1 }))

-- The success that reaches the threshold closes it, with no failures counted.
pub succeed_all_closes :
    (times : List ℕ) (last : ℕ) (cb : CircuitBreaker)
    → cb.state ≡ state_half_open
    → cb.success_count + length times + 1 ≡ cb.success_threshold
    → let after = settle false last (admit last (succeed_all times cb)).1 in
      (after.state ≡ state_closed) × (after.failure_count ≡ 0) × (after.last_state_change ≡ last)
unfolding settle admit
succeed_all_closes times last cb c h = ground (arith, succeed_all_half_open times cb)

-- One failure of a half-open breaker opens it again, from the time of that failure.
pub half_open_reopens :
    (now later : ℕ) (cb : CircuitBreaker)
    → cb.state ≡ state_half_open
    → settle true later (admit now cb).1
      ≡ record cb { state = state_open; failure_count = 0; last_state_change = later }
unfolding settle admit
half_open_reopens now later cb c = ground arith
