-- ===== src/Scenarios/Breakers.antt =====
-- A circuit breaker with the thresholds of the payment service, and calls through it.
use q_pay_flow.Base.{ℕ, ◌+◌, refl, true, err, Result, arith}
use q_pay_flow.Resilience.Breaker.{
  CircuitBreaker, new_circuit_breaker, state_open, state_half_open, admit, settle,
}
use q_pay_flow.Resilience.Breaker.Invariant.{
  Reach, at_begin, and_then, enters, returns, Sound, System, Reach-Sound,
}

abbrev fresh : CircuitBreaker
fresh = new_circuit_breaker 3 2 10 0

abbrev opened : CircuitBreaker
opened = record fresh { state = state_open; last_state_change = 20 }

abbrev half_open : CircuitBreaker
half_open = record fresh { state = state_half_open }

-- A call that fails and counts its runs.
abbrev failing : ℕ → Result ℕ (Unit {0}) × ℕ
failing runs = (err 500, runs + 1)

abbrev begun : System
begun = record { breaker = fresh; in_flight = 0; clock = 0 }

abbrev one_in : System
one_in = record { breaker = fresh; in_flight = 1; clock = 1 }

abbrev two_in : System
two_in = record { breaker = fresh; in_flight = 2; clock = 2 }

-- Two calls overlap, and the first one to come back has failed.
abbrev one_back : System
one_back = record { breaker = record fresh { failure_count = 1 }; in_flight = 1; clock = 3 }

begun-Reach : Reach begun one_back
unfolding admit new_circuit_breaker settle
begun-Reach =
    and_then
      (and_then (and_then at_begin (enters 1 (omega arith) refl refl))
        (enters 2 (omega arith) refl refl))
      (returns true 3 (omega arith) (omega arith) refl)

Reach-Sound_example : Sound one_back
Reach-Sound_example = Reach-Sound 3 2 10 0 (omega arith) (omega arith) begun-Reach
