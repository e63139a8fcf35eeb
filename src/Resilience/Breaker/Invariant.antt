-- ===== src/Resilience/Breaker/Invariant.antt =====
-- What holds of a breaker whatever calls run at the same time.
use q_pay_flow.Base.{ℕ, suc, ◌-◌, ◌≤◌, ◌<◌, ◌≡◌, Bool, true, false, arith}
use q_pay_flow.Resilience.Breaker.{
  state_half_open, CircuitBreaker, new_circuit_breaker, admit, settle,
}

-- Failures are below their threshold, and so are the successes of a half-open breaker.
pub record Inv (cb : CircuitBreaker) : Type 0 where
  pub failures_below : cb.failure_count < cb.failure_threshold
  pub successes_below : cb.state ≡ state_half_open → cb.success_count < cb.success_threshold
  pub success_positive : 0 < cb.success_threshold

-- A breaker with the calls that it has admitted and that have not come back, under one clock.
pub record System : Type 0 where
  pub breaker : CircuitBreaker
  pub in_flight : ℕ
  pub clock : ℕ

-- Goroutines take the mutex in any order: one asks for admission, or a call comes back.
pub data Step (s : System) (s' : System) : Type 0 where
  enters :
      (now : ℕ)
      → s.clock ≤ now
      → (admit now s.breaker).0 ≡ true
      → s' ≡ record { breaker = (admit now s.breaker).1; in_flight = suc s.in_flight; clock = now }
      → Step s s'
  is_rejected :
      (now : ℕ)
      → s.clock ≤ now
      → (admit now s.breaker).0 ≡ false
      → s' ≡ record s { breaker = (admit now s.breaker).1; clock = now }
      → Step s s'
  returns :
      (failed : Bool) (now : ℕ)
      → s.clock ≤ now
      → 0 < s.in_flight
      → s'
        ≡ record { breaker = settle failed now s.breaker; in_flight = s.in_flight - 1; clock = now }
      → Step s s'

-- The systems that a begun one can come to, the last step of the way written last.
pub data Reach (begun : System) : System → Type 0 where
  at_begin : Reach begun begun
  and_then : {mid end : System} (way : Reach begun mid) → Step mid end → Reach begun end

admit-Inv : (now : ℕ) (cb : CircuitBreaker) → Inv cb → Inv (admit now cb).1
unfolding admit
admit-Inv now cb v = ground arith

settle-Inv : (failed : Bool) (now : ℕ) (cb : CircuitBreaker) → Inv cb → Inv (settle failed now cb)
unfolding settle
settle-Inv true now cb v = ground arith
settle-Inv false now cb v = ground arith

settle_timely :
    (failed : Bool) (now : ℕ) (cb : CircuitBreaker)
    → cb.last_state_change ≤ now
    → (settle failed now cb).last_state_change ≤ now
unfolding settle
settle_timely true now cb h = ground arith
settle_timely false now cb h = ground arith

-- What never moves backwards or changes: the configuration, and the time of the last change, which
-- is not ahead of the clock.
pub record Sound (s : System) : Type 0 where
  pub counts : Inv s.breaker
  pub timely : s.breaker.last_state_change ≤ s.clock

Step-Sound : {s s' : System} → Step s s' → Sound s → Sound s'
unfolding admit
Step-Sound {s} {s'} (enters now h a e) v =
    rw e (record { counts = admit-Inv now s.breaker v.counts; timely = ground arith })
Step-Sound {s} {s'} (is_rejected now h a e) v =
    rw e (record { counts = admit-Inv now s.breaker v.counts; timely = ground arith })
Step-Sound {s} {s'} (returns failed now h busy e) v = rw e (record {
  counts = settle-Inv failed now s.breaker v.counts;
  timely = settle_timely failed now s.breaker (omega (arith, v.timely));
})

-- From a new breaker with positive thresholds, whatever calls overlap: fewer failures are counted
-- than the failure threshold, fewer successes than the success threshold while it is half open, and
-- the last change of state is not in the future.
pub Reach-Sound :
    (failure_threshold success_threshold timeout now : ℕ) {s : System}
    → 0 < failure_threshold
    → 0 < success_threshold
    → Reach
        (record {
          breaker = new_circuit_breaker failure_threshold success_threshold timeout now;
          in_flight = 0;
          clock = now;
        })
        s
    → Sound s
unfolding new_circuit_breaker
Reach-Sound f g timeout now hf hg at_begin = ground arith
Reach-Sound f g timeout now hf hg (and_then r st) =
    Step-Sound st (Reach-Sound f g timeout now hf hg r)
