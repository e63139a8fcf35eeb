-- ===== src/Scenarios/Retries.antt =====
-- A call that succeeds at its third attempt, retried.
use q_pay_flow.Base.{
  ℕ, ◌≡◌, ◌≤◌, ◌-◌, ◌+◌, refl, false, ok, err, Result, arith, All, length, ltb, if◌then◌else◌, suc,
}
use q_pay_flow.Base.Int.{pos}
use q_pay_flow.Resilience.Retry.{Surroundings, retry_with_backoff_jitter, backoff_delay}
use q_pay_flow.Resilience.Retry.Delays.{backoff_delay_wraps}
use q_pay_flow.Resilience.Retry.Attempts.{retry_success, retry_sleeps_bounded, states}

-- The state counts the calls.
abbrev third_time : ℕ → ℕ → Result ℕ (Unit {0}) × ℕ
third_time attempt calls = (if ltb attempt 3 then err attempt else ok tt, suc calls)

abbrev quiet : Surroundings
quiet = record {
  done_before = λ attempt. false;
  done_asleep = λ attempt. false;
  random = λ attempt n. n - 1;
}

retry_success_example :
    ((retry_with_backoff_jitter quiet 10 1000 third_time 5 0).0 ≡ ok tt)
    × (length (retry_with_backoff_jitter quiet 10 1000 third_time 5 0).1 ≡ 2)
    × ((retry_with_backoff_jitter quiet 10 1000 third_time 5 0).2
        ≡ states quiet 10 1000 third_time 3 1 0)
retry_success_example =
    retry_success quiet 10 1000 third_time 5 2 0 (omega arith)
      (refl, refl, (refl, refl, (refl, refl, tt))) ((1, refl), ((2, refl), tt)) refl

retry_sleeps_bounded_example :
    All (λ nap. nap ≤ 1000) (retry_with_backoff_jitter quiet 10 1000 third_time 5 0).1
retry_sleeps_bounded_example =
    retry_sleeps_bounded quiet 10 1000 third_time 5 0 (λ k n h. omega arith)

backoff_delay_wraps_example : backoff_delay 10 1000 (65 + 2) ≡ pos 0
backoff_delay_wraps_example = backoff_delay_wraps 10 1000 2
