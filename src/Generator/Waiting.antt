-- ===== src/Generator/Waiting.antt =====
-- The loop of the verification ends.
use q_pay_flow.Base.{
  ℕ, zero, suc, ◌+◌, ◌≤◌, ◌<◌, ◌≡◌, refl, true, Option, some, List, arith, ◌⊎◌, inl, inr, ltb,
  Bool-cases, Option-cases,
}
use q_pay_flow.Generator.Verify.{
  PaymentStat, Watch, Stopped, poll, query_payment_stats, all_settled,
}

module _ (w : Watch) (window_start poll_interval deadline : ℕ) where
  -- The deadline has passed, or a query before it found payments, all of them settled.
  abbrev pub IsDone : Stopped → Type 0
  IsDone r =
      (deadline ≤ r.time)
      ⊎ ((t : ℕ) × (t < deadline)
          × (query_payment_stats (w.fails t) window_start (w.tables t)
              ≡ some (r.last_stats, r.outbox_pending))
          × (all_settled r.last_stats ≡ true))

  abbrev pub Ends : Option Stopped → Type 0
  Ends out = (r : Stopped) × (out ≡ some r) × IsDone r

  -- One round, by what the rounds after it do.
  poll-round :
      (fuel now : ℕ) (last : List PaymentStat × ℕ)
      → ((last' : List PaymentStat × ℕ)
          → now < deadline
          → Ends (
              poll fuel w window_start poll_interval deadline
                (now + w.takes now + poll_interval)
                last'))
      → Ends (poll (suc fuel) w window_start poll_interval deadline now last)
  unfolding poll
  poll-round fuel now (last_stats, pending) later = elim (Bool-cases (ltb now deadline)) [
    | inr over ↦ rw over (
      record { time = now; last_stats = last_stats; outbox_pending = pending },
      refl,
      inl (ground (arith, over)),
    )
    | inl early ↦
        let before : now < deadline = ground (arith, early) in
        elim (Option-cases (query_payment_stats (w.fails now) window_start (w.tables now))) [
          | inl failed ↦ rw early (rw failed (later (last_stats, pending) before))
          | inr ((stats, found), answer) ↦ elim (Bool-cases (all_settled stats)) [
            | inl settled ↦ rw early (
                rw answer (
                  rw settled (
                    record { time = now + w.takes now; last_stats = stats; outbox_pending = found },
                    refl,
                    inr (now, before, answer, settled),
                  )))
            | inr open_ones ↦ rw early (rw answer (rw open_ones (later (stats, found) before)))
          ]
        ]
  ]

  -- Where the poll interval is positive, the loop ends, whatever the queries answer and however long
  -- they take: as many rounds as there are ticks up to the deadline, and one more, are enough. It
  -- ends because the deadline has passed, or because a query before it found payments, all settled.
  pub poll-Ends :
      (fuel now : ℕ) (last : List PaymentStat × ℕ)
      → 0 < poll_interval
      → deadline ≤ now + fuel
      → Ends (poll (suc fuel) w window_start poll_interval deadline now last)
  poll-Ends zero now last positive enough =
      poll-round zero now last (λ last' before. absurd (omega (arith, before, enough)))
  poll-Ends (suc fuel) now last positive enough = poll-round (suc fuel) now last (λ last' before.
      poll-Ends fuel (now + w.takes now + poll_interval) last' positive
        (omega (arith, positive, enough)))
