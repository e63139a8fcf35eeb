-- ===== src/Generator/Verify.antt =====
-- scripts/generator/main.go: `queryPaymentStats` and the loop of `runVerifyMode`. A latency below 0
-- is 0 here: the report reads those above 0 only.
use q_pay_flow.Base.{
  ℕ, zero, suc, ◌+◌, ◌-◌, String, Bool, true, false, not, ◌&&◌, Option, none, some, List, map, ltb,
  leb, ◌==◌, str_eq, if◌then◌else◌, select, count_if, length,
}
use q_pay_flow.Payment.Model.{Payment, OutboxEvent, status_text}
use q_pay_flow.Generator.Metrics.{Latencies, sort_durations, latencies_of}
use q_pay_flow.Schema.{Tables}

pub record PaymentStat : Type 0 where
  pub status : String
  pub latency : ℕ

abbrev pub payment_stat : Payment → PaymentStat
payment_stat p = record { status = status_text p.status; latency = p.updated_at - p.created_at }

abbrev pub is_in_window : ℕ → Payment → Bool
is_in_window window_start p = leb window_start p.created_at

abbrev pub is_pending_event : ℕ → OutboxEvent → Bool
is_pending_event window_start e = str_eq e.status "PENDING" && leb window_start e.created_at

pub data Query : Type 0 where
  payments_query scan_rows outbox_query : Query

-- `none` for an error of any call.
unfoldable pub query_payment_stats :
    (Query → Bool) → (window_start : ℕ) → Tables → Option (List PaymentStat × ℕ)
query_payment_stats fails window_start t =
    if fails payments_query
    then none
    else if fails scan_rows
    then none
    else if fails outbox_query
    then none
    else some (
      map payment_stat (select (is_in_window window_start) t.payments),
      count_if (is_pending_event window_start) t.outbox_events,
    )

abbrev pub is_settled : PaymentStat → Bool
is_settled s = not (str_eq s.status "PENDING") && not (str_eq s.status "PROCESSING")

abbrev pub all_settled : List PaymentStat → Bool
all_settled stats = ltb 0 (length stats) && count_if is_settled stats == length stats

-- The world as the loop meets it: the tables and the failures at a time, and how long a query takes.
pub record Watch : Type 0 where
  pub tables : ℕ → Tables
  pub fails : ℕ → Query → Bool
  pub takes : ℕ → ℕ

-- What the loop leaves for the report, and the time at which it stops.
pub record Stopped : Type 0 where
  pub time : ℕ
  pub last_stats : List PaymentStat
  pub outbox_pending : ℕ

-- The loop; `none` where the fuel runs out.
unfoldable pub poll :
    (fuel : ℕ)
    → Watch
    → (window_start poll_interval deadline : ℕ) → (now : ℕ) → List PaymentStat × ℕ
    → Option Stopped
unfolding query_payment_stats
poll zero w window_start poll_interval deadline now last = none
poll (suc fuel) w window_start poll_interval deadline now (last_stats, outbox_pending) =
    let later = now + w.takes now in
    if ltb now deadline
    then elim (query_payment_stats (w.fails now) window_start (w.tables now)) [
      | none ↦
          poll fuel w window_start poll_interval deadline (later + poll_interval)
            (last_stats, outbox_pending)
      | some (stats, pending) ↦ elim (all_settled stats) [
        | true ↦ some (record { time = later; last_stats = stats; outbox_pending = pending })
        | false ↦
            poll fuel w window_start poll_interval deadline (later + poll_interval) (stats, pending)
      ]
    ]
    else some (record { time = now; last_stats = last_stats; outbox_pending = outbox_pending })

-- The latencies of `printVerifyReport`.
abbrev pub has_latency : PaymentStat → Bool
has_latency s = is_settled s && ltb 0 s.latency

unfoldable pub verify_report : List PaymentStat → Option Latencies
verify_report stats =
    let settled = map (λ (s : PaymentStat). s.latency) (select has_latency stats) in
    if length settled == 0 then none else some (latencies_of (sort_durations settled))
