-- ===== src/Fraud/Check.antt =====
-- cmd/fraud-service/internal/fraud/service.go: `CheckPayment`. The clock is read twice; the commands
-- of the pipeline run together at the second reading. The score of a time is a double, whose
-- rounding is not modelled.
use Prim.Native.String
use q_pay_flow.Base.{ℕ, ◌*◌, String, Bool, true, false, if◌then◌else◌, ltb}
use q_pay_flow.Base.Int.{ℤ, pos, ltb_ℤ}
use q_pay_flow.Redis.Interface.{Exchange, answered, unreached, reply_lost}
use q_pay_flow.Redis.SortedSets.{SortedSets}
use q_pay_flow.Redis.SortedSets.Window.{clear}

pub data Reason : Type 0 where
  over_limit passed_with_warning passed : Reason
  velocity_exceeded : ℕ → Reason

-- Amounts are whole ten-thousandths, so this is 10000.0.
abbrev pub max_amount : ℤ
max_amount = pos (10000 * 10000)

abbrev pub minute : ℕ
minute = 60 * 1000000000

abbrev pub velocity_limit : ℕ
velocity_limit = 10

abbrev pub velocity_key : String → String
velocity_key account = String.◌++◌ "fraud:velocity:" account

-- The two readings of the clock.
pub record Clock : Type 0 where
  pub now : ℕ
  pub later : ℕ

module _ (z : SortedSets) where
  open z use {Store}

  -- The transaction: ZREMRANGEBYSCORE, ZADD, ZCARD and EXPIRE. The count, and the store after.
  unfoldable pub velocity_pipeline : Clock → String → Store → ℕ × Store
  unfolding clear
  velocity_pipeline c key s =
      let added = z.zadd key c.now c.now c.later (clear z key minute c.later s) in
      (z.zcard key c.later added, z.expire key (2 * minute) c.later added)

  abbrev pub judge_velocity : ℕ → Bool × Reason
  judge_velocity tx_count =
      if ltb velocity_limit tx_count then (false, velocity_exceeded tx_count) else (true, passed)

  -- Without the server's answer the payment passes.
  abbrev pub after_pipeline : Exchange → Store → ℕ × Store → (Bool × Reason) × Store
  after_pipeline answered s (tx_count, s') = (judge_velocity tx_count, s')
  after_pipeline unreached s (tx_count, s') = ((true, passed_with_warning), s)
  after_pipeline reply_lost s (tx_count, s') = ((true, passed_with_warning), s')

  unfoldable pub check_payment : Exchange → Clock → String → ℤ → Store → (Bool × Reason) × Store
  unfolding velocity_pipeline
  check_payment exchange c account amount s =
      if ltb_ℤ max_amount amount
      then ((false, over_limit), s)
      else after_pipeline exchange s (velocity_pipeline c (velocity_key account) s)
