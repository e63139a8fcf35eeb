-- ===== src/Account/Model.antt =====
-- cmd/account-service/internal/account/model.go. Times are numbers of clock ticks; amounts are
-- whole numbers of ten-thousandths, the values that the NUMERIC(18, 4) columns hold.
use q_pay_flow.Base.{ℕ, String}
use q_pay_flow.Base.Int.{ℤ}

pub record Account : Type 0 where
  pub id : String
  pub owner_id : String
  pub balance : ℤ
  pub currency : String
  pub version : ℕ
  pub created_at : ℕ
  pub updated_at : ℕ

pub record BalanceLedger : Type 0 where
  pub id : String
  pub account_id : String
  pub amount : ℤ
  pub type : String  -- DEBIT or CREDIT
  pub reference_id : String
  pub created_at : ℕ
