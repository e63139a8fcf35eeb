-- ===== src/Schema.antt =====
-- The four tables of scripts/migrations/000001_init_schema.up.sql, in insertion order. The services
-- share one database, so they share this record.
use q_pay_flow.Base.{List}
use q_pay_flow.Account.Model.{Account, BalanceLedger}
use q_pay_flow.Payment.Model.{Payment, OutboxEvent}

pub record Tables : Type 0 where
  pub accounts : List Account
  pub balance_ledgers : List BalanceLedger
  pub payments : List Payment
  pub outbox_events : List OutboxEvent
