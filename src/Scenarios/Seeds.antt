-- ===== src/Scenarios/Seeds.antt =====
-- The seeder run twice, a report of three latencies, and the wait for payments to settle.
use q_pay_flow.Base.{ℕ, refl, ap, false, [], arith}
use q_pay_flow.Base.Decimal.{decimal, padded}
use q_pay_flow.Base.Int.{pos, pos_part}
use q_pay_flow.Account.Ledger.{WellFormed}
use q_pay_flow.Generator.Random.{generate_uuid}
use q_pay_flow.Generator.Seeding.{SeedEnv, seed_account, seeded_account}
use q_pay_flow.Generator.Seeded.{seed_account-again, seed_account-WellFormed, seeded, IsFresh}
use q_pay_flow.Generator.Verify.{Watch, poll}
use q_pay_flow.Generator.Waiting.{Ends, poll-Ends}
use q_pay_flow.Scenarios.Accounts.{books}
use q_pay_flow.Schema.{Tables}

abbrev watch : Watch
watch = record { tables = λ t. books; fails = λ t q. false; takes = λ t. 3 }

poll-Ends_example : Ends watch 0 2 20 (poll 21 watch 0 2 20 0 ([], 0))
poll-Ends_example = poll-Ends watch 0 2 20 20 0 ([], 0) (omega arith) (omega arith)

abbrev seed_env : ℕ → SeedEnv
seed_env byte = record { now = 1; uuid_bytes = λ i. byte; fails = λ site. false }

abbrev no_tables : Tables
no_tables = record { accounts = []; balance_ledgers = []; payments = []; outbox_events = [] }

abbrev once : Tables
once = seeded (seed_env 1) 7 (pos 1000000) "USD" no_tables

no_tables-WellFormed : WellFormed no_tables
no_tables-WellFormed = record {
  unique = tt;
  nonneg = λ k a found. absurd (cc);
  balanced = λ k a found. absurd (cc);
}

no_tables-IsFresh : IsFresh (seed_env 1) 7 (pos 1000000) no_tables
no_tables-IsFresh = record { no_account = refl; no_entries = tt; id_free = refl }

once-WellFormed : WellFormed once
unfolding seed_account
once-WellFormed =
    seed_account-WellFormed (seed_env 1) 7 (pos 1000000) "USD" no_tables-IsFresh (omega arith)
      no_tables-WellFormed

seed_account-again_example : ¬ WellFormed (seed_account (seed_env 2) 7 (pos 2000000) "USD" once).1
unfolding generate_uuid padded decimal
seed_account-again_example =
    seed_account-again (seed_env 2) 7 (pos 2000000) "USD" once
      (seeded_account (seed_env 1) 7 (pos 1000000) "USD") refl refl (λ site. refl)
      (λ e. absurd (ground (arith, ap pos_part e))) once-WellFormed
