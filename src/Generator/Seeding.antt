-- ===== src/Generator/Seeding.antt =====
-- scripts/generator/main.go: `seedAccount`, a transaction of two inserts, and the jobs of
-- `runDBSeeder`, one transaction after another in the order in which the workers commit.
use Prim.Native.String
use q_pay_flow.Base.{
  ℕ, suc, ◌+◌, ◌*◌, String, Bool, true, false, Option, List, [], ◌∷◌, ◌++◌, ltb, if◌then◌else◌,
}
use q_pay_flow.Base.Int.{ℤ, pos}
use q_pay_flow.Base.Table.{find_by}
use q_pay_flow.Account.Model.{Account, BalanceLedger}
use q_pay_flow.Account.Repository.{find_account, is_found}
use q_pay_flow.Generator.Random.{Source, crypto_rand_int, generate_uuid, account_id, owner_id}
use q_pay_flow.Schema.{Tables}

pub data Site : Type 0 where
  begin insert_account insert_ledger commit : Site

pub record SeedEnv : Type 0 where
  pub now : ℕ
  pub uuid_bytes : ℕ → ℕ
  pub fails : Site → Bool

abbrev pub seeded_account : SeedEnv → ℕ → ℤ → String → Account
seeded_account env idx balance currency = record {
  id = account_id idx;
  owner_id = owner_id idx;
  balance = balance;
  currency = currency;
  version = 1;
  created_at = env.now;
  updated_at = env.now;
}

abbrev pub seeded_entry : SeedEnv → ℕ → ℤ → BalanceLedger
seeded_entry env idx balance = record {
  id = String.◌++◌ "ldg_init_" (generate_uuid env.uuid_bytes);
  account_id = account_id idx;
  amount = balance;
  type = "CREDIT";
  reference_id = "system_init";
  created_at = env.now;
}

-- `ON CONFLICT (id) DO NOTHING`, of either table. The account of the entry is there.
abbrev pub add_account : Account → Tables → Tables
add_account a t =
    if is_found (find_account a.id t.accounts)
    then t
    else record t { accounts = t.accounts ++ a ∷ [] }

abbrev pub find_entry : String → List BalanceLedger → Option BalanceLedger
find_entry = find_by (λ e. e.id)

abbrev pub add_entry : BalanceLedger → Tables → Tables
add_entry e t =
    if is_found (find_entry e.id t.balance_ledgers)
    then t
    else record t { balance_ledgers = t.balance_ledgers ++ e ∷ [] }

-- Each error rolls back; so does a commit that fails.
abbrev pub end_seeding : (Site → Bool) → (before after : Tables) → Bool × Tables
end_seeding fails before after =
    if fails begin
    then (false, before)
    else if fails insert_account
    then (false, before)
    else if fails insert_ledger
    then (false, before)
    else if fails commit
    then (false, before)
    else (true, after)

unfoldable pub seed_account : SeedEnv → ℕ → ℤ → String → Tables → Bool × Tables
seed_account env idx balance currency t = end_seeding env.fails t (
    add_entry (seeded_entry env idx balance)
      (add_account (seeded_account env idx balance currency) t))

pub record SeedJob : Type 0 where
  pub index : ℕ
  pub low_balance : Bool

-- `10_000.0000`, or one of 50, 100, 150 and 200, in ten-thousandths.
abbrev pub job_balance : Source → SeedJob → ℤ
job_balance draw job =
    if job.low_balance then pos ((crypto_rand_int draw 4 + 1) * 50 * 10000) else pos (10000 * 10000)

abbrev pub seed_job : (low_balance_pct : ℕ) → Source → ℕ → SeedJob
seed_job low_balance_pct draw i = record {
  index = i;
  low_balance = ltb (crypto_rand_int draw 100) low_balance_pct;
}

-- What a worker does for each job it takes; the number of successes, and the tables.
pub record Taken : Type 0 where
  pub job : SeedJob
  pub env : SeedEnv
  pub draw : Source

abbrev pub count_success : Bool × Tables → ℕ → ℕ × Tables
count_success (ok, t) success = ((if ok then suc success else success), t)

unfoldable pub run_jobs : String → List Taken → ℕ × Tables → ℕ × Tables
unfolding seed_account
run_jobs currency [] w = w
run_jobs currency (k ∷ taken) (success, t) =
    run_jobs currency taken
      (count_success (seed_account k.env k.job.index (job_balance k.draw k.job) currency t) success)
