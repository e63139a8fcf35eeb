-- ===== src/Config.antt =====
-- cmd/*/internal/config: what a service takes from its environment, which is a function from the
-- names of variables. The error of `strconv.Atoi` is passed over, so that its value is taken as it is.
pub mod Account
pub mod Payment
pub mod Fraud
pub mod Notification
pub mod Gateway
pub mod Settlement
pub mod Wiring
pub mod Startup
use Prim.Native.Char.{code}
use Prim.Native.String
use Prim.Native.String.{[], ◌∷◌}
use mathlib.Core.List
use q_pay_flow.Base.{ℕ, String, Bool, Option, none, some, List, ◌==◌, if◌then◌else◌, str_eq, suc}
use q_pay_flow.Base.Int.{ℤ, pos, negsuc}
use q_pay_flow.Base.Decimal.{decimal}
use q_pay_flow.Base.Atoi.{atoi}
use q_pay_flow.Tracing.Texts.{prepend}

abbrev pub Environment : Type 0
Environment = String → Option String

pub record ServerConfig : Type 0 where
  pub port : ℤ

pub record PostgresConfig : Type 0 where
  pub host : String
  pub port : ℤ
  pub user : String
  pub password : String
  pub db_name : String
  pub ssl_mode : String

pub record RedisConfig : Type 0 where
  pub addr : String
  pub password : String
  pub db : ℤ

abbrev or_default : Option String → String → String
or_default (some val) default_val = val
or_default none default_val = default_val

-- `getEnv` by `os.LookupEnv`: a variable that is set to the empty text is taken.
unfoldable pub get_env : Environment → String → String → String
get_env env key default_val = or_default (env key) default_val

-- `getEnv` of the settlement service, by `os.Getenv`: an empty text counts as not set.
unfoldable pub get_env_nonempty : Environment → String → String → String
get_env_nonempty env key fallback =
    let v = or_default (env key) "" in if str_eq v "" then fallback else v

-- `strings.Split(s, ",")`.
abbrev pub split_comma : String → List String
split_comma [] = List.◌∷◌ "" List.[]
split_comma (c ∷ s) =
    let rest = split_comma s in if code c == b',' then List.◌∷◌ "" rest else prepend c rest

-- `PostgresConfig` of the services that have one; `ssl_key` names the variable of the SSL mode.
abbrev pub postgres_config : (String → String → String) → (ssl_key : String) → PostgresConfig
postgres_config get ssl_key = record {
  host = get "POSTGRES_HOST" "localhost";
  port = atoi (get "POSTGRES_PORT" "5432");
  user = get "POSTGRES_USER" "qpayflow";
  password = get "POSTGRES_PASSWORD" "qpayflow_secret";
  db_name = get "POSTGRES_DB" "qpayflow_db";
  ssl_mode = get ssl_key "disable";
}

abbrev pub redis_config : (String → String → String) → RedisConfig
redis_config get = record {
  addr = get "REDIS_HOST" "localhost:6379";
  password = get "REDIS_PASSWORD" "";
  db = atoi (get "REDIS_DB" "0");
}

-- `%d`.
abbrev pub print_int : ℤ → String
print_int (pos n) = decimal n
print_int (negsuc n) = String.◌++◌ "-" (decimal (suc n))

-- `fmt.Sprintf(":%d", cfg.Server.Port)`, the address that a main function serves.
unfoldable pub server_addr : ServerConfig → String
server_addr server = String.◌++◌ ":" (print_int server.port)
