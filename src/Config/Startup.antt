-- ===== src/Config/Startup.antt =====
-- The main functions, up to where a service runs: it exits where the database or Redis does not
-- answer, or where its address cannot be served. What there is to connect to, and which addresses
-- `ListenAndServe` can take, is a parameter.
use Prim.Native.String
use q_pay_flow.Base.{
  arith, not, false, ℕ, String, Bool, true, Option, none, some, List, [], ◌∷◌, ◌≡◌, All, ◌<◌, ◌^◌,
  if◌then◌else◌,
}
use q_pay_flow.Base.Decimal.{decimal}
use q_pay_flow.Base.Atoi.{atoi-decimal, decimal-nonempty}
use q_pay_flow.Config.{
  Environment, PostgresConfig, RedisConfig, get_env, get_env_nonempty, server_addr, print_int,
}
use q_pay_flow.Config.Account
use q_pay_flow.Config.Payment
use q_pay_flow.Config.Fraud
use q_pay_flow.Config.Notification
use q_pay_flow.Config.Gateway
use q_pay_flow.Config.Settlement
use q_pay_flow.Config.Wiring.{
  Reader, Writer, outbox_producer, saga_reader, saga_producer, fraud_producer, fraud_consumer,
  notification_consumer,
}

abbrev field : String → String → String → String
field name value more = String.◌++◌ name (String.◌++◌ "=" (String.◌++◌ value more))

-- `NewPostgresDB`: the text that names the database.
abbrev pub dsn : PostgresConfig → String
dsn cfg = field "host" cfg.host (
    field " port" (print_int cfg.port) (
      field " user" cfg.user (
        field " password" cfg.password
          (field " dbname" cfg.db_name (field " sslmode" cfg.ssl_mode "")))))

-- Whether a ping is answered, and whether an address can be listened on: it is free, and its port
-- is one.
pub record Network : Type 0 where
  pub postgres : String → Bool
  pub redis : RedisConfig → Bool
  pub can_listen : String → Bool

-- `os.Exit(1)`, or the address that is served, and what is read from and written to Kafka.
pub data Started : Type 0 where
  exited : Started
  running : Option String → List Reader → List Writer → Started

abbrev pub with_redis : Network → RedisConfig → Started → Started
with_redis net cfg started = if net.redis cfg then started else exited

abbrev pub with_postgres : Network → PostgresConfig → Started → Started
with_postgres net cfg started = if net.postgres (dsn cfg) then started else exited

-- `ListenAndServe` in its goroutine, whose error ends the process.
abbrev pub with_server : Network → String → List Reader → List Writer → Started
with_server net addr readers writers =
    if net.can_listen addr then running (some addr) readers writers else exited

unfoldable pub account_main : Environment → Network → Started
account_main env net =
    let cfg = Account.load env in
    with_postgres net cfg.postgres
      (with_redis net cfg.redis (with_server net (server_addr cfg.server) [] []))

-- What runs on the two writers and the reader is Payment/Outbox and Payment/Saga.
unfoldable pub payment_main : Environment → Network → Started
payment_main env net =
    let cfg = Payment.load env in
    with_postgres net cfg.postgres (
      with_redis net cfg.redis (
        with_server net (server_addr cfg.server) (saga_reader cfg ∷ [])
          (outbox_producer cfg ∷ saga_producer cfg ∷ [])))

unfoldable pub gateway_main : Environment → Network → Started
gateway_main env net =
    let cfg = Gateway.load env in
    with_redis net cfg.redis (with_server net (server_addr cfg.server) [] [])

-- The fraud and notification services serve no address, whatever PORT is.
unfoldable pub fraud_main : Environment → Network → Started
fraud_main env net =
    let cfg = Fraud.load env in
    with_redis net cfg.redis (running none (fraud_consumer cfg ∷ []) (fraud_producer cfg ∷ []))

unfoldable pub notification_main : Environment → Network → Started
notification_main env net =
    let cfg = Notification.load env in running none (notification_consumer cfg ∷ []) []

-- The election and the routes that run beside the server are Leader and Settlement/Service.
unfoldable pub settlement_main : Environment → Network → Started
settlement_main env net =
    let cfg = Settlement.load env in
    with_postgres net cfg.postgres
      (with_redis net cfg.redis (with_server net (server_addr cfg.server) [] []))

abbrev pub listens : Started → Option String
listens exited = none
listens (running addr readers writers) = addr

-- The services with an HTTP server.
abbrev pub servers : Environment → Network → List Started
servers env net =
    gateway_main env net
    ∷ payment_main env net
    ∷ account_main env net
    ∷ settlement_main env net
    ∷ []

abbrev pub has_exited : Started → Bool
has_exited exited = true
has_exited (running addr readers writers) = false

-- What becomes of a service that is to serve an address: it listens there, or it has exited.
pub record ServesAt (net : Network) (addr : String) (started : Started) : Type 0 where
  pub address : listens started ≡ (if net.can_listen addr then some addr else none)
  pub exit : has_exited started ≡ not (net.can_listen addr)

with_server-ServesAt :
    (net : Network) (addr : String) (readers : List Reader) (writers : List Writer)
    → ServesAt net addr (with_server net addr readers writers)
with_server-ServesAt net addr readers writers = record {
  address = ground arith;
  exit = ground arith;
}

-- Where PORT is the decimal text of a number that fits 64 bits, and the database and Redis answer,
-- each service with an HTTP server has a colon and that text as its address: it listens there if
-- that address can be listened on, and otherwise it exits.
pub servers-listen :
    (env : Environment) (net : Network) (n : ℕ)
    → env "PORT" ≡ some (decimal n)
    → n < 2 ^ 63
    → ((name : String) → net.postgres name ≡ true)
    → ((cfg : RedisConfig) → net.redis cfg ≡ true)
    → All (ServesAt net (String.◌++◌ ":" (decimal n))) (servers env net)
unfolding gateway_main payment_main account_main settlement_main Gateway.load Payment.load
    Account.load Settlement.load get_env get_env_nonempty server_addr
servers-listen env net n given small postgres redis =
    let addr = String.◌++◌ ":" (decimal n) in
    rw
      (
        postgres (dsn (Payment.load env).postgres),
        postgres (dsn (Settlement.load env).postgres),
        redis (Gateway.load env).redis,
        redis (Settlement.load env).redis,
        given,
        decimal-nonempty n,
        atoi-decimal n small,
      )
      (
        with_server-ServesAt net addr [] [],
        (
          with_server-ServesAt net addr _ _,
          (with_server-ServesAt net addr [] [], (with_server-ServesAt net addr [] [], tt)),
        ),
      )
