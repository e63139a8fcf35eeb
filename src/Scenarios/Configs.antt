-- ===== src/Scenarios/Configs.antt =====
-- Services that are configured and reached.
use Prim.Native.String
use q_pay_flow.Base.{
  true, ◌≡◌, refl, arith, String, Option, some, none, All, [], ◌∷◌, str_eq, if◌then◌else◌, ◌<◌,
}
use q_pay_flow.Base.Decimal.{decimal}
use q_pay_flow.Config.{Environment, get_env, server_addr}
use q_pay_flow.Config.Account
use q_pay_flow.Config.Startup.{Network, ServesAt, servers, servers-listen}
use q_pay_flow.Http.{dispatch}
use q_pay_flow.Gateway.Mux.{register_routes}
use q_pay_flow.Gateway.Dispatch.{reached, dispatch-reached}

-- An environment that sets the brokers and the port.
abbrev told : String → Environment
told port key =
    if str_eq key "KAFKA_BROKERS"
    then some "kafka:9092"
    else if str_eq key "PORT"
    then some port
    else none

abbrev all_up : Network
all_up = record { postgres = λ name. true; redis = λ cfg. true; can_listen = λ addr. true }

servers-listen_example :
    All (ServesAt all_up (String.◌++◌ ":" (decimal 9001))) (servers (told "9001") all_up)
unfolding decimal
servers-listen_example =
    servers-listen (told "9001") all_up 9001 refl (omega arith) (λ name. refl) (λ cfg. refl)

-- A text that is no number is port 0, with no error.
bad_port : server_addr (Account.load (told "80O2")).server ≡ ":0"
unfolding Account.load get_env server_addr q_pay_flow.Base.Atoi.atoi decimal
bad_port = refl

dispatch-reached_example :
    dispatch register_routes "POST" ("payments" ∷ []) ≡ reached "POST" ("payments" ∷ [])
dispatch-reached_example = dispatch-reached "POST" ("payments" ∷ [])
