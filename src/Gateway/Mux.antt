-- ===== src/Gateway/Mux.antt =====
-- cmd/api-gateway: the route of main.go, and `RegisterRoutes` of internal/gateway/handler.go. Each
-- proxied route has the chain of Gateway/Middleware around its proxy.
use q_pay_flow.Base.{List, [], ◌∷◌}
use q_pay_flow.Http.{Pattern, literal, wildcard, rest}

pub data Handler : Type 0 where
  proxy_payment proxy_account proxy_health : Handler

abbrev pub register_routes : List (Pattern Handler)
register_routes =
    record { method = "GET"; segments = literal "health" ∷ []; handler = proxy_health }
    ∷ record { method = "POST"; segments = literal "payments" ∷ []; handler = proxy_payment }
    ∷ record {
      method = "GET";
      segments = literal "payments" ∷ wildcard ∷ [];
      handler = proxy_payment;
    }
    ∷ record { method = ""; segments = literal "payments" ∷ []; handler = proxy_payment }
    ∷ record { method = ""; segments = literal "payments" ∷ rest ∷ []; handler = proxy_payment }
    ∷ record {
      method = "GET";
      segments = literal "accounts" ∷ wildcard ∷ [];
      handler = proxy_account;
    }
    ∷ record {
      method = "POST";
      segments = literal "accounts" ∷ literal "transfer" ∷ [];
      handler = proxy_account;
    }
    ∷ record { method = ""; segments = literal "accounts" ∷ []; handler = proxy_account }
    ∷ record { method = ""; segments = literal "accounts" ∷ rest ∷ []; handler = proxy_account }
    ∷ []
