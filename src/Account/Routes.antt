-- ===== src/Account/Routes.antt =====
-- cmd/account-service/internal/account/handler.go: `RegisterRoutes`.
use q_pay_flow.Base.{List, [], ◌∷◌}
use q_pay_flow.Http.{Pattern, literal, wildcard}

pub data Handler : Type 0 where
  get_account transfer health_check : Handler

abbrev pub register_routes : List (Pattern Handler)
register_routes =
    record { method = "GET"; segments = literal "accounts" ∷ wildcard ∷ []; handler = get_account }
    ∷ record {
      method = "POST";
      segments = literal "accounts" ∷ literal "transfer" ∷ [];
      handler = transfer;
    }
    ∷ record { method = "GET"; segments = literal "health" ∷ []; handler = health_check }
    ∷ []
