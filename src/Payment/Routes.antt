-- ===== src/Payment/Routes.antt =====
-- cmd/payment-service/internal/payment/handler.go: `RegisterRoutes`.
use q_pay_flow.Base.{List, [], ◌∷◌}
use q_pay_flow.Http.{Pattern, literal, wildcard}

pub data Handler : Type 0 where
  create_payment get_payment health_check : Handler

abbrev pub register_routes : List (Pattern Handler)
register_routes =
    record { method = "POST"; segments = literal "payments" ∷ []; handler = create_payment }
    ∷ record {
      method = "GET";
      segments = literal "payments" ∷ wildcard ∷ [];
      handler = get_payment;
    }
    ∷ record { method = "GET"; segments = literal "health" ∷ []; handler = health_check }
    ∷ []
