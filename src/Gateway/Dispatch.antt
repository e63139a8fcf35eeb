-- ===== src/Gateway/Dispatch.antt =====
-- Which service a request to the gateway reaches.
use q_pay_flow.Base.{
  String, false, ◌||◌, ◌≡◌, ◌≢◌, ◌∙◌, List, [], ◌∷◌, str_eq, eq_iff, Bool-cases, inl, inr, arith,
  if◌then◌else◌,
}
use q_pay_flow.Http.{literal, Served, served, method_not_allowed, not_found, dispatch, matches}
use q_pay_flow.Http.Dispatch.{dispatch-target}
use q_pay_flow.Account.Routes as AccountRoutes
use q_pay_flow.Payment.Routes as PaymentRoutes
use q_pay_flow.Gateway.Mux.{Handler, proxy_payment, proxy_account, proxy_health, register_routes}

-- What the patterns amount to.
abbrev pub reached : String → List String → Served Handler
reached m [] = not_found
reached m (s ∷ path) =
    if str_eq s "payments"
    then served proxy_payment
    else if str_eq s "accounts"
    then served proxy_account
    else if matches (literal "health" ∷ []) (s ∷ path)
    then (if str_eq "GET" m || str_eq m "HEAD" then served proxy_health else method_not_allowed)
    else not_found

dispatch-payments :
    (m : String) (path : List String)
    → dispatch register_routes m ("payments" ∷ path) ≡ served proxy_payment
dispatch-payments m [] =
    dispatch-target proxy_payment register_routes m ("payments" ∷ []) (ground arith) ∙ ground arith
dispatch-payments m (s ∷ path) =
    dispatch-target proxy_payment register_routes m ("payments" ∷ s ∷ path) (ground arith)
    ∙ ground arith

dispatch-accounts :
    (m : String) (path : List String)
    → dispatch register_routes m ("accounts" ∷ path) ≡ served proxy_account
dispatch-accounts m [] =
    dispatch-target proxy_account register_routes m ("accounts" ∷ []) (ground arith) ∙ ground arith
dispatch-accounts m (s ∷ path) =
    dispatch-target proxy_account register_routes m ("accounts" ∷ s ∷ path) (ground arith)
    ∙ ground arith

dispatch-others :
    (m s : String) (path : List String)
    → str_eq s "payments" ≡ false
    → str_eq s "accounts" ≡ false
    → dispatch register_routes m (s ∷ path) ≡ reached m (s ∷ path)
dispatch-others m s path p a =
    let sym_p : str_eq "payments" s ≡ false =
      ground (arith, eq_iff s "payments", eq_iff "payments" s) in
    let sym_a : str_eq "accounts" s ≡ false =
      ground (arith, eq_iff s "accounts", eq_iff "accounts" s) in
    dispatch-target proxy_health register_routes m (s ∷ path) (rw (sym_p, sym_a) (ground arith))
    ∙ rw (p, a, sym_p, sym_a) (ground arith)

-- The gateway hands every request below /payments to the payment service and every one below
-- /accounts to the account service, whatever the method; GET and HEAD of /health it answers itself,
-- other methods there with 405, and everything else with 404.
pub dispatch-reached :
    (m : String) (path : List String) → dispatch register_routes m path ≡ reached m path
dispatch-reached m [] =
    dispatch-target proxy_health register_routes m [] (ground arith) ∙ ground arith
dispatch-reached m (s ∷ path) = elim (Bool-cases (str_eq s "payments")) [
  | inl e ↦ rw (e, (eq_iff s "payments").0 e) (dispatch-payments m path)
  | inr e ↦ elim (Bool-cases (str_eq s "accounts")) [
    | inl f ↦ rw (e, f, (eq_iff s "accounts").0 f) (dispatch-accounts m path)
    | inr f ↦ dispatch-others m s path e f
  ]
]

-- A request that the payment service has a handler for, other than its health check, the gateway
-- hands to the payment service.
pub payment_routes_reached :
    (m : String) (path : List String) {h : PaymentRoutes.Handler}
    → dispatch PaymentRoutes.register_routes m path ≡ served h
    → h ≢ PaymentRoutes.health_check
    → dispatch register_routes m path ≡ served proxy_payment
payment_routes_reached m [] e ne = absurd (
    ground (
      arith,
      dispatch-target PaymentRoutes.health_check PaymentRoutes.register_routes m [] (ground arith),
      e,
    ))
payment_routes_reached m (s ∷ path) {h} e ne = elim (Bool-cases (str_eq s "payments")) [
  | inl f ↦ rw ((eq_iff s "payments").0 f) (dispatch-payments m path)
  | inr f ↦
      let sym_f : str_eq "payments" s ≡ false =
        ground (arith, eq_iff s "payments", eq_iff "payments" s) in
      absurd (
        ground (
          arith,
          dispatch-target PaymentRoutes.health_check PaymentRoutes.register_routes m (s ∷ path)
              (rw sym_f (ground arith)),
          e,
          ne,
        ))
]

-- A request that the account service has a handler for, other than its health check, the gateway
-- hands to the account service.
pub account_routes_reached :
    (m : String) (path : List String) {h : AccountRoutes.Handler}
    → dispatch AccountRoutes.register_routes m path ≡ served h
    → h ≢ AccountRoutes.health_check
    → dispatch register_routes m path ≡ served proxy_account
account_routes_reached m [] e ne = absurd (
    ground (
      arith,
      dispatch-target AccountRoutes.health_check AccountRoutes.register_routes m [] (ground arith),
      e,
    ))
account_routes_reached m (s ∷ path) {h} e ne = elim (Bool-cases (str_eq s "accounts")) [
  | inl f ↦ rw ((eq_iff s "accounts").0 f) (dispatch-accounts m path)
  | inr f ↦
      let sym_f : str_eq "accounts" s ≡ false =
        ground (arith, eq_iff s "accounts", eq_iff "accounts" s) in
      absurd (
        ground (
          arith,
          dispatch-target AccountRoutes.health_check AccountRoutes.register_routes m (s ∷ path)
              (rw sym_f (ground arith)),
          e,
          ne,
        ))
]
