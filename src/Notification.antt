-- ===== src/Notification.antt =====
-- cmd/notification-service: the handler of main.go and internal/notification/service.go. SMS and
-- mail are log lines of the code; the request of the webhook is built, signed and logged. `%.2f` of
-- an amount, the JSON of an event and HMAC-SHA256 are parameters.
pub mod Notices
use Prim.Native.String
use q_pay_flow.Base.{
  ℕ, String, Bool, not, ◌||◌, Option, none, some, List, [], ◌∷◌, ◌++◌, Result, ok, err, str_eq,
  if◌then◌else◌,
}
use q_pay_flow.Base.Decimal.{decimal}
use q_pay_flow.Base.Int.{ℤ}
use q_pay_flow.Idempotency.Manager.{Codec}
use q_pay_flow.Kafka.{Context, MessageHandler}
use q_pay_flow.Payment.Model.{PaymentResultEvent}
use q_pay_flow.Tracing.{Random, from_context, or_generated}

-- The request of the webhook, with the headers that are set.
pub record WebhookRequest : Type 0 where
  pub url : String
  pub body : String
  pub content_type : String
  pub signature : String
  pub timestamp : String
  pub traceparent : String

-- What the service writes to its log.
pub data Notice : Type 0 where
  sms : (account_id message : String) → Notice
  email : (account_id subject body : String) → Notice
  webhook : WebhookRequest → Notice

-- The clock in seconds, and the places where a random traceparent may be made.
pub record NotifyEnv : Type 0 where
  pub unix_time : ℕ
  pub for_context : Random
  pub for_header : Random
  pub request_fails : Bool  -- `http.NewRequestWithContext`

abbrev pub send_sms : (account_id message : String) → List Notice → List Notice
send_sms account_id message log = log ++ sms account_id message ∷ []

abbrev pub send_email : (account_id subject body : String) → List Notice → List Notice
send_email account_id subject body log = log ++ email account_id subject body ∷ []

abbrev pub webhook_url : String
webhook_url = "https://merchant.example.com/webhooks/payments"

abbrev pub secret_key : String
secret_key = "merchant-shared-secret-key-1234"

-- Only finished payments are told of.
abbrev pub is_finished : PaymentResultEvent → Bool
is_finished event = str_eq event.status "SUCCESS" || str_eq event.status "FAILED"

abbrev pub account_of : (key : String) → PaymentResultEvent → String
account_of key event = if str_eq event.source_account_id "" then key else event.source_account_id

module _ (event_json : Codec PaymentResultEvent) (amount_text : ℤ → String)
    (hmac_hex : (key payload : String) → String) where
  abbrev pub webhook_request : NotifyEnv → Context → (url key payload : String) → WebhookRequest
  webhook_request env ctx url key payload = record {
    url = url;
    body = payload;
    content_type = "application/json";
    signature = hmac_hex key payload;
    timestamp = decimal env.unix_time;
    traceparent = or_generated env.for_header (from_context env.for_context ctx);
  }

  -- `TriggerMerchantWebhook`; the JSON of an event is always made.
  unfoldable pub trigger_merchant_webhook :
      NotifyEnv → Context → (url key : String) → PaymentResultEvent → List Notice → List Notice
  trigger_merchant_webhook env ctx url key event log =
      if env.request_fails
      then log
      else log ++ webhook (webhook_request env ctx url key (event_json.encode event)) ∷ []

  abbrev pub outcome_text : PaymentResultEvent → String
  outcome_text event = String.◌++◌ "Transaction " (
      String.◌++◌ event.id (
        String.◌++◌ " of " (
          String.◌++◌ (amount_text event.amount) (
            String.◌++◌ " "
              (String.◌++◌ event.currency (String.◌++◌ " finished with status: " event.status))))))

  abbrev pub message_text : PaymentResultEvent → String
  message_text event =
      if not (str_eq event.reason "")
      then String.◌++◌ (outcome_text event)
          (String.◌++◌ " (Reason: " (String.◌++◌ event.reason ")"))
      else outcome_text event

  -- Errors of the three are passed over.
  abbrev pub notify :
      NotifyEnv → Context → (key : String) → PaymentResultEvent → List Notice → List Notice
  notify env ctx key event log =
      let account_id = account_of key event in
      let msg = message_text event in
      trigger_merchant_webhook env ctx webhook_url secret_key event
        (send_email account_id "Payment Status Update" msg (send_sms account_id msg log))

  abbrev pub on_event :
      NotifyEnv → Context → (key : String) → Option PaymentResultEvent → List Notice → List Notice
  on_event env ctx key none log = log
  on_event env ctx key (some event) log =
      if is_finished event then notify env ctx key event log else log

  unfoldable pub notification_handler : MessageHandler NotifyEnv (List Notice)
  notification_handler env ctx key value headers log =
      (ok tt, on_event env ctx key (event_json.decode value) log)
