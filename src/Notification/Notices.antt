-- ===== src/Notification/Notices.antt =====
-- What the notification service writes for the messages of its topic.
use q_pay_flow.Base.{
  ◌≡◌, refl, String, Option, none, some, List, [], ◌∷◌, Bool-cases, inl, inr, All, All-append,
}
use q_pay_flow.Base.Int.{ℤ}
use q_pay_flow.Idempotency.Manager.{Codec}
use q_pay_flow.Kafka.{Context, Read, start}
use q_pay_flow.Kafka.Delivery.{start-keeps}
use q_pay_flow.Payment.Model.{PaymentResultEvent}
use q_pay_flow.Notification.{
  Notice, sms, email, webhook, NotifyEnv, is_finished, account_of, message_text, send_sms,
  trigger_merchant_webhook, webhook_url, secret_key, notification_handler, on_event,
}

module _ (event_json : Codec PaymentResultEvent) (amount_text : ℤ → String)
    (hmac_hex : (key payload : String) → String) where
  -- Each webhook is signed over the body that it carries, for the merchant's address.
  abbrev pub IsSigned : Notice → Type 0
  IsSigned (sms account_id message) = Unit
  IsSigned (email account_id subject body) = Unit
  IsSigned (webhook r) = (r.signature ≡ hmac_hex secret_key r.body) × (r.url ≡ webhook_url)

  on_event-IsSigned :
      (env : NotifyEnv) (ctx : Context) (key : String) (m : Option PaymentResultEvent)
      (log : List Notice)
      → All IsSigned log
      → All IsSigned (on_event event_json amount_text hmac_hex env ctx key m log)
  unfolding trigger_merchant_webhook
  on_event-IsSigned env ctx key none log h = h
  on_event-IsSigned env ctx key (some event) log h = elim (Bool-cases (is_finished event)) [
    | inr other ↦ rw other h
    | inl done ↦
        let account_id = account_of key event in
        let msg = message_text event_json amount_text hmac_hex event in
        let one = All-append IsSigned log (sms account_id msg ∷ []) h (tt, tt) in
        let two =
          All-append IsSigned (send_sms account_id msg log)
            (email account_id "Payment Status Update" msg ∷ []) one (tt, tt) in
        elim (Bool-cases env.request_fails) [
          | inl e ↦ rw (done, e) two
          | inr e ↦ rw (done, e) (All-append IsSigned _ _ two ((refl, refl), tt))
        ]
  ]

  -- Over any sequence of messages, a webhook that the service builds is for the merchant's address and
  -- signed with the shared secret over exactly its body.
  pub start-IsSigned :
      (reads : List (Read NotifyEnv)) (log : List Notice)
      → All IsSigned log
      → All IsSigned (start (notification_handler event_json amount_text hmac_hex) reads log)
  unfolding notification_handler
  start-IsSigned reads log h =
      start-keeps (notification_handler event_json amount_text hmac_hex) (λ w. All IsSigned w)
        (λ env ctx key value headers w. on_event-IsSigned env ctx key (event_json.decode value) w)
        reads log h
