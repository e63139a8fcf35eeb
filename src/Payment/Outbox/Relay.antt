-- ===== src/Payment/Outbox/Relay.antt =====
-- The relay loses no event.
use mathlib.Core.Option
use mathlib.Core.Path.{subst}
use q_pay_flow.Base.{
  ℕ, zero, suc, String, Bool, ◌≡◌, ◌≢◌, refl, sym, ap, ◌∙◌, ◌⊎◌, inl, inr, some, List, [], ◌∷◌,
  ◌++◌, map, Result, ok, err, arith, str_eq, eq_iff, Bool-cases, All, select, take, some_inj, leb,
}
use q_pay_flow.Base.Table.{IsUnique, find_by-map, find_by-key, All-of_find}
use q_pay_flow.Idempotency.Manager.{Codec}
use q_pay_flow.Payment.Model.{OutboxEvent, PaymentCreatedEvent}
use q_pay_flow.Payment.Repository.{
  RepositoryError, find_event, set_processed, insert_by_time, order_by_time, is_pending,
  get_pending_outbox_events, mark_outbox_event_processed,
}
use q_pay_flow.Payment.Outbox.{
  Message, RelayEnv, message, relay_event, relay_events, relay_found, process_batch,
}
use q_pay_flow.Schema.{Tables}

-- The message is among those that were sent.
pub data Sent (m : Message) : List Message → Type 0 where
  was_last : (before : List Message) → Sent m (before ++ m ∷ [])
  was_before : {sent : List Message} → Sent m sent → (last : Message) → Sent m (sent ++ last ∷ [])

-- The queries of a batch only pick rows, in another order.
module _ (P : OutboxEvent → Type 0) where
  All-select :
      (p : OutboxEvent → Bool) (rows : List OutboxEvent) → All P rows → All P (select p rows)
  All-select p [] h = tt
  All-select p (e ∷ rows) h = elim (Bool-cases (p e)) [
    | inl yes_p ↦ rw yes_p (h.0, All-select p rows h.1)
    | inr no_p ↦ rw no_p (All-select p rows h.1)
  ]

  All-insert_by_time :
      (e : OutboxEvent) (rows : List OutboxEvent) → P e → All P rows → All P (insert_by_time e rows)
  All-insert_by_time e [] p h = (p, tt)
  All-insert_by_time e (x ∷ rows) p h = elim (Bool-cases (leb e.created_at x.created_at)) [
    | inl le ↦ rw le (p, h)
    | inr gt ↦ rw gt (h.0, All-insert_by_time e rows p h.1)
  ]

  All-order_by_time : (rows : List OutboxEvent) → All P rows → All P (order_by_time rows)
  All-order_by_time [] h = tt
  All-order_by_time (e ∷ rows) h =
      All-insert_by_time e (order_by_time rows) h.0 (All-order_by_time rows h.1)

  All-take : (n : ℕ) (rows : List OutboxEvent) → All P rows → All P (take n rows)
  All-take zero rows h = tt
  All-take (suc n) [] h = tt
  All-take (suc n) (e ∷ rows) h = (h.0, All-take n rows h.1)

module _ (json : Codec PaymentCreatedEvent) where
  -- The row of an event is as it was, or it is marked and its message was sent.
  abbrev pub Kept : String → OutboxEvent → Tables × List Message → Type 0
  Kept k x (t, sent) =
      (find_event k t.outbox_events ≡ some x)
      ⊎ ((find_event k t.outbox_events ≡ some (set_processed k x)) × Sent (message json x) sent)

  -- Marking one row, as the lookup of another row or of the same one sees it.
  find_event-mark :
      (t : Tables) (id k : String)
      → find_event k (map (set_processed id) t.outbox_events)
        ≡ Option.map (set_processed id) (find_event k t.outbox_events)
  find_event-mark t id k =
      find_by-map (λ (e : OutboxEvent). e.id) (set_processed id) k t.outbox_events
        (λ e. ground arith)

  set_processed_other : (id : String) (e : OutboxEvent) → e.id ≢ id → set_processed id e ≡ e
  set_processed_other id e ne = ground (arith, eq_iff e.id id)

  set_processed_again :
      (id : String) (e : OutboxEvent) → set_processed id (set_processed id e) ≡ set_processed id e
  set_processed_again id e = ground (arith, eq_iff e.id id)

  Kept-sent :
      (k : String) (x : OutboxEvent) (t : Tables) (sent : List Message) (m : Message)
      → Kept k x (t, sent)
      → Kept k x (t, sent ++ m ∷ [])
  Kept-sent k x t sent m (inl same) = inl same
  Kept-sent k x t sent m (inr (marked, s)) = inr (marked, was_before s m)

  marked : Tables → String → Tables
  marked t id = record t { outbox_events = map (set_processed id) t.outbox_events }

  Kept-mark_self :
      (x : OutboxEvent) (t : Tables) (sent : List Message)
      → Kept x.id x (t, sent)
      → Kept x.id x (marked t x.id, sent ++ message json x ∷ [])
  unfolding marked
  Kept-mark_self x t sent (inl same) =
      inr (find_event-mark t x.id x.id ∙ ap (Option.map (set_processed x.id)) same, was_last sent)
  Kept-mark_self x t sent (inr (done, s)) = inr (
    find_event-mark t x.id x.id
        ∙ ap (Option.map (set_processed x.id)) done
        ∙ ap some (set_processed_again x.id x),
    was_last sent,
  )

  Kept-mark_other :
      (id : String) (x : OutboxEvent) (t : Tables) (sent : List Message) (m : Message)
      → x.id ≢ id
      → Kept x.id x (t, sent)
      → Kept x.id x (marked t id, sent ++ m ∷ [])
  unfolding marked
  Kept-mark_other id x t sent m ne (inl same) = inl (
      find_event-mark t id x.id
      ∙ ap (Option.map (set_processed id)) same
      ∙ ap some (set_processed_other id x ne))
  Kept-mark_other id x t sent m ne (inr (done, s)) =
      let kept : (set_processed x.id x).id ≢ id = ground (arith, eq_iff x.id x.id) in
      inr (
        find_event-mark t id x.id
            ∙ ap (Option.map (set_processed id)) done
            ∙ ap some (set_processed_other id (set_processed x.id x) kept),
        was_before s m,
      )

  -- An event of the batch that has the id of the row is the row.
  abbrev Same : OutboxEvent → OutboxEvent → Type 0
  Same x e = e.id ≡ x.id → e ≡ x

  Kept-marked :
      (e x : OutboxEvent) (t : Tables) (sent : List Message)
      → Same x e
      → Kept x.id x (t, sent)
      → Kept x.id x (marked t e.id, sent ++ message json e ∷ [])
  Kept-marked e x t sent same kept = elim (Bool-cases (str_eq x.id e.id)) [
    | inl eq ↦
        let this : x ≡ e = sym (same (sym ((eq_iff x.id e.id).0 eq))) in
        subst (λ (y : OutboxEvent). Kept x.id x (marked t y.id, sent ++ message json y ∷ [])) this
          (Kept-mark_self x t sent kept)
    | inr ne ↦
        Kept-mark_other e.id x t sent (message json e) (ground (arith, eq_iff x.id e.id)) kept
  ]

  relay_event-Kept :
      (env : RelayEnv) (e x : OutboxEvent) (t : Tables) (sent : List Message)
      → Same x e
      → Kept x.id x (t, sent)
      → Kept x.id x (relay_event json env e (t, sent))
  unfolding relay_event mark_outbox_event_processed marked
  relay_event-Kept env e x t sent same kept = elim (Bool-cases (env.publish_fails e.id)) [
    | inl lost ↦ rw lost kept
    | inr taken ↦ elim (Bool-cases (env.mark_fails e.id)) [
      | inl down ↦ rw (taken, down) (Kept-sent x.id x t sent (message json e) kept)
      | inr up ↦ rw (taken, up) (Kept-marked e x t sent same kept)
    ]
  ]

  relay_events-Kept :
      (env : RelayEnv) (events : List OutboxEvent) (x : OutboxEvent) (w : Tables × List Message)
      → All (Same x) events
      → Kept x.id x w
      → Kept x.id x (relay_events json env events w)
  relay_events-Kept env [] x w same kept = kept
  relay_events-Kept env (e ∷ events) x w same kept =
      relay_events-Kept env events x (relay_event json env e w) same.1
        (relay_event-Kept env e x w.0 w.1 same.0 kept)

  rows-Same :
      (t : Tables) (x : OutboxEvent)
      → IsUnique (λ (e : OutboxEvent). e.id) t.outbox_events
      → find_event x.id t.outbox_events ≡ some x
      → All (Same x) t.outbox_events
  rows-Same t x u found =
      All-of_find (λ e. e.id) (Same x) t.outbox_events u
        (λ k e h same.
          let at_k : e.id ≡ k = find_by-key (λ (y : OutboxEvent). y.id) k t.outbox_events h in
          some_inj (sym h ∙ ap (λ j. find_event j t.outbox_events) (sym at_k ∙ same) ∙ found))

  relay_found-Kept :
      (env : RelayEnv) (x : OutboxEvent) (w : Tables × List Message)
      (m : Result RepositoryError (List OutboxEvent))
      → ((events : List OutboxEvent) → m ≡ ok events → All (Same x) events)
      → Kept x.id x w
      → let out = relay_found json env w m in Kept x.id x (out.1, out.2)
  relay_found-Kept env x (t, sent) (err e) same kept = kept
  relay_found-Kept env x (t, sent) (ok events) same kept =
      relay_events-Kept env events x (t, sent) (same events refl) kept

  pending-picked :
      (query_down scan_down : Bool) (t : Tables) (limit : ℕ) {events : List OutboxEvent}
      → get_pending_outbox_events query_down scan_down t limit ≡ ok events
      → take limit (order_by_time (select is_pending t.outbox_events)) ≡ events
  unfolding get_pending_outbox_events
  pending-picked query_down scan_down t limit h = ground arith

  -- Where event ids are unique, one batch of the relay loses no event, whatever call fails: a row
  -- of the outbox is as it was, or it is marked PROCESSED and its message was sent.
  pub process_batch-Kept :
      (env : RelayEnv) (batch : ℕ) (x : OutboxEvent) (t : Tables) (sent : List Message)
      → IsUnique (λ (e : OutboxEvent). e.id) t.outbox_events
      → find_event x.id t.outbox_events ≡ some x
      → let out = process_batch json env batch (t, sent) in Kept x.id x (out.1, out.2)
  unfolding process_batch
  process_batch-Kept env batch x t sent u found =
      relay_found-Kept env x (t, sent)
        (get_pending_outbox_events env.query_fails env.scan_fails t batch)
        (λ events h.
          let picked = pending-picked env.query_fails env.scan_fails t batch h in
          subst (All (Same x)) picked (
            All-take (Same x) batch _ (
              All-order_by_time (Same x) _
                (All-select (Same x) is_pending t.outbox_events (rows-Same t x u found)))))
        (inl found)
