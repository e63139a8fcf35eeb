-- ===== src/Gateway/Windows.antt =====
-- How many requests of a client the gateway lets through.
use q_pay_flow.Base.{
  ℕ, ◌≤◌, ◌<◌, ◌≡◌, ◌≢◌, refl, ap, ◌∙◌, String, Bool, List, [], ◌∷◌, arith, ltb, ◌==◌, ◌&&◌, str_eq,
  str_eq_refl, eq_iff, count_if, if◌then◌else◌, Bool-cases, inl, inr,
}
use q_pay_flow.Redis.SortedSets.{SortedSets, Laws}
use q_pay_flow.Redis.SortedSets.Window.{
  in_window, clear, Tracks, zcard-clear, Tracks-clear, count_if-later,
}
use q_pay_flow.Redis.SortedSets.Adding.{
  Tracks-add, Tracks-same, Tracks-empty, entries-clear_ne, entries-add_ne,
}
use q_pay_flow.Gateway.RateLimit.{sliding_window, whole_seconds}

-- A request of a client, by its key and the time of the gateway's clock.
pub record Arrival : Type 0 where
  pub key : String
  pub now : ℕ

-- No two requests are handled at the same tick, and the clock does not go back.
abbrev pub InOrder : ℕ → List Arrival → Type 0
InOrder last [] = Unit
InOrder last (a ∷ later) = (last < a.now) × InOrder a.now later

-- The reference limiter: it keeps the times at which one client was let through.
abbrev pub spec_admits : (window limit : ℕ) → List ℕ → ℕ → Bool
spec_admits window limit admitted now = ltb (count_if (in_window window now) admitted) limit

abbrev pub spec_note : (window limit : ℕ) → String → Arrival → List ℕ → List ℕ
spec_note window limit k a admitted =
    if str_eq a.key k && spec_admits window limit admitted a.now then a.now ∷ admitted else admitted

abbrev pub spec_run : (window limit : ℕ) → String → List Arrival → List ℕ → List ℕ
spec_run window limit k [] admitted = admitted
spec_run window limit k (a ∷ later) admitted =
    spec_run window limit k later (spec_note window limit k a admitted)

whole_seconds-ge : (window : ℕ) → window ≤ whole_seconds window
whole_seconds-ge window = omega arith

module _ (z : SortedSets) where
  -- The script on one request after another: the times at which the client of a key is let through,
  -- the last one first, and the store.
  abbrev pub note : String → Arrival → List ℕ → ℕ × z.Store → List ℕ × z.Store
  note k a admitted (reply, s) =
      (if str_eq a.key k && reply == 1 then a.now ∷ admitted else admitted, s)

  abbrev pub run : (window limit : ℕ) → String → List Arrival → List ℕ × z.Store → List ℕ × z.Store
  run window limit k [] w = w
  run window limit k (a ∷ later) (admitted, s) =
      run window limit k later (note k a admitted (sliding_window z a.key a.now window limit s))

  module _ (laws : Laws z) (window limit : ℕ) where
    module _ {k : String} {seen : List ℕ} {last : ℕ} {s : z.Store}
        (old : Tracks z k window seen last s) (now : ℕ) (fresh : last < now) where
      -- The script answers as the reference does.
      sliding_window-reply :
          (sliding_window z k now window limit s).0
          ≡ (if spec_admits window limit seen now then 1 else 0)
      unfolding sliding_window
      sliding_window-reply = rw (zcard-clear z laws k window old now (omega arith)) (ground arith)

      sliding_window-Tracks :
          Tracks z k window
            (if spec_admits window limit seen now then now ∷ seen else seen)
            now
            (sliding_window z k now window limit s).1
      unfolding sliding_window
      sliding_window-Tracks =
          rw (zcard-clear z laws k window old now (omega arith))
            (elim (Bool-cases (spec_admits window limit seen now)) [
              | inl free ↦ rw free (
                  Tracks-add z laws k window old (whole_seconds window) now now fresh (omega arith)
                    (whole_seconds-ge window))
              | inr full ↦ rw full (Tracks-clear z laws k window old now (omega arith))
            ])

    sliding_window-Tracks_ne :
        (j k : String) {seen : List ℕ} {last : ℕ} {s : z.Store} (now : ℕ)
        → j ≢ k
        → Tracks z j window seen last s
        → last < now
        → Tracks z j window seen now (sliding_window z k now window limit s).1
    unfolding sliding_window
    sliding_window-Tracks_ne j k {s = s} now ne old h =
        Tracks-same z j window now (omega arith)
          (λ t. elim (Bool-cases (ltb (z.zcard k now (clear z k window now s)) limit)) [
            | inl free ↦ rw free (
                entries-add_ne z laws j k ne window (whole_seconds window) now now t
                  (clear z k window now s)
                ∙ entries-clear_ne z laws j k ne window now t s)
            | inr full ↦ rw full (entries-clear_ne z laws j k ne window now t s)
          ])
          old

    module _ (k : String) {seen : List ℕ} {last : ℕ} {s : z.Store}
        (old : Tracks z k window seen last s) (now : ℕ) (fresh : last < now) where
      -- Of the client itself or of another one: what is noted, and what the set knows after it.
      note-spec :
          (key : String)
          → note k (record { key = key; now = now }) seen (sliding_window z key now window limit s)
            ≡ (
              spec_note window limit k (record { key = key; now = now }) seen,
              (sliding_window z key now window limit s).1,
            )
      note-spec key = elim (Bool-cases (str_eq key k)) [
        | inl e ↦
            rw ((eq_iff key k).0 e, str_eq_refl k, sliding_window-reply old now fresh)
              (ground arith)
        | inr e ↦ rw e
      ]

      note-Tracks :
          (key : String)
          → Tracks z k window
              (spec_note window limit k (record { key = key; now = now }) seen)
              now
              (sliding_window z key now window limit s).1
      note-Tracks key = elim (Bool-cases (str_eq key k)) [
        | inl e ↦ rw ((eq_iff key k).0 e, str_eq_refl k) (sliding_window-Tracks old now fresh)
        | inr e ↦ rw e (
            sliding_window-Tracks_ne k key now (λ same. absurd (ground (arith, eq_iff key k))) old
              fresh)
      ]

    run-spec :
        (k : String) (arrivals : List Arrival) {seen : List ℕ} {last : ℕ} {s : z.Store}
        → Tracks z k window seen last s
        → InOrder last arrivals
        → (run window limit k arrivals (seen, s)).0 ≡ spec_run window limit k arrivals seen
    run-spec k [] old order = refl
    run-spec k (a ∷ later) {seen} {last} {s} old (h, order) =
        ap (λ w. (run window limit k later w).0) (note-spec k old a.now h a.key)
        ∙ run-spec k later (note-Tracks k old a.now h a.key) order

    -- From an empty set, and where no two requests come at the same tick: the script decides
    -- every request of a client as the limiter that remembers all times does. One is let through
    -- exactly if fewer than the limit were, of that client, within the last window; other clients
    -- change nothing.
    pub run-spec_run :
        (k : String) (arrivals : List Arrival) (s : z.Store)
        → ((t : ℕ) → z.entries k t s ≡ [])
        → InOrder 0 arrivals
        → (run window limit k arrivals ([], s)).0 ≡ spec_run window limit k arrivals []
    run-spec_run k arrivals s empty order =
        run-spec k arrivals (Tracks-empty z k window s empty) order

abbrev pub last_time : ℕ → List Arrival → ℕ
last_time last [] = last
last_time last (a ∷ later) = last_time a.now later

-- At most the limit counts, at any time from `last` on.
abbrev Bounded : (window limit : ℕ) → ℕ → List ℕ → Type 0
Bounded window limit last admitted =
    (t : ℕ) → last ≤ t → count_if (in_window window t) admitted ≤ limit

spec_admits-Bounded :
    (window limit last now : ℕ) (admitted : List ℕ)
    → last ≤ now
    → Bounded window limit last admitted
    → Bounded window limit now
        (if spec_admits window limit admitted now then now ∷ admitted else admitted)
spec_admits-Bounded window limit last now admitted h b t le =
    ground (arith, b t, count_if-later window now t admitted le)

spec_run-Bounded :
    (window limit : ℕ) (k : String) (arrivals : List Arrival) (last : ℕ) (admitted : List ℕ)
    → InOrder last arrivals
    → Bounded window limit last admitted
    → Bounded window limit (last_time last arrivals) (spec_run window limit k arrivals admitted)
spec_run-Bounded window limit k [] last admitted order b = b
spec_run-Bounded window limit k (a ∷ later) last admitted (h, order) b =
    elim (Bool-cases (str_eq a.key k)) [
      | inl e ↦ rw e (
          spec_run-Bounded window limit k later a.now _ order
            (spec_admits-Bounded window limit last a.now admitted (omega arith) b))
      | inr e ↦
          rw e
            (spec_run-Bounded window limit k later a.now admitted order (λ t le. b t (omega arith)))
    ]

-- Under the same conditions, however the requests of all clients are mixed, the script lets at
-- most the limit of one client's through within any window that ends when or after the last one
-- is handled.
pub admitted_bounded :
    (z : SortedSets) (laws : Laws z) (window limit : ℕ) (k : String) (arrivals : List Arrival)
    (s : z.Store) (t : ℕ)
    → ((t : ℕ) → z.entries k t s ≡ [])
    → InOrder 0 arrivals
    → last_time 0 arrivals ≤ t
    → count_if (in_window window t) (run z window limit k arrivals ([], s)).0 ≤ limit
admitted_bounded z laws window limit k arrivals s t empty order le =
    rw (run-spec_run z laws window limit k arrivals s empty order)
      (spec_run-Bounded window limit k arrivals 0 [] order (λ t' h. omega arith) t le)
