-- ===== src/Generator/Load.antt =====
-- scripts/generator/main.go: the payload of one job of the load generator. Draws are numbered in the
-- order in which the worker makes them; the ratio of retries is a whole number of thousandths.
use q_pay_flow.Base.{
  ℕ, zero, suc, ◌+◌, ◌*◌, String, ◌&&◌, Option, none, some, List, [], ◌∷◌, ◌++◌, ltb, ◌==◌,
  if◌then◌else◌, length,
}
use q_pay_flow.Base.Int.{ℤ, pos}
use q_pay_flow.Generator.Random.{Source, crypto_rand_int, generate_uuid, account_id}

pub record PaymentRequest : Type 0 where
  pub idempotency_key : String
  pub source_account_id : String
  pub target_account_id : String
  pub amount : ℤ
  pub currency : String

-- `requestStore`, oldest first.
abbrev pub RequestStore : Type 0
RequestStore = List PaymentRequest

abbrev pub add : PaymentRequest → RequestStore → RequestStore
add p items = items ++ p ∷ []

abbrev pub item : RequestStore → ℕ → Option PaymentRequest
item [] i = none
item (p ∷ items) zero = some p
item (p ∷ items) (suc i) = item items i

unfoldable pub sample : Source → RequestStore → Option PaymentRequest
sample draw items =
    if length items == 0 then none else item items (crypto_rand_int draw (length items))

-- The loop that draws a target other than the source; `none` where the fuel runs out.
unfoldable pub draw_target : (fuel : ℕ) → (draws : ℕ → Source) → (pool src dst : ℕ) → Option ℕ
draw_target zero draws pool src dst = if dst == src then none else some dst
draw_target (suc fuel) draws pool src dst =
    let rest = draw_target fuel draws pool src (crypto_rand_int (draws fuel) pool + 1) in
    if dst == src then rest else some dst

-- What a job draws; `again k` is the draw of the loop with k more to come.
pub record Draws : Type 0 where
  pub retry : Source
  pub replayed : Source
  pub src : Source
  pub dst : Source
  pub again : ℕ → Source
  pub amount : Source
  pub uuid_bytes : ℕ → ℕ

abbrev pub with_source : ℕ → Option ℕ → Option (ℕ × ℕ)
with_source src none = none
with_source src (some dst) = some (src, dst)

-- The indices of a fresh payload.
unfoldable pub draw_accounts : (fuel pool : ℕ) → Draws → Option (ℕ × ℕ)
draw_accounts fuel pool d =
    let src = crypto_rand_int d.src pool + 1 in
    with_source src (draw_target fuel d.again pool src (crypto_rand_int d.dst pool + 1))

abbrev pub fresh_payload : Draws → String → ℕ × ℕ → PaymentRequest
fresh_payload d currency (src, dst) = record {
  idempotency_key = generate_uuid d.uuid_bytes;
  source_account_id = account_id src;
  target_account_id = account_id dst;
  amount = pos ((crypto_rand_int d.amount 40 + 1) * 5 * 10000);
  currency = currency;
}

abbrev pub after_draw :
    Draws → String → RequestStore → Option (ℕ × ℕ) → Option (PaymentRequest × RequestStore)
after_draw d currency items none = none
after_draw d currency items (some indices) =
    some (fresh_payload d currency indices, add (fresh_payload d currency indices) items)

abbrev pub or_fresh :
    Option PaymentRequest
    → Option (PaymentRequest × RequestStore)
    → RequestStore
    → Option (PaymentRequest × RequestStore)
or_fresh none fresh items = fresh
or_fresh (some p) fresh items = some (p, items)

-- A replay of a stored payload, or a fresh one that is stored.
unfoldable pub next_payload :
    (fuel per_mille pool : ℕ)
    → Draws
    → String
    → RequestStore
    → Option (PaymentRequest × RequestStore)
unfolding sample draw_accounts
next_payload fuel per_mille pool d currency items =
    let fresh = after_draw d currency items (draw_accounts fuel pool d) in
    if ltb 0 per_mille && ltb (crypto_rand_int d.retry 1000) per_mille
    then or_fresh (sample d.replayed items) fresh items
    else fresh
