-- ===== src/Generator/Draw.antt =====
-- What the load generator asks for.
use mathlib.Core.Path.{subst}
use q_pay_flow.Base.{
  ℕ, zero, suc, ◌+◌, ◌≤◌, ◌<◌, ◌≡◌, ◌≢◌, refl, ap, false, Option, some, arith, ◌==◌, Bool-cases,
  Option-cases, inl, inr,
}
use q_pay_flow.Generator.Random.{Source, InRange, crypto_rand_int}
use q_pay_flow.Generator.Load.{Draws, draw_target, draw_accounts, with_source}

crypto_rand_int-lt :
    (draw : Source) (max : ℕ) → InRange draw → 0 < max → crypto_rand_int draw max < max
unfolding crypto_rand_int
crypto_rand_int-lt draw max range h = elim (Option-cases (draw max)) [
  | inl e ↦ ground (arith, e, h)
  | inr (n, e) ↦ ground (arith, e, range max n e)
]

-- An index of the pool.
abbrev pub InPool : ℕ → ℕ → Type 0
InPool pool i = (1 ≤ i) × (i ≤ pool)

drawn-InPool :
    (draw : Source) (pool : ℕ)
    → InRange draw
    → 0 < pool
    → InPool pool (crypto_rand_int draw pool + 1)
drawn-InPool draw pool range h = (omega arith, omega (arith, crypto_rand_int-lt draw pool range h))

draw_target-at_once :
    (fuel : ℕ) (draws : ℕ → Source) (pool src dst : ℕ)
    → (dst == src) ≡ false
    → draw_target fuel draws pool src dst ≡ some dst
unfolding draw_target
draw_target-at_once zero draws pool src dst other = rw other refl
draw_target-at_once (suc fuel) draws pool src dst other = rw other refl

-- A target of the pool that is not the source.
abbrev pub IsTarget : (pool src : ℕ) → Option ℕ → Type 0
IsTarget pool src o = (out : ℕ) × (o ≡ some out) × InPool pool out × (out ≢ src)

module _ (draws : ℕ → Source) (pool src : ℕ) (range : (k : ℕ) → InRange (draws k))
    (some_pool : 0 < pool) where
  draw_target-IsTarget :
      (fuel k dst : ℕ)
      → InPool pool dst
      → k < fuel
      → crypto_rand_int (draws k) pool + 1 ≢ src
      → IsTarget pool src (draw_target fuel draws pool src dst)
  unfolding draw_target
  draw_target-IsTarget zero k dst h lt ne = absurd (omega (arith, lt))
  draw_target-IsTarget (suc fuel) k dst h lt ne =
      let next = crypto_rand_int (draws fuel) pool + 1 in
      let next_in = drawn-InPool (draws fuel) pool (range fuel) some_pool in
      elim (Bool-cases (dst == src)) [
        | inr other ↦ rw other (dst, refl, h, λ e. absurd (ground (arith, other, e)))
        | inl same ↦ elim (Bool-cases (k == fuel)) [
          | inl last ↦
              let now : k ≡ fuel = ground (arith, last) in
              let differs : next ≢ src =
                subst (λ i. crypto_rand_int (draws i) pool + 1 ≢ src) now ne in
              rw same (
                next,
                draw_target-at_once fuel draws pool src next (ground (arith, differs)),
                next_in,
                differs,
              )
          | inr more ↦
              rw same (draw_target-IsTarget fuel k next next_in (ground (arith, lt, more)) ne)
        ]
      ]

-- Where random numbers are in range, and one of the draws that follow is not the source, the indices of
-- a fresh payload are found: two different accounts of the pool.
pub draw_accounts-IsTarget :
    (fuel pool k : ℕ) (d : Draws)
    → InRange d.src
    → InRange d.dst
    → ((i : ℕ) → InRange (d.again i))
    → 0 < pool
    → k < fuel
    → crypto_rand_int (d.again k) pool ≢ crypto_rand_int d.src pool
    → (src : ℕ) × (dst : ℕ) × (draw_accounts fuel pool d ≡ some (src, dst))
      × InPool pool src
      × InPool pool dst
      × (dst ≢ src)
unfolding draw_accounts
draw_accounts-IsTarget fuel pool k d src_range dst_range range h lt ne =
    let src = crypto_rand_int d.src pool + 1 in
    let (dst, found, inside, differs) =
      draw_target-IsTarget d.again pool src range h fuel k (crypto_rand_int d.dst pool + 1)
        (drawn-InPool d.dst pool dst_range h) lt (λ e. ne (omega (arith, e))) in
    (src, dst, ap (with_source src) found, drawn-InPool d.src pool src_range h, inside, differs)
