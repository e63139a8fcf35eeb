-- ===== src/Redis/SortedSets.antt =====
-- What the gateway and the fraud service use of a Redis sorted set: ZREMRANGEBYSCORE, ZADD, ZCARD
-- and EXPIRE on one key. `entries` is what a set holds at a time, the newest member first; the
-- order is that of this interface and no command shows it.
pub mod Memory
pub mod Window
pub mod Adding
use q_pay_flow.Base.{
  ℕ, ◌+◌, ◌≤◌, ◌<◌, ◌≡◌, ◌≢◌, String, Bool, not, ◌&&◌, List, [], ◌∷◌, leb, All, select, length,
}

pub record Entry : Type 0 where
  pub score : ℕ
  pub member : ℕ

pub record SortedSets : Type 1 where
  pub Store : Type 0
  pub entries : String → ℕ → Store → List Entry
  pub zrem_range_by_score : String → (lo hi now : ℕ) → Store → Store
  pub zadd : String → (score member now : ℕ) → Store → Store
  pub zcard : String → (now : ℕ) → Store → ℕ
  pub expire : String → (ttl now : ℕ) → Store → Store

abbrev pub is_outside : ℕ → ℕ → Entry → Bool
is_outside lo hi e = not (leb lo e.score && leb e.score hi)

-- The documented behaviour: both ends of a range are removed; a new member is added with its
-- score; a key is gone when its time to live has passed; no command touches another key.
pub record Laws (z : SortedSets) : Type 0 where
  pub entries-zrem :
      (k : String) (lo hi now later : ℕ) (s : z.Store)
      → now ≤ later
      → z.entries k later (z.zrem_range_by_score k lo hi now s)
        ≡ select (is_outside lo hi) (z.entries k later s)
  pub entries-zadd :
      (k : String) (score member now : ℕ) (s : z.Store)
      → All (λ e. e.member ≢ member) (z.entries k now s)
      → z.entries k now (z.zadd k score member now s)
        ≡ record { score = score; member = member } ∷ z.entries k now s
  pub zcard-entries :
      (k : String) (now : ℕ) (s : z.Store) → z.zcard k now s ≡ length (z.entries k now s)
  pub entries-expire_live :
      (k : String) (ttl now later : ℕ) (s : z.Store)
      → now ≤ later
      → later < now + ttl
      → z.entries k later (z.expire k ttl now s) ≡ z.entries k now s
  pub entries-expire_gone :
      (k : String) (ttl now later : ℕ) (s : z.Store)
      → now + ttl ≤ later
      → z.entries k later (z.expire k ttl now s) ≡ []
  pub entries-zrem_ne :
      (j k : String) (lo hi now later : ℕ) (s : z.Store)
      → j ≢ k
      → z.entries j later (z.zrem_range_by_score k lo hi now s) ≡ z.entries j later s
  pub entries-zadd_ne :
      (j k : String) (score member now later : ℕ) (s : z.Store)
      → j ≢ k
      → z.entries j later (z.zadd k score member now s) ≡ z.entries j later s
  pub entries-expire_ne :
      (j k : String) (ttl now later : ℕ) (s : z.Store)
      → j ≢ k
      → z.entries j later (z.expire k ttl now s) ≡ z.entries j later s
