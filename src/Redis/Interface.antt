-- ===== src/Redis/Interface.antt =====
-- The commands SET with a time to live, SET NX, GET, DEL and EXPIRE, as the code calls them.
use q_pay_flow.Base.{ℕ, ◌+◌, ◌≤◌, ◌<◌, ◌≡◌, ◌≢◌, String, Bool, true, false, Option, none, some}

pub record Redis : Type 1 where
  pub Store : Type 0
  pub get : String → ℕ → Store → Option String  -- the value that is live at a time
  pub set : String → String → ℕ → ℕ → Store → Store  -- key, value, time to live, now
  pub set_nx : String → String → ℕ → ℕ → Store → Bool × Store
  pub del : String → Store → Store
  pub expire : String → ℕ → ℕ → Store → Store  -- key, time to live, now

-- The documented behaviour: a value is live from its write until its time to live has passed; SET
-- NX writes only where no value is live; DEL removes; no command touches another key.
pub record Laws (r : Redis) : Type 0 where
  pub get-set_live :
      (k v : String) (ttl now later : ℕ) (s : r.Store)
      → now ≤ later
      → later < now + ttl
      → r.get k later (r.set k v ttl now s) ≡ some v
  pub get-set_expired :
      (k v : String) (ttl now later : ℕ) (s : r.Store)
      → now + ttl ≤ later
      → r.get k later (r.set k v ttl now s) ≡ none
  pub get-set_ne :
      (j k v : String) (ttl now later : ℕ) (s : r.Store)
      → j ≢ k
      → r.get j later (r.set k v ttl now s) ≡ r.get j later s
  pub set_nx_free :
      (k v : String) (ttl now : ℕ) (s : r.Store)
      → r.get k now s ≡ none
      → r.set_nx k v ttl now s ≡ (true, r.set k v ttl now s)
  pub set_nx_taken :
      (k v w : String) (ttl now : ℕ) (s : r.Store)
      → r.get k now s ≡ some w
      → r.set_nx k v ttl now s ≡ (false, s)
  pub get-del_self : (k : String) (later : ℕ) (s : r.Store) → r.get k later (r.del k s) ≡ none
  pub get-del_ne :
      (j k : String) (later : ℕ) (s : r.Store) → j ≢ k → r.get j later (r.del k s) ≡ r.get j later s
  pub get-expire_live :
      (k v : String) (ttl now later : ℕ) (s : r.Store)
      → r.get k now s ≡ some v
      → now ≤ later
      → later < now + ttl
      → r.get k later (r.expire k ttl now s) ≡ some v
  pub get-expire_ne :
      (j k : String) (ttl now later : ℕ) (s : r.Store)
      → j ≢ k
      → r.get j later (r.expire k ttl now s) ≡ r.get j later s

-- How a call of the server goes: it is answered, it does not arrive, or it is served and the answer
-- is lost. The caller sees an error in the last two cases.
pub data Exchange : Type 0 where
  answered unreached reply_lost : Exchange

abbrev pub is_answered : Exchange → Bool
is_answered answered = true
is_answered _ = false

-- The store after a call that would leave `after`.
abbrev pub left_by {ℓ} : {S : Type ℓ} → Exchange → S → S → S
left_by unreached before after = before
left_by _ before after = after
