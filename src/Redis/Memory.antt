-- ===== src/Redis/Memory.antt =====
-- A store in memory, which shows that the laws of the interface can be met: each key has a value
-- and the time at which it stops being live.
use q_pay_flow.Base.{
  ℕ, ◌+◌, String, Bool, true, false, Option, none, some, arith, str_eq, ltb, if◌then◌else◌,
  str_eq_refl, str_eq-false,
}
use q_pay_flow.Redis.Interface.{Redis, Laws}

abbrev pub Memory : Type 0
Memory = String → Option (String × ℕ)

-- The value of an entry, if its time has not come.
abbrev live : ℕ → Option (String × ℕ) → Option String
live now none = none
live now (some (v, end)) = if ltb now end then some v else none

abbrev write : String → Option (String × ℕ) → Memory → Memory
write k e m j = if str_eq j k then e else m j

abbrev set_nx_on : Option String → String → String → ℕ → ℕ → Memory → Bool × Memory
set_nx_on none k v ttl now m = (true, write k (some (v, now + ttl)) m)
set_nx_on (some w) k v ttl now m = (false, m)

-- EXPIRE sets the time of a live entry, and leaves nothing of a dead one.
abbrev renewed : Option String → ℕ → Option (String × ℕ)
renewed none end = none
renewed (some v) end = some (v, end)

abbrev pub memory : Redis
memory = record {
  Store = Memory;
  get = λ k now m. live now (m k);
  set = λ k v ttl now m. write k (some (v, now + ttl)) m;
  set_nx = λ k v ttl now m. set_nx_on (live now (m k)) k v ttl now m;
  del = λ k m. write k none m;
  expire = λ k ttl now m. write k (renewed (live now (m k)) (now + ttl)) m;
}

pub memory-Laws : Laws memory
memory-Laws = record {
  get-set_live = λ k v ttl now later m a b. rw (str_eq_refl k) (ground arith);
  get-set_expired = λ k v ttl now later m h. rw (str_eq_refl k) (ground arith);
  get-set_ne = λ j k v ttl now later m h. rw (str_eq-false j k h);
  set_nx_free = λ k v ttl now m h. ground arith;
  set_nx_taken = λ k v w ttl now m h. ground arith;
  get-del_self = λ k later m. rw (str_eq_refl k);
  get-del_ne = λ j k later m h. rw (str_eq-false j k h);
  get-expire_live = λ k v ttl now later m h a b. rw (str_eq_refl k, h) (ground arith);
  get-expire_ne = λ j k ttl now later m h. rw (str_eq-false j k h);
}
