-- ===== src/Redis.antt =====
-- What the services use of a Redis server, which is not part of the repository: string keys with a
-- time to live, on a clock that the caller hands over. `Laws` states the documented behaviour.
pub mod Memory
pub mod Lock
pub mod Interface
pub mod SortedSets
