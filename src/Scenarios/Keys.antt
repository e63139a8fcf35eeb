-- ===== src/Scenarios/Keys.antt =====
-- Idempotency keys and locks on the store in memory.
use q_pay_flow.Base.{◌≡◌, Bool, refl, false, none, some, ok, err, arith, eq_iff}
use q_pay_flow.Redis.Memory.{memory, memory-Laws, Memory}
use q_pay_flow.Redis.Lock.{Lock, lock_not_acquired, acquire_lock, acquire_lock_excludes}
use q_pay_flow.Idempotency.Manager.{start, complete, completed, Site}
use q_pay_flow.Idempotency.Keys.{complete-start_replays}
use q_pay_flow.Scenarios.Codecs.{record_codec, record_codec-RoundTrips}

abbrev empty_store : Memory
empty_store key = none

abbrev all_up : Site → Bool
all_up site = false

complete-start_replays_example :
    start memory record_codec 100 all_up "k" "hash2" 9
      (complete memory record_codec 100 all_up "k" (some "answer") 5 empty_store).1
    ≡ (
      ok (record {
        key = "k";
        status = completed;
        payload_hash = "";
        response_data = "answer";
        created_at = 5;
      }),
      (complete memory record_codec 100 all_up "k" (some "answer") 5 empty_store).1,
    )
complete-start_replays_example =
    complete-start_replays memory record_codec 100 memory-Laws record_codec-RoundTrips all_up
      (λ site. refl) "k" "answer" "hash2" 5 9 empty_store (λ e. ground (arith, eq_iff "k" "", e))
      (omega arith) (omega arith)

abbrev held : Memory
held = (acquire_lock memory false false "t1" "acc" 50 3 empty_store).1

abbrev mine : Lock
mine = record { key = "acc"; token = "t1" }

acquire_lock_excludes_example :
    acquire_lock memory false false "t2" "acc" 50 10 held ≡ (err lock_not_acquired, held)
unfolding acquire_lock
acquire_lock_excludes_example =
    acquire_lock_excludes memory memory-Laws "t1" "t2" "acc" 50 50 3 10 empty_store {l = mine} refl
      (omega arith) (omega arith)

-- The lease of the first holder has run out at 60, and another one took the lock.
abbrev retaken : Memory
retaken = (acquire_lock memory false false "t2" "acc" 50 60 held).1
