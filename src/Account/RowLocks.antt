-- ===== src/Account/RowLocks.antt =====
-- Transfers that run at once, as their row locks see them: each asks for two rows, in the order of
-- `lock_order`, holds what it has until it ends, and waits for a row that another one holds.
use q_pay_flow.Base.{String, Bool, true, false, not, ◌||◌, ◌≡◌, List, [], ◌∷◌, str_eq}
use q_pay_flow.Base.Order.{str_gt}
use q_pay_flow.Account.Service.{lock_order}

-- How far the locks of a transfer are: it asks for the first row, holds it and asks for the second,
-- holds both, or has ended.
pub data LockStage : Type 0 where
  asks_first asks_second holds_both ended : LockStage

pub record Locker : Type 0 where
  pub first : String
  pub second : String
  pub stage : LockStage

abbrev pub locker_of : String × String → LockStage → Locker
locker_of ids stage = record { first = ids.0; second = ids.1; stage = stage }

-- `Transfer` from one account to another, at a stage.
abbrev pub transfer_locker : String → String → LockStage → Locker
transfer_locker from_acc_id to_acc_id stage = locker_of (lock_order from_acc_id to_acc_id) stage

abbrev pub holds_at : LockStage → Locker → String → Bool
holds_at asks_first l k = false
holds_at asks_second l k = str_eq l.first k
holds_at holds_both l k = str_eq l.first k || str_eq l.second k
holds_at ended l k = false

abbrev pub holds : Locker → String → Bool
holds l k = holds_at l.stage l k

abbrev pub is_held : List Locker → String → Bool
is_held [] k = false
is_held (l ∷ ls) k = let more = is_held ls k in holds l k || more

-- Whether a transfer can go on: get the row it asks for, or end.
abbrev pub can_move_at : LockStage → List Locker → Locker → Bool
can_move_at asks_first ls l = not (is_held ls l.first)
can_move_at asks_second ls l = not (is_held ls l.second)
can_move_at holds_both ls l = true
can_move_at ended ls l = false

abbrev pub can_move : List Locker → Locker → Bool
can_move ls l = can_move_at l.stage ls l

-- What `lock_order` gives.
abbrev pub IsOrdered : Locker → Type 0
IsOrdered l = str_gt l.second l.first ≡ true

-- The lockers of transfers between two accounts each, at any stages.
abbrev pub lockers : List ((String × String) × LockStage) → List Locker
lockers [] = []
lockers ((ids, stage) ∷ runs) = transfer_locker ids.0 ids.1 stage ∷ lockers runs

-- Whether one of them can go on.
abbrev pub any_moves : List Locker → List Locker → Bool
any_moves ls [] = false
any_moves ls (l ∷ others) = let more = any_moves ls others in can_move ls l || more
