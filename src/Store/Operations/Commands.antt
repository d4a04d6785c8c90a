-- ===== src/Store/Operations/Commands.antt =====
-- Any sequence of writes to app_operations, deletions of apps included, by any number of callers: SQLite serialises them.
use space_elevator.Base.{
  ℕ, ◌≡◌, refl, String, List, [], ◌∷◌, Bytes, Bool, not, str_eq, ◌≤◌, tally, arith, sift,
}
use space_elevator.Store.Rows.{Operation, Db}
use space_elevator.Store.Operations.{
  any_active, active_of, has_id, insert_claim, claimed_row, update_active, finished, advanced,
  stepped, finish_operation, set_operation_status, set_operation_step, heartbeat_operation,
  interrupt_active_operations,
}
use space_elevator.Store.Apps.{delete_app}
use space_elevator.Store.Operations.Exclusive.{
  IsValid, insert_claim-IsValid, update_active-IsValid, interrupt_jobs-IsValid,
}

-- `claim` has any attempt, as another writer may come between its two statements.
pub data Command : Type 0 where
  claim : ℕ → String → ℕ → Operation → Command
  finish : ℕ → String → String → Bytes → Command
  set_status : ℕ → String → String → Command
  set_step : ℕ → String → String → Command
  heartbeat : ℕ → String → Command
  interrupt : ℕ → Command
  -- DeleteApp, which takes the operations of the app along
  delete : String → Command

unfoldable pub execute : Command → Db → Db
execute (claim now fresh attempt op) db = (insert_claim (claimed_row now fresh attempt op) db).1
execute (finish now id status message) db = (finish_operation now id status message db).1
execute (set_status now id status) db = (set_operation_status now id status db).1
execute (set_step now id step) db = (set_operation_step now id step db).1
execute (heartbeat now id) db = (heartbeat_operation now id db).1
execute (interrupt now) db = interrupt_active_operations now db
execute (delete id) db = delete_app id db

unfoldable pub run : List Command → Db → Db
unfolding execute
run [] db = db
run (c ∷ cs) db = run cs (execute c db)

-- The operations that a deletion of an app leaves.
abbrev pub kept_by : String → Operation → Bool
kept_by id o = not (str_eq o.app_id id)

tally-sift-le : (p q : Operation → Bool) (xs : List Operation) → tally q (sift p xs) ≤ tally q xs
unfolding tally sift
tally-sift-le p q [] = omega arith
tally-sift-le p q (x ∷ xs) = ground (arith, tally-sift-le p q xs)

pub finish-update :
    (now : ℕ) (id status : String) (message : Bytes) (db : Db)
    → (finish_operation now id status message db).1
      ≡ update_active id (finished now status message) db
unfolding finish_operation
finish-update now id status message db = ground arith

pub execute-IsValid : (c : Command) (db : Db) → IsValid db → IsValid (execute c db)
unfolding execute set_operation_status set_operation_step heartbeat_operation finished advanced
    stepped interrupt_active_operations delete_app
execute-IsValid (claim now fresh attempt op) db =
    insert_claim-IsValid (claimed_row now fresh attempt op) db
execute-IsValid (finish now id status message) db =
    rw finish-update (update_active-IsValid id _ db (λ o. refl) (λ o. refl))
execute-IsValid (set_status now id status) db =
    update_active-IsValid id _ db (λ o. refl) (λ o. refl)
execute-IsValid (set_step now id step) db = update_active-IsValid id _ db (λ o. refl) (λ o. refl)
execute-IsValid (heartbeat now id) db = update_active-IsValid id _ db (λ o. refl) (λ o. refl)
execute-IsValid (interrupt now) db = interrupt_jobs-IsValid now (sift any_active db.operations) db
execute-IsValid (delete id) db = λ v. record {
  one_active =
      λ a. omega (arith, v.one_active a, tally-sift-le (kept_by id) (active_of a) db.operations);
  one_row = λ i. omega (arith, v.one_row i, tally-sift-le (kept_by id) (has_id i) db.operations);
}

-- Whatever the callers do and however their writes interleave, from tables that hold at most one
-- active operation for each app and one row for each operation id, the tables keep both.
pub run-IsValid : (cs : List Command) (db : Db) → IsValid db → IsValid (run cs db)
unfolding run
run-IsValid [] db v = v
run-IsValid (c ∷ cs) db v = run-IsValid cs (execute c db) (execute-IsValid c db v)
