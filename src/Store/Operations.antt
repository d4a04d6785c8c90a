-- ===== src/Store/Operations.antt =====
-- app_updates.go: the operations that own an app, from ClaimOperation to the queries. SQLite runs
-- each statement whole, so a method is a function on the tables; failures of the disk are left out.
pub mod Exclusive
pub mod Commands
pub mod Terminal
pub mod Ownership
pub mod Release
pub mod Restart
pub mod Newest
use space_elevator.Base.{
  ℕ, ◌+◌, max, String, str_eq, Bool, true, false, ◌&&◌, ◌||◌, Option, none, some, List, [], ◌∷◌,
  ◌++◌, ltb, leb, if◌then◌else◌, length, sift, tally, first, amend, take, Bytes, bytes, trim_space,
}
use space_elevator.Store.Rows.{App, Operation, Db, not_found, conflict, constraint, Result, ok, err}

abbrev pub max_persisted_error : ℕ
max_persisted_error = 4096

-- the three bytes of "…"
abbrev pub ellipsis : Bytes
ellipsis = 0xe2 ∷ 0x80 ∷ 0xa6 ∷ []

unfoldable pub bounded_error : Bytes → Bytes
bounded_error value =
    let t = trim_space value in
    if ltb max_persisted_error (length t) then take max_persisted_error t ++ ellipsis else t

-- the list of statuses in each WHERE clause and in the partial unique index
unfoldable pub is_active : String → Bool
is_active s =
    str_eq s "preflighting"
    || str_eq s "building"
    || str_eq s "backing_up"
    || str_eq s "cutting_over"
    || str_eq s "verifying"
    || str_eq s "rolling_back"

abbrev pub active_of : String → Operation → Bool
active_of app_id o = str_eq o.app_id app_id && is_active o.status

abbrev pub has_id : String → Operation → Bool
has_id id o = str_eq o.id id

abbrev pub active_id : String → Operation → Bool
active_id id o = str_eq o.id id && is_active o.status

-- SELECT COALESCE(MAX(attempt), 0) … WHERE app_id=?
unfoldable pub max_attempt : String → List Operation → ℕ
max_attempt app_id [] = 0
max_attempt app_id (o ∷ os) =
    let rest = max_attempt app_id os in if str_eq o.app_id app_id then max o.attempt rest else rest

-- `fresh` is the new UUID.
abbrev pub claim_id : String → Operation → String
claim_id fresh op = if str_eq op.id "" then fresh else op.id

-- The row that ClaimOperation inserts.
unfoldable pub claimed_row : ℕ → String → ℕ → Operation → Operation
claimed_row now fresh attempt op = record op {
  id = claim_id fresh op;
  status = "preflighting";
  current_step = "";
  attempt = attempt;
  previous_release_id = "";
  candidate_release_id = "";
  heartbeat_at = some now;
  error = [];
  created_at = now;
  started_at = none;
  completed_at = none;
}

-- The INSERT fails on the primary key, on the partial unique index, and on the foreign key; both
-- unique failures are reported as ErrConflict.
unfoldable pub insert_claim : Operation → Db → Result Operation × Db
insert_claim row db =
    if ltb 0 (tally (has_id row.id) db.operations)
      || ltb 0 (tally (active_of row.app_id) db.operations)
    then (err conflict, db)
    else if ltb 0 (tally (λ (a : App). str_eq a.id row.app_id) db.apps)
    then (ok row, record db { operations = db.operations ++ row ∷ [] })
    else (err constraint, db)

-- The attempt is read by a statement of its own. Another writer may come in between, so
-- `insert_claim` takes any attempt, and `claim_operation` is the run with nobody in between.
unfoldable pub claim_operation : ℕ → String → Operation → Db → Result Operation × Db
unfolding insert_claim claimed_row
claim_operation now fresh op db =
    insert_claim (claimed_row now fresh (max_attempt op.app_id db.operations + 1) op) db

-- requireAffected
abbrev pub require_affected : ℕ → Result (Unit {0})
require_affected n = if ltb 0 n then ok tt else err not_found

-- UPDATE app_operations SET f WHERE id=? AND status IN (…)
unfoldable pub update_active : String → (Operation → Operation) → Db → Db
update_active id f db = record db { operations = amend (active_id id) f db.operations }

-- an empty status means completed
abbrev pub end_status : String → String
end_status status = if str_eq status "" then "completed" else status

unfoldable pub finished : ℕ → String → Bytes → Operation → Operation
finished now status message o = record o {
  status = end_status status;
  error = bounded_error message;
  completed_at = some now;
}

unfoldable pub finish_operation : ℕ → String → String → Bytes → Db → Result (Unit {0}) × Db
unfolding update_active finished
finish_operation now id status message db =
    let db' = update_active id (finished now status message) db in
    if ltb 0 (tally (active_id id) db.operations)
    then (ok tt, db')
    else (require_affected (tally (has_id id) db.operations), db')

-- COALESCE(started_at, now)
abbrev pub started : ℕ → Option ℕ → Option ℕ
started now none = some now
started now (some t) = some t

unfoldable pub advanced : ℕ → String → Operation → Operation
advanced now status o = record o {
  status = status;
  heartbeat_at = some now;
  started_at = started now o.started_at;
}

unfoldable pub set_operation_status : ℕ → String → String → Db → Result (Unit {0}) × Db
unfolding update_active advanced
set_operation_status now id status db = (
  require_affected (tally (active_id id) db.operations),
  update_active id (advanced now status) db,
)

unfoldable pub stepped : ℕ → String → Operation → Operation
stepped now step o = record o {
  current_step = step;
  heartbeat_at = some now;
  started_at = started now o.started_at;
}

unfoldable pub set_operation_step : ℕ → String → String → Db → Result (Unit {0}) × Db
unfolding update_active stepped
set_operation_step now id step db =
    (require_affected (tally (active_id id) db.operations), update_active id (stepped now step) db)

unfoldable pub heartbeat_operation : ℕ → String → Db → Result (Unit {0}) × Db
unfolding update_active
heartbeat_operation now id db = (
  require_affected (tally (active_id id) db.operations),
  update_active id (λ o. record o { heartbeat_at = some now }) db,
)

abbrev pub interruption : Bytes
interruption = bytes "deployment interrupted by service restart"

unfoldable pub interrupted_row : ℕ → Operation → Operation
interrupted_row now o = record o {
  status = "interrupted";
  error = interruption;
  completed_at = some now;
}

unfoldable pub interrupted_app : ℕ → App → App
interrupted_app now a = record a { status = "error"; last_error = interruption; updated_at = now }

-- the body of the loop over the active jobs
unfoldable pub interrupt_job : ℕ → Operation → Db → Db
unfolding interrupted_row interrupted_app
interrupt_job now job db = record db {
  operations = amend (has_id job.id) (interrupted_row now) db.operations;
  apps = amend (λ (a : App). str_eq a.id job.app_id) (interrupted_app now) db.apps;
}

unfoldable pub interrupt_jobs : ℕ → List Operation → Db → Db
unfolding interrupt_job
interrupt_jobs now [] db = db
interrupt_jobs now (job ∷ jobs) db = interrupt_jobs now jobs (interrupt_job now job db)

abbrev pub any_active : Operation → Bool
any_active o = is_active o.status

unfoldable pub interrupt_active_operations : ℕ → Db → Db
unfolding interrupt_jobs
interrupt_active_operations now db = interrupt_jobs now (sift any_active db.operations) db

-- ORDER BY created_at DESC, rowid DESC: a row goes before those that are not newer than it.
unfoldable pub insert_newest : Operation → List Operation → List Operation
insert_newest o [] = o ∷ []
insert_newest o (x ∷ xs) =
    let rest = insert_newest o xs in if leb x.created_at o.created_at then o ∷ x ∷ xs else x ∷ rest

newest_after : List Operation → List Operation → List Operation
unfolding insert_newest
newest_after done [] = done
newest_after done (o ∷ os) = newest_after (insert_newest o done) os

unfoldable pub newest_first : List Operation → List Operation
unfolding newest_after
newest_first = newest_after []

abbrev head_or_missing : List Operation → Result Operation
head_or_missing [] = err not_found
head_or_missing (o ∷ os) = ok o

unfoldable pub active_operation : String → Db → Result Operation
unfolding newest_first
active_operation app_id db = head_or_missing (newest_first (sift (active_of app_id) db.operations))

unfoldable pub has_active_operation : String → Db → Bool
unfolding active_operation
has_active_operation app_id db = elim (active_operation app_id db) [ ok o ↦ true | err e ↦ false ]

unfoldable pub has_any_active_operation : Db → Bool
has_any_active_operation db = ltb 0 (tally any_active db.operations)

abbrev found_or_missing : Option Operation → Result Operation
found_or_missing none = err not_found
found_or_missing (some o) = ok o

unfoldable pub get_operation : String → Db → Result Operation
get_operation id db = found_or_missing (first (has_id id) db.operations)

unfoldable pub list_operations : String → Db → List Operation
unfolding newest_first
list_operations app_id db = newest_first (sift (λ o. str_eq o.app_id app_id) db.operations)

-- `limit <= 0 || limit > 200` is read on ℕ: a negative limit is 0.
unfoldable pub list_recent_operations : ℕ → Db → List Operation
unfolding newest_first
list_recent_operations limit db =
    take (if leb limit 0 || ltb 200 limit then 50 else limit) (newest_first db.operations)
