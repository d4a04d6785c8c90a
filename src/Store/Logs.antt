-- ===== src/Store/Logs.antt =====
-- app_updates.go: the durable output of an operation, AppendDeployLog and ListDeployLogs.
pub mod Paging
use space_elevator.Base.{
  ℕ, ◌+◌, max, String, str_eq, Bool, ◌&&◌, ◌||◌, List, [], ◌∷◌, ◌++◌, ltb, leb, if◌then◌else◌, sift,
  tally, take, Bytes, is_empty,
}
use space_elevator.Store.Rows.{DeployLog, Db, constraint, Result, ok, err}
use space_elevator.Store.Operations.{has_id, bounded_error}

abbrev pub log_of : String → DeployLog → Bool
log_of operation_id l = str_eq l.operation_id operation_id

-- SELECT COALESCE(MAX(sequence), 0)
unfoldable pub max_sequence : List DeployLog → ℕ
max_sequence [] = 0
max_sequence (l ∷ ls) = max l.sequence (max_sequence ls)

unfoldable pub append_deploy_log : ℕ → String → String → String → Bytes → Db → Result ℕ × Db
append_deploy_log now operation_id step level message db =
    let text = bounded_error message in
    let sequence = max_sequence (sift (log_of operation_id) db.logs) + 1 in
    let row : DeployLog = record {
      operation_id = operation_id;
      sequence = sequence;
      step = step;
      level = level;
      message = text;
      created_at = now;
    } in
    if is_empty text
    then (ok 0, db)
    else if ltb 0 (tally (has_id operation_id) db.operations)
    then (ok sequence, record db { logs = db.logs ++ row ∷ [] })
    else (err constraint, db)

-- ORDER BY sequence
insert_by_sequence : DeployLog → List DeployLog → List DeployLog
insert_by_sequence l [] = l ∷ []
insert_by_sequence l (x ∷ xs) =
    let rest = insert_by_sequence l xs in if leb l.sequence x.sequence then l ∷ x ∷ xs else x ∷ rest

by_sequence : List DeployLog → List DeployLog
unfolding insert_by_sequence
by_sequence [] = []
by_sequence (l ∷ ls) = insert_by_sequence l (by_sequence ls)

-- `limit <= 0 || limit > 500`; a negative limit is 0 here, and a negative `after` too.
abbrev pub page_limit : ℕ → ℕ
page_limit limit = if leb limit 0 || ltb 500 limit then 500 else limit

-- The lines of the page, and the highest sequence of the operation.
unfoldable pub list_deploy_logs : String → ℕ → ℕ → Db → List DeployLog × ℕ
unfolding by_sequence
list_deploy_logs operation_id after limit db = (
  take (page_limit limit)
      (by_sequence (sift (λ l. log_of operation_id l && ltb after l.sequence) db.logs)),
  max_sequence (sift (log_of operation_id) db.logs),
)
