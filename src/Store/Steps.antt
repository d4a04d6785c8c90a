-- ===== src/Store/Steps.antt =====
-- app_updates.go: the checklist of an operation, from CreateDeploySteps to UpdateDeployStep.
use space_elevator.Base.{
  ℕ, ◌+◌, String, str_eq, Bool, not, ◌&&◌, ◌||◌, Option, none, some, List, [], ◌∷◌, ◌++◌, ltb, leb,
  ◌==◌, if◌then◌else◌, sift, tally, amend, Bytes,
}
use space_elevator.Store.Rows.{DeployStep, Db, constraint, Result, ok, err}
use space_elevator.Store.Operations.{has_id, require_affected}

abbrev pub step_is : String → String → DeployStep → Bool
step_is operation_id key s = str_eq s.operation_id operation_id && str_eq s.key key

abbrev position_is : String → ℕ → DeployStep → Bool
position_is operation_id position s = str_eq s.operation_id operation_id && s.position == position

-- the defaults for the step at index `i`
unfoldable pub new_step : String → ℕ → DeployStep → DeployStep
new_step operation_id i s = record s {
  operation_id = operation_id;
  position = if s.position == 0 then i + 1 else s.position;
  status = if str_eq s.status "" then "pending" else s.status;
}

-- The INSERTs of the transaction; one that hits a key, a position or a missing operation rolls all back.
unfoldable pub insert_steps :
    String → ℕ → List DeployStep → List DeployStep → Option (List DeployStep)
unfolding new_step
insert_steps operation_id i [] rows = some rows
insert_steps operation_id i (s ∷ steps) rows =
    let row = new_step operation_id i s in
    let rest = insert_steps operation_id (i + 1) steps (rows ++ row ∷ []) in
    if ltb 0 (tally (step_is operation_id row.key) rows)
      || ltb 0 (tally (position_is operation_id row.position) rows)
    then none
    else rest

unfoldable pub create_deploy_steps : String → List DeployStep → Db → Result (Unit {0}) × Db
unfolding insert_steps
create_deploy_steps operation_id steps db =
    let kept = sift (λ (s : DeployStep). not (str_eq s.operation_id operation_id)) db.steps in
    if leb (tally (has_id operation_id) db.operations) 0
    then (err constraint, db)
    else elim (insert_steps operation_id 0 steps kept) [
      | none ↦ (err constraint, db)
      | some rows ↦ (ok tt, record db { steps = rows })
    ]

insert_by_position : DeployStep → List DeployStep → List DeployStep
insert_by_position s [] = s ∷ []
insert_by_position s (x ∷ xs) =
    let rest = insert_by_position s xs in if leb s.position x.position then s ∷ x ∷ xs else x ∷ rest

by_position : List DeployStep → List DeployStep
unfolding insert_by_position
by_position [] = []
by_position (s ∷ steps) = insert_by_position s (by_position steps)

unfoldable pub list_deploy_steps : String → Db → List DeployStep
unfolding by_position
list_deploy_steps operation_id db =
    by_position (sift (λ (s : DeployStep). str_eq s.operation_id operation_id) db.steps)

abbrev pub is_over : String → Bool
is_over status =
    str_eq status "succeeded"
    || str_eq status "failed"
    || str_eq status "skipped"
    || str_eq status "rolled_back"

unfoldable pub updated_step : ℕ → String → Bytes → DeployStep → DeployStep
updated_step now status message s = record s {
  status = status;
  error = message;
  started_at = if str_eq s.status "pending" then some now else s.started_at;
  completed_at = if is_over status then some now else none;
}

unfoldable pub update_deploy_step :
    ℕ → String → String → String → Bytes → Db → Result (Unit {0}) × Db
unfolding updated_step
update_deploy_step now operation_id key status message db = (
  require_affected (tally (step_is operation_id key) db.steps),
  record db { steps = amend (step_is operation_id key) (updated_step now status message) db.steps },
)
