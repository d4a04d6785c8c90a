-- ===== src/Web/Progress.antt =====
-- deploy_progress.go: the checklist of a deployment, from the stages that the deployer reports. Errors
-- of the store are ignored, as in the code; the mutex makes each access to `step` one step.
pub mod Expected
pub mod Stages
pub mod Steps
pub mod Ends
use space_elevator.Base.{
  ℕ, ◌+◌, String, str_eq, Bool, true, false, not, ◌&&◌, ◌||◌, Option, none, some, List, [], ◌∷◌,
  ◌++◌, map, take, if◌then◌else◌, Bytes, bytes, is_empty,
}
use space_elevator.Store.Rows.{App, Operation, DeployStep, Db, Result, ok, err}
use space_elevator.Store.Operations.{get_operation, set_operation_step}
use space_elevator.Store.Logs.{append_deploy_log}
use space_elevator.Store.Steps.{create_deploy_steps, update_deploy_step}

-- deployStepSpec
pub record DeployStepSpec : Type 0 where
  pub key : String
  pub label : String

abbrev step : String → String → DeployStepSpec
step key label = record { key = key; label = label }

abbrev pub deployment_plan : List DeployStepSpec
deployment_plan =
    step "validate" "Validate request"
    ∷ step "source" "Acquire source"
    ∷ step "compose" "Resolve compose"
    ∷ step "build" "Build images"
    ∷ step "backup" "Back up persistent data"
    ∷ step "stop" "Stop previous release"
    ∷ step "rollback" "Restore previous release"
    ∷ step "activate" "Start candidate release"
    ∷ step "verify" "Verify runtime"
    ∷ step "route" "Publish route"
    ∷ step "commit" "Commit deployment"
    ∷ []

pub record DeployProgress : Type 0 where
  pub op : Option Operation
  pub app : App
  pub step : String

-- `p.index`: the place of a key, and its label
index_from : ℕ → String → List DeployStepSpec → Option (ℕ × String)
index_from i key [] = none
index_from i key (s ∷ specs) =
    let rest = index_from (i + 1) key specs in if str_eq s.key key then some (i, s.label) else rest

unfoldable pub index : String → Option (ℕ × String)
unfolding index_from
index key = index_from 0 key deployment_plan

plan_from : ℕ → List DeployStepSpec → List DeployStep
plan_from i [] = []
plan_from i (s ∷ specs) =
    record {
      operation_id = "";
      position = i + 1;
      key = s.key;
      label = s.label;
      status = "";
      error = [];
      started_at = none;
      completed_at = none;
    }
    ∷ plan_from (i + 1) specs

unfoldable pub new_deploy_progress : App → Option Operation → Db → DeployProgress × Db
unfolding plan_from
new_deploy_progress app none db = (record { op = none; app = app; step = "" }, db)
new_deploy_progress app (some o) db =
    let (created, db') = create_deploy_steps o.id (plan_from 0 deployment_plan) db in
    let first : String = elim created [ ok u ↦ "validate" | err e ↦ "" ] in
    (record { op = some o; app = app; step = first }, db')

-- `append`, for an operation
unfoldable pub append : ℕ → String → String → String → Bytes → Db → Db
append now operation_id step level message db =
    if is_empty message then db else (append_deploy_log now operation_id step level message db).1

-- UpdateDeployStep, its result ignored
abbrev pub mark : ℕ → String → String → String → Bytes → Db → Db
mark now operation_id key status message db =
    (update_deploy_step now operation_id key status message db).1

abbrev pub mark_current : ℕ → String → String → String → Bytes → Db → Db
mark_current now operation_id current status message db =
    if str_eq current "" then db else mark now operation_id current status message db

-- the `switch` of `stage`
unfoldable pub step_key : String → String
step_key stage =
    if str_eq stage "preflight"
    then "validate"
    else if str_eq stage "clone"
    then "source"
    else if str_eq stage "deploy"
    then "activate"
    else stage

-- what the loop over the steps before the target makes of one
unfoldable pub passed_status : Bool → String → String → String
passed_status released current key =
    if not released && (str_eq key "backup" || str_eq key "stop" || str_eq key "rollback")
    then "skipped"
    else if str_eq key "rollback" && not (str_eq current "rollback")
    then "skipped"
    else "succeeded"

unfoldable pub mark_passed : ℕ → String → Bool → String → List DeployStepSpec → Db → Db
unfolding passed_status
mark_passed now operation_id released current [] db = db
mark_passed now operation_id released current (s ∷ specs) db =
    mark_passed now operation_id released current specs
      (mark now operation_id s.key (passed_status released current s.key) [] db)

abbrev pub has_release : App → Bool
has_release a = elim a.current_release_id [ none ↦ false | some id ↦ true ]

-- `stage` once the key has been found in the plan at `target`
unfoldable pub enter_step : ℕ → String → App → String → String → ℕ → String → Db → Db
unfolding mark_passed append
enter_step now operation_id app current key target label db =
    let db₁ = mark_current now operation_id current "succeeded" [] db in
    let db₂ =
      mark_passed now operation_id (has_release app) current (take target deployment_plan) db₁ in
    let db₃ = (set_operation_step now operation_id key db₂).1 in
    let db₄ = mark now operation_id key "running" [] db₃ in
    append now operation_id key "info" (bytes "step: " ++ bytes label) db₄

unfoldable pub stage : ℕ → String → DeployProgress → Db → DeployProgress × Db
unfolding enter_step step_key append
stage now name p db = elim p.op [
  | none ↦ (p, db)
  | some o ↦ elim (index (step_key name)) [
    | none ↦ (p, append now o.id p.step "info" (bytes "step: " ++ bytes name) db)
    | some place ↦ if str_eq p.step (step_key name) then (p, db) else (
      record p { step = step_key name },
      enter_step now o.id p.app p.step (step_key name) place.0 place.1 db,
    )
  ]
]

unfoldable pub success : ℕ → DeployProgress → Db → DeployProgress × Db
unfolding append
success now p db = elim p.op [
  | none ↦ (p, db)
  | some o ↦
      let db₁ = mark_current now o.id p.step "succeeded" [] db in
      let db₂ = mark now o.id "commit" "succeeded" [] db₁ in
      let db₃ = (set_operation_step now o.id "commit" db₂).1 in
      (
        record p { step = "commit" },
        append now o.id "commit" "info" (bytes "deployment completed") db₃,
      )
]

abbrev pub is_rolled_back : Result Operation → Bool
is_rolled_back (ok o) = str_eq o.status "rolled_back"
is_rolled_back (err e) = false

unfoldable pub failure : ℕ → Bytes → DeployProgress → Db → Db
unfolding append
failure now text p db = elim p.op [
  | none ↦ db
  | some o ↦
      if is_rolled_back (get_operation o.id db)
      then append now o.id p.step "warn" text (mark_current now o.id p.step "rolled_back" [] db)
      else append now o.id p.step "error" text (mark_current now o.id p.step "failed" text db)
]

-- operationIsActive
unfoldable pub operation_is_active : Option Operation → Bool
operation_is_active none = false
operation_is_active (some o) =
    str_eq o.status "preflighting"
    || str_eq o.status "building"
    || str_eq o.status "backing_up"
    || str_eq o.status "cutting_over"
    || str_eq o.status "verifying"
    || str_eq o.status "rolling_back"

-- operationCanRetry
unfoldable pub operation_can_retry : Option Operation → Bool
operation_can_retry none = false
operation_can_retry (some o) =
    str_eq o.status "failed"
    || str_eq o.status "rolled_back"
    || str_eq o.status "rollback_failed"
    || str_eq o.status "interrupted"
