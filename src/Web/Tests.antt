-- ===== src/Web/Tests.antt =====
-- The limiter and the sink of internal/web on concrete events.
use space_elevator.Base.{
  Bytes, is_empty, if◌then◌else◌, ◌≢◌, All, ℕ, eq_iff, ◌+◌, ◌≤◌, ◌≡◌, refl, true, false, List, [],
  ◌∷◌, map, bytes, length, leb, lookup, none, some, first, str_eq, arith,
}
use space_elevator.Store.Rows.{App, Operation, DeployStep, Db}
use space_elevator.Store.Operations.{is_active}
use space_elevator.Web.Progress.{DeployProgress, stage, operation_is_active, operation_can_retry}
use space_elevator.Web.Progress.{failure, is_rolled_back}
use space_elevator.Web.Progress.Ends.{current_status, failure-Status}
use space_elevator.Store.Operations.{get_operation}
use space_elevator.Web.Progress.Stages.{Status}
use space_elevator.Web.Progress.Expected.{step_of, is_one_of, step_order, entered_status}
use space_elevator.Web.Progress.Steps.{stage-Status, rollback-hides, operation_is_active-store}
use space_elevator.Web.Limiter.{
  LoginLimiter, new_login_limiter, max_tracked, login_lockout_period, allow, fail,
}
use space_elevator.Web.Limiter.Lockout.{
  address, Event, failed, succeeded, run, fail_all, run_bounded, fifth_failure_locks, run-others,
}
use space_elevator.Web.BuildLog.{append, empty_log, since}
use space_elevator.Web.BuildLog.Polling.{
  IsValid, Write, output, stage_change, write_all, produced, since-write_all, stages_unbounded,
}

abbrev events : List Event
events = failed 3 "10.0.0.1" ∷ succeeded "10.0.0.2" ∷ failed 4 "10.0.0.3" ∷ []

run_bounded_example : length (run events new_login_limiter).fails ≤ max_tracked + 1
run_bounded_example = run_bounded events new_login_limiter (omega arith)

unknown : lookup "10.0.0.9" new_login_limiter.fails ≡ none
unfolding lookup
unknown = refl

fifth_failure_locks_example :
    ((now : ℕ)
      → allow now "10.0.0.9" (fail_all "10.0.0.9" (1 ∷ 2 ∷ 3 ∷ 4 ∷ []) new_login_limiter) ≡ true)
    × ((now : ℕ)
        → allow now "10.0.0.9"
            (fail 5 "10.0.0.9" (fail_all "10.0.0.9" (1 ∷ 2 ∷ 3 ∷ 4 ∷ []) new_login_limiter))
          ≡ leb (5 + login_lockout_period) now)
fifth_failure_locks_example =
    fifth_failure_locks "10.0.0.9" (1 ∷ 2 ∷ 3 ∷ 4 ∷ []) 5 new_login_limiter unknown refl

abbrev locked : LoginLimiter
locked = record { fails = ("10.0.0.9", record { count = 0; locked_until = 900 }) ∷ [] }

events-others : All (λ e. address e ≢ "10.0.0.9") events
events-others = (
  λ e. cc ((eq_iff "10.0.0.1" "10.0.0.9").1 e),
  (
    λ e. cc ((eq_iff "10.0.0.2" "10.0.0.9").1 e),
    (λ e. cc ((eq_iff "10.0.0.3" "10.0.0.9").1 e), tt),
  ),
)

run-others_example : allow 50 "10.0.0.9" (run events locked) ≡ allow 50 "10.0.0.9" locked
run-others_example = run-others "10.0.0.9" events locked events-others (omega arith) 50

empty-IsValid : IsValid empty_log
empty-IsValid = record { counted = tt }

abbrev some_writes : List Write
some_writes = output (bytes "pulling") ∷ output [] ∷ stage_change (bytes "deploy") ∷ []

since-write_all_example :
    since 0 (write_all some_writes empty_log)
    ≡ (produced 0 some_writes, 0 + length (produced 0 some_writes))
since-write_all_example = since-write_all empty_log some_writes empty-IsValid (omega arith)

stages_unbounded_example :
    let b' = write_all (map stage_change (bytes "build" ∷ bytes "deploy" ∷ [])) empty_log in
    (length b'.lines ≡ 0 + 2)
    × ((text : Bytes) → is_empty text ≡ false → length (append text b').lines ≤ 500)
stages_unbounded_example = stages_unbounded (bytes "build" ∷ bytes "deploy" ∷ []) empty_log

abbrev site : App
site = record {
  id = "a1";
  name = "blog";
  slug = "blog";
  source_type = "git";
  source_ref = [];
  git_ref = [];
  drop_kind = "";
  compose_yaml = [];
  env = [];
  current_release_id = some "r1";
  status = "updating";
  last_error = [];
  build_mode = "compose";
  builder_image = "";
  build_command = "";
  run_command = "";
  serve_path = "";
  listen_port = 0;
  kind = "web";
  runtime = "";
  runtime_version = "";
  entrypoint = "";
  scale_to_zero = false;
  idle_timeout = 0;
  last_invoked_at = 0;
  created_at = 1;
  updated_at = 1;
}

abbrev update : Operation
update = record {
  id = "o1";
  app_id = "a1";
  operation_type = "update";
  status = "cutting_over";
  current_step = "activate";
  attempt = 1;
  previous_release_id = "";
  candidate_release_id = "";
  heartbeat_at = some 5;
  error = [];
  created_at = 5;
  started_at = some 5;
  completed_at = none;
}

abbrev checked : DeployStep
checked = record {
  operation_id = "o1";
  position = 8;
  key = "activate";
  label = "Start candidate release";
  status = "running";
  error = [];
  started_at = some 6;
  completed_at = none;
}

abbrev tables : Db
tables = record { apps = site ∷ []; operations = update ∷ []; steps = checked ∷ []; logs = [] }

abbrev progress : DeployProgress
progress = record { op = some update; app = site; step = "activate" }

activate-Status : Status "o1" "activate" "running" tables
unfolding first
activate-Status = (checked, refl, refl)

verify_new : str_eq progress.step (step_of "verify") ≡ false
unfolding step_of lookup
verify_new = refl

verify_there : is_one_of (step_of "verify") step_order ≡ true
unfolding step_of lookup
verify_there = refl

stage-Status_example :
    let (p', db') = stage 7 "verify" progress tables in
    (p'.step ≡ step_of "verify")
    × Status "o1" "activate"
        (entered_status site "activate" (step_of "verify") "activate" "running")
        db'
stage-Status_example =
    stage-Status 7 "verify" progress update "activate" "running" tables refl verify_there verify_new
      activate-Status

rollback-hides_example : Status "o1" "activate" "succeeded" (stage 7 "rollback" progress tables).1
rollback-hides_example = rollback-hides 7 progress update "running" tables refl refl activate-Status

operation_is_active-store_example :
    (operation_is_active (some update) ≡ is_active "cutting_over")
    × (operation_can_retry (some update) ≡ true → is_active "cutting_over" ≡ false)
operation_is_active-store_example = operation_is_active-store update

failure-Status_example :
    Status "o1" "activate"
      (current_status "activate"
        (if is_rolled_back (get_operation "o1" tables) then "rolled_back" else "failed")
        "activate"
        "running")
      (failure 9 (bytes "no such image") progress tables)
failure-Status_example =
    failure-Status 9 (bytes "no such image") progress update "activate" "running" tables refl
      activate-Status
