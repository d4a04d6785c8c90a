-- ===== src/Deployer/Update.antt =====
-- update.go: `update` from the validation of the request to its result.
pub mod Requests
pub mod Rules
pub mod Kept
pub mod Prepared
pub mod Switched
pub mod Failure
pub mod Settled
pub mod Resumed
pub mod RolledBack
pub mod Honest
pub mod Sequence
pub mod Order
pub mod Stranded
use space_elevator.Base.{
  ℕ, String, str_eq, Bool, true, false, not, ◌&&◌, ◌||◌, Option, none, some, List, [], ◌∷◌, ◌++◌,
  if◌then◌else◌, Bytes, bytes, is_empty, trim_space, Dict,
}
use space_elevator.Store.Rows.{App, Operation}
use space_elevator.Store.Apps.{with_status_err}
use space_elevator.Deployer.State.{
  UpdateRequest, World, Answers, Exit, fail, resume, rollback, Phase,
}
use space_elevator.Deployer.Program.{Answer, Outcome, next, leave, ◌>>◌}
use space_elevator.Deployer.Recovery.{
  fail_update, resume_previous, rollback_candidate, finish_update,
}
use space_elevator.Deployer.Phases.{
  make_directories, begin_candidate, acquire_source, plan_update, create_release, replace_secrets,
  build_release, stop_app, back_up, cut_over, commit_release,
}

-- the checks in front of the claim
unfoldable pub validate : UpdateRequest → App → Option Bytes
validate req app =
    if not (is_empty req.archive_path) && not (str_eq app.source_type "drop")
    then some (bytes "is a Git app; --archive is only valid for archive/folder apps")
    else if is_empty req.archive_path && not (str_eq app.source_type "git")
    then some (bytes "is an archive/folder app; provide --archive to update it")
    else if not (is_empty req.archive_path) && not (is_empty (trim_space req.ref))
    then some (bytes "--ref and --archive cannot be used together")
    else none

-- The phases up to the build: nothing that runs is touched.
unfoldable pub prepare_phases : Answers → UpdateRequest → App → Phase
prepare_phases a req app = do
  make_directories a
  begin_candidate a app
  acquire_source a req app
  plan_update a
  create_release a app
  replace_secrets a req
  build_release a

-- The phases that take the app down and up again.
unfoldable pub switch_phases : Answers → Phase
switch_phases a = do stop_app a; back_up a; cut_over a; commit_release a

unfoldable pub all_phases : Answers → UpdateRequest → App → Phase
all_phases a req app = do prepare_phases a req app; switch_phases a

-- The rows when the claim is made and the row of the app has been read as `app`.
abbrev pub claimed_world : App → Operation → Dict Bytes → Dict String → World
claimed_world app operation secrets storage = record {
  app = app;
  operation = operation;
  release = none;
  secrets = secrets;
  storage = storage;
  calls = [];
  snapshot = none;
  secrets_restored = false;
  we_stopped = false;
  candidate = app;
  git_commit = [];
  old_storage = storage;
}

-- `none` is success; else the error that Update returns.
abbrev failed_with : Bytes × World → Option Bytes × World
failed_with (e, w) = (some e, w)

unfoldable pub take_exit : Answers → UpdateRequest → App → Exit → World → Option Bytes × World
take_exit a req app (fail has_release e) w =
    failed_with (fail_update a req a.restore_secrets has_release e none w)
take_exit a req app (resume cause e) w = failed_with (resume_previous a req cause e w)
take_exit a req app (rollback reason) w = failed_with (rollback_candidate a req app reason w)

unfoldable pub conclude :
    Answers → UpdateRequest → App → Outcome Exit × World → Option Bytes × World
unfolding take_exit
conclude a req app (next, w) = (none, finish_update a "completed" [] (record w { snapshot = none }))
conclude a req app (leave e, w) = take_exit a req app e w

-- `update` from the claim on, for a request that `validate` lets pass.
unfoldable pub update : Answers → UpdateRequest → App → World → Option Bytes × World
unfolding conclude
update a req app w = elim a.mark_updating [
  | some e ↦ (some e, finish_update a "failed" e w)
  | none ↦
      conclude a req app
        (all_phases a req app (record w { app = with_status_err a.now "updating" [] w.app }))
]
