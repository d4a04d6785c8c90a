-- ===== src/Deployer/Phases.antt =====
-- update.go: the phases of `update` in order. A phase stops at the first call that fails, and names
-- the closure through which the update is then left.
use mathlib.Core.Option
use space_elevator.Base.{
  String, str_eq, Bool, true, false, not, ◌||◌, Option, none, some, List, [], ◌∷◌, ◌++◌,
  if◌then◌else◌, length, ltb, ◌==◌, Bytes, bytes, is_empty, trim_space, insert,
}
use space_elevator.Store.Rows.{App}
use space_elevator.Store.Operations.{advanced}
use space_elevator.Store.Apps.{stored_app}
use space_elevator.Deployer.State.{
  UpdateRequest, AppRelease, World, Answers, Exit, fail, resume, rollback, Phase, call, prepare,
  inspect, stop, remove, activate, backup, migrate, publish_route,
}
use space_elevator.Deployer.Program.{verify_runtime, Answer, ◌>>◌, attempt, attempt_partly, assign}

-- safeSourceRef of source_path.go
has_control : Bytes → Bool
has_control [] = false
has_control (c ∷ s) = c == 0 || c == 13 || c == 10 || has_control s

unfoldable pub safe_source_ref : Bytes → Bytes → Bytes
unfolding has_control
safe_source_ref value fallback =
    let v = trim_space value in
    if is_empty v || ltb 255 (length v) || has_control v then fallback else v

abbrev pub is_nil {ℓ} : {A : Type ℓ} → List A → Bool
is_nil [] = true
is_nil (x ∷ xs) = false

-- an error of a call, behind a prefix
abbrev pub before_release : String → Bytes → Exit
before_release p e = fail false (bytes p ++ e)

abbrev pub with_release : String → Bytes → Exit
with_release p e = fail true (bytes p ++ e)

abbrev pub same : World → World
same w = w

-- the release directory
unfoldable pub make_directories : Answers → Phase
make_directories a = do
  attempt a.make_parent (before_release "") same
  attempt a.clear_release_dir (before_release "clear release directory: ") same
  attempt a.make_release_dir (before_release "create release directory: ") same

-- `candidate := *app`
unfoldable pub begin_candidate : Answers → App → Phase
begin_candidate a app = assign (λ w. record w {
  candidate = record app { status = "updating"; current_release_id = some a.release_id };
})

abbrev edit : (App → App) → World → World
edit f w = record w { candidate = f w.candidate }

-- the ref of the request, else that of the app, else "main"
unfoldable pub chosen_ref : Bytes → Bytes → Bytes
chosen_ref wanted stored =
    let ref = trim_space wanted in
    if not (is_empty ref) then ref else if not (is_empty stored) then stored else bytes "main"

unfoldable pub git_source : Answers → UpdateRequest → App → Phase
unfolding chosen_ref
git_source a req app = do
  attempt a.clone (before_release "git clone: ")
      (edit (λ c. record c { source_ref = a.source_url }))
  attempt a.open_repo (before_release "open cloned repository: ") same
  attempt a.head (before_release "resolve cloned commit: ") (λ w. record w {
    git_commit = a.head_commit;
    candidate = record (w.candidate) { git_ref = chosen_ref req.ref app.git_ref };
  })
  attempt a.resolve_compose (before_release "")
      (edit (λ c. record c { compose_yaml = a.resolved_compose }))

-- SyntheticCompose of archive.go
abbrev pub synthetic_compose : Bytes
synthetic_compose = bytes "services:\n  web:\n    build: .\n    ports:\n      - \"80\"\n"

unless : Bool → Answer → Answer
unless true e = none
unless false e = e

unfoldable pub archive_source : Answers → UpdateRequest → App → Phase
unfolding unless safe_source_ref
archive_source a req app = do
  attempt a.materialize (before_release "materialize source: ") same
  if str_eq app.kind "function"
      then (attempt a.write_function (before_release "function build: ")
          (edit (λ c. record c { compose_yaml = a.function_compose })))
      else do
        attempt
            (unless (not (str_eq app.kind "custom") || a.has_dockerfile)
              (some (bytes "custom update requires a Dockerfile in the source")))
            (before_release "") same
        attempt a.detect_kind (before_release "")
            (edit (λ c. record c { drop_kind = a.detected; compose_yaml = synthetic_compose }))
        attempt (unless (not (str_eq a.detected "static")) a.write_static)
            (before_release "static files: ") same
  assign (edit (λ c. record c { source_ref = safe_source_ref req.source_ref a.archive_base }))

unfoldable pub acquire_source : Answers → UpdateRequest → App → Phase
unfolding git_source archive_source
acquire_source a req app = do
  if str_eq app.source_type "git" then git_source a req app else archive_source a req app
  attempt a.parse (before_release "candidate compose: ") same

-- the previous release and the storage plan
unfoldable pub plan_update : Answers → Phase
plan_update a = do
  attempt a.old_source (before_release "previous release source: ") same
  attempt a.list_storage (before_release "") (λ w. record w { old_storage = w.storage })
  attempt a.plan_storage (before_release "storage preflight: ") same

unfoldable pub new_release : Answers → App → World → AppRelease
new_release a app w = record {
  id = a.release_id;
  app_id = app.id;
  previous_release_id = app.current_release_id;
  source_ref = w.candidate.source_ref;
  git_ref = w.candidate.git_ref;
  git_commit = w.git_commit;
  compose_yaml = w.candidate.compose_yaml;
  image_map = [];
  status = "preparing";
  last_error = [];
  completed_at = none;
}

unfoldable pub create_release : Answers → App → Phase
unfolding new_release
create_release a app =
    attempt a.create_release (before_release "")
      (λ w. record w { release = some (new_release a app w) })

-- the loop of SetSecret over the secrets of the request
unfoldable pub store_secrets : Answers → List (String × Bytes) → Phase
store_secrets a [] = assign same
store_secrets a ((k, v) ∷ secrets) = do
  attempt (a.set_secret k)
      (λ e. fail true (bytes "store secret " ++ (bytes k ++ (bytes ": " ++ e))))
      (λ w. record w { secrets = insert k v w.secrets })
  store_secrets a secrets

unfoldable pub replace_secrets : Answers → UpdateRequest → Phase
unfolding store_secrets unless
replace_secrets a req = do
  if is_nil req.secrets
      then assign same
      else attempt a.get_secrets (with_release "") (λ w. record w { snapshot = some w.secrets })
  store_secrets a req.secrets

-- SetOperationStatus
unfoldable pub set_status : Answers → Answer → (Bytes → Exit) → String → Phase
set_status a answer exit status =
    attempt answer exit (λ w. record w { operation = advanced a.now status w.operation })

abbrev edit_release : (AppRelease → AppRelease) → World → World
edit_release f w = record w { release = Option.map f w.release }

unfoldable pub build_release : Answers → Phase
unfolding set_status
build_release a = do
  set_status a a.set_building (with_release "") "building"
  attempt a.runtime_meta (with_release "load candidate environment: ") same
  call prepare
  attempt a.prepare (with_release "prepare release: ") same
  attempt a.update_release (with_release "") (edit_release (λ r. record r { image_map = a.images }))

unfoldable pub stop_app : Answers → Phase
unfolding set_status
stop_app a = do
  set_status a a.set_backing_up (with_release "") "backing_up"
  call inspect
  attempt a.status_before (with_release "inspect previous runtime: ")
      (λ w. record w { we_stopped = not (str_eq a.status_before_is "stopped") })
  if str_eq a.status_before_is "stopped"
      then assign same
      else do call stop; attempt a.stop (with_release "stop previous runtime: ") same

-- The binds are copied one after the other; `migrate_path` is the one that fails.
unfoldable pub back_up : Answers → Phase
back_up a = do
  call backup
  attempt a.backup_storage (resume (bytes "backup storage")) same
  call migrate
  attempt a.migrate_bind (resume (bytes "migrate bind " ++ a.migrate_path)) same

abbrev pub rolled : String → Bytes → Exit
rolled p e = rollback (bytes p ++ e)

unfoldable pub verify_answer : Answers → Answer
verify_answer a = verify_runtime a.verify_status a.verify_status_is

unfoldable pub cut_over : Answers → Phase
unfolding set_status verify_answer
cut_over a = do
  set_status a a.set_cutting_over (with_release "") "cutting_over"
  call remove
  attempt a.remove_containers (rolled "remove previous containers: ") same
  call activate
  attempt a.activate (rolled "activate release: ") same
  set_status a a.set_verifying (rolled "") "verifying"
  call inspect
  attempt (verify_answer a) (rolled "verify release: ") same

abbrev running_release : Answers → AppRelease → AppRelease
running_release a r = record r { status = "running"; completed_at = some a.now }

abbrev running_candidate : Answers → App → App
running_candidate a c = record c {
  status = "running";
  last_error = [];
  current_release_id = some a.release_id;
}

-- SetCurrentRelease on the row of the app
abbrev point_at : Option String → App → App
point_at id a = record a { current_release_id = id }

unfoldable pub commit_release : Answers → Phase
commit_release a = do
  call publish_route
  attempt a.apply_route (rolled "publish route: ") same
  attempt a.finish_release (rolled "") (edit_release (running_release a))
  attempt a.update_app (rolled "") (λ w. record w {
    candidate = running_candidate a w.candidate;
    app = stored_app a.now (running_candidate a w.candidate) w.app;
  })
  attempt a.set_current (rolled "") (λ w. record w { app = point_at (some a.release_id) w.app })
  attempt_partly a.persist_storage (rolled "") (λ w. record w { storage = a.storage_planned })
      (λ w. record w { storage = a.storage_partly })
