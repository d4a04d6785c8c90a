-- ===== src/Deployer/Redeploy.antt =====
-- deployer.go: redeploy, with the operation that its caller has claimed. Texts of errors are shortened.
pub mod Ended
pub mod Honest
pub mod Silent
use space_elevator.Base.{
  String, str_eq, Bool, true, false, not, ◌&&◌, ◌||◌, Option, none, some, List, [], ◌∷◌, ◌++◌,
  if◌then◌else◌, Bytes, bytes, is_empty, ◌⊎◌, inl, inr,
}
use space_elevator.Store.Rows.{App, Operation}
use space_elevator.Store.Apps.{update_app_status_err}
use space_elevator.Store.Operations.{finish_operation}
use space_elevator.Deployer.Program.{
  Answer, Outcome, next, leave, Program, ◌>>◌, attempt, attempt_partly, assign, verify_runtime,
}
use space_elevator.Deployer.Deploy.State.{
  CustomBuild, StaticBuild, GitRequest, stage, remove, deploy, inspect, sync_route, publish_route,
  remove_route, Event, Site, Answers, happened, events_of, dropped, write_row,
}
use space_elevator.Deployer.Deploy.Run.{deploy_git, own_operation}

-- How the body is left.
pub data Exit : Type 0 where
  -- `return err`
  plain : Bytes → Exit
  -- `return d.recordRedeployError(ctx, a, err)`
  record_error : Bytes → Exit
  -- the calls of the branch, then the status "error" with the error behind a prefix, `return err`
  clean_up : List Event → String → Bytes → Exit

abbrev Phase : Type 0
Phase = Program Site Exit

abbrev bare : String → Bytes → Exit
bare p e = plain (bytes p ++ e)

abbrev recording : String → Bytes → Exit
recording p e = record_error (bytes p ++ e)

abbrev pub same : Site → Site
same s = s

abbrev pub only_if : Bool → Answer → Answer
only_if true e = e
only_if false e = none

abbrev pub is_static_drop : App → Bool
is_static_drop app = str_eq app.source_type "drop" && str_eq app.drop_kind "static"

-- the source, the stored compose file and the storage
unfoldable pub inspect_source : Answers → Phase
inspect_source a = do
  attempt a.current_source (recording "") same
  attempt a.stat_source (recording "source directory missing: ") same
  attempt
      (only_if (not a.is_directory) (some (bytes "source directory is not a regular directory")))
      (recording "") same
  attempt a.parse_stored (recording "stored compose is invalid: ") same
  attempt a.plan_storage (recording "storage preflight: ") same

-- the files that are made from the settings
unfoldable pub regenerate : Answers → App → Phase
regenerate a app = do
  attempt (only_if (is_static_drop app) a.write_static_files) (bare "regenerate static files: ")
      same
  attempt (only_if (str_eq app.build_mode "static") a.write_static_build)
      (bare "static build settings invalid: ") same
  attempt (only_if (str_eq app.kind "function") a.write_function_build)
      (bare "function build settings invalid: ") same
  attempt (only_if (str_eq app.build_mode "custom") a.write_custom_build)
      (bare "custom build settings invalid: ") same
  attempt a.load_env (bare "load env: ") same

-- the containers are replaced
unfoldable pub replace_containers : Answers → Phase
replace_containers a = do
  assign (happened remove)
  attempt a.remove_previous (recording "remove previous deployment: ") same
  assign (events_of (stage "deploy" ∷ deploy ∷ []))
  attempt a.deploy (clean_up (remove ∷ sync_route ∷ []) "deploy failed: ") same
  assign (events_of (stage "verify" ∷ inspect ∷ []))
  attempt (verify_runtime a.status a.status_is)
      (clean_up (remove ∷ sync_route ∷ []) "verify release: ") same
  attempt_partly a.persist_storage (clean_up (remove ∷ []) "persist storage: ")
      (λ s. record s { storage = a.storage_planned }) (λ s. record s { storage = a.storage_partly })

unfoldable pub go_live : Answers → App → Phase
go_live a app = do
  write_row a.mark_running a.error_text (bare "") (update_app_status_err a.now app.id "running" [])
  assign (events_of (stage "route" ∷ publish_route ∷ []))
  attempt a.apply_route (clean_up (remove_route ∷ []) "publish route: ") same

unfoldable pub redeploy_phases : Answers → App → Phase
redeploy_phases a app = do
  write_row a.mark_pending a.error_text (bare "") (update_app_status_err a.now app.id "pending" [])
  inspect_source a
  regenerate a app
  replace_containers a
  go_live a app

-- the status "error" with a text, whose own error is dropped
unfoldable pub error_row : Answers → App → Bytes → Site → Site
error_row a app text s = dropped a.fail_row (update_app_status_err a.now app.id "error" text) s

unfoldable pub redeploy_result : Answers → App → Outcome Exit × Site → Option Bytes × Site
unfolding error_row
redeploy_result a app (next, s) = (none, s)
redeploy_result a app (leave (plain e), s) = (some e, s)
redeploy_result a app (leave (record_error e), s) = (some e, error_row a app e s)
redeploy_result a app (leave (clean_up events p e), s) =
    (some e, error_row a app (bytes p ++ e) (events_of events s))

-- The request that heals a git app from its stored settings.
abbrev stored_custom : App → Option CustomBuild
stored_custom app =
    if str_eq app.build_mode "custom"
    then some (record {
      builder_image = app.builder_image;
      build_command = app.build_command;
      run_command = app.run_command;
      listen_port = app.listen_port;
    })
    else none

abbrev stored_static : App → Option StaticBuild
stored_static app =
    if str_eq app.build_mode "static"
    then some (record {
      builder_image = app.builder_image;
      build_command = app.build_command;
      serve_path = app.serve_path;
      listen_port = app.listen_port;
    })
    else none

unfoldable pub stored_request : App → GitRequest
stored_request app = record {
  name = app.name;
  repo_url = app.source_ref;
  ref = if is_empty app.git_ref then bytes "main" else app.git_ref;
  env = app.env;
  secrets = [];
  build = stored_custom app;
  static_build = stored_static app;
  kind = app.kind;
  runtime = app.runtime;
  runtime_version = app.runtime_version;
  entrypoint = app.entrypoint;
  scale_to_zero = app.scale_to_zero;
  idle_timeout = app.idle_timeout;
}

abbrev pub fails : Answer → Bool
fails none = false
fails (some e) = true

-- A git app whose stored compose file or checkout is unusable goes through the whole pipeline; without
-- a source directory there is nothing to stat.
unfoldable pub needs_pipeline : Answers → App → Bool
needs_pipeline a app =
    str_eq app.source_type "git"
    && (fails a.parse_stored || fails a.current_source || fails a.stat_source)

-- the deferred `finish`: the error text of the operation is empty
unfoldable pub finish_redeploy : Answers → Operation → Option Bytes × Site → Option Bytes × Site
finish_redeploy a o (none, s) =
    (none, dropped a.finish (finish_operation a.now o.id "completed" []) s)
finish_redeploy a o (some e, s) =
    (some e, dropped a.finish (finish_operation a.now o.id "failed" []) s)

-- redeploy of the app that was read as `app`
unfoldable pub redeploy : Answers → App → Operation → Site → Option Bytes × Site
unfolding stored_request needs_pipeline redeploy_result finish_redeploy
redeploy a app o s = finish_redeploy a o (elim (needs_pipeline a app) [
  | true ↦ deploy_git a true (stored_request app) (some o) s
  | false ↦ redeploy_result a app (redeploy_phases a app s)
])

redeploy_claimed : Answers → App → (Bytes ⊎ Operation) × Site → Option Bytes × Site
redeploy_claimed a app (inl e, s) = (some e, s)
redeploy_claimed a app (inr o, s) = redeploy a app o s

-- Redeploy, which claims the app itself
unfoldable pub redeploy_app : Answers → App → Site → Option Bytes × Site
unfolding redeploy_claimed redeploy own_operation
redeploy_app a app s =
    redeploy_claimed a app (own_operation a "app.redeploy" none (record s { app = app }))
