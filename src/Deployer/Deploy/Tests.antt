-- ===== src/Deployer/Deploy/Tests.antt =====
-- Deploys and redeploys on concrete answers.
use space_elevator.Base.{
  ◌≡◌, refl, true, false, some, none, [], ◌∷◌, Bytes, bytes, arith, tally, first,
}
use space_elevator.Store.Rows.{App, Operation, Db}
use space_elevator.Store.Operations.{is_active, get_operation}
use space_elevator.Store.Operations.Exclusive.{IsValid}
use space_elevator.Store.Apps.Rows.{HasRow}
use space_elevator.Deployer.Deploy.State.{GitRequest, Site, Answers}
use space_elevator.Deployer.Deploy.Request.{new_app, previous, prev_release}
use space_elevator.Deployer.Deploy.Run.{deploy_git, app_operation}
use space_elevator.Deployer.Deploy.Live.{release_after}
use space_elevator.Deployer.Deploy.Ends.{Ends, Runs}
use space_elevator.Deployer.Deploy.Honest.{Verdict, deploy_git-Verdict}
use space_elevator.Deployer.Redeploy.{redeploy, needs_pipeline}
use space_elevator.Deployer.Redeploy.Honest.{Verdict', redeploy-Verdict}
use space_elevator.Deployer.Redeploy.Silent.{Pending, redeploy-silent}

-- Every call works.
abbrev fine : Answers
fine = record {
  now = 9;
  app_id = "a1";
  operation_id = "o1";
  error_text = λ e. bytes "store";
  valid_url = none;
  normalized_url = bytes "https://example.org/blog.git";
  find_app = none;
  static_valid = none;
  function_valid = none;
  store_row = none;
  claim = none;
  make_source_dir = none;
  clear_source_dir = none;
  clone = none;
  resolve_compose = none;
  has_compose = true;
  resolved_compose = bytes "services: {}";
  parse = none;
  plan_storage = none;
  store_compose = none;
  get_secrets = none;
  set_secret = λ k. none;
  load_env = none;
  current_source = none;
  stat_source = none;
  is_directory = true;
  parse_stored = none;
  mark_pending = none;
  write_static_files = none;
  write_static_build = none;
  write_function_build = none;
  write_custom_build = none;
  remove_previous = none;
  deploy = none;
  status = none;
  status_is = "running";
  persist_storage = none;
  storage_planned = [];
  storage_partly = [];
  clear_release = none;
  mark_running = none;
  apply_route = none;
  restore_secrets = none;
  secrets_after_failure = [];
  fail_row = none;
  finish = none;
}

abbrev request : GitRequest
request = record {
  name = "blog";
  repo_url = bytes "https://example.org/blog";
  ref = [];
  env = [];
  secrets = ("KEY", bytes "v") ∷ [];
  build = none;
  static_build = none;
  kind = "";
  runtime = "";
  runtime_version = "";
  entrypoint = "";
  scale_to_zero = false;
  idle_timeout = 0;
}

abbrev empty_db : Db
empty_db = record { apps = []; operations = []; steps = []; logs = [] }

abbrev empty_app : App
empty_app = record {
  id = "";
  name = "";
  slug = "";
  source_type = "";
  source_ref = [];
  git_ref = [];
  drop_kind = "";
  compose_yaml = [];
  env = [];
  current_release_id = none;
  status = "";
  last_error = [];
  build_mode = "";
  builder_image = "";
  build_command = "";
  run_command = "";
  serve_path = "";
  listen_port = 0;
  kind = "";
  runtime = "";
  runtime_version = "";
  entrypoint = "";
  scale_to_zero = false;
  idle_timeout = 0;
  last_invoked_at = 0;
  created_at = 0;
  updated_at = 0;
}

abbrev site_of : Db → Site
site_of db = record {
  db = db;
  secrets = [];
  storage = [];
  events = [];
  app = empty_app;
  snapshot = none;
}

empty_db-IsValid : IsValid empty_db
unfolding tally
empty_db-IsValid = record { one_active = λ a. omega arith; one_row = λ i. omega arith }

-- The deploy itself fails: everything up to it has run.
abbrev broken : Answers
broken = record fine { deploy = some (bytes "no image") }

deploy_git-Verdict_example :
    let s = site_of empty_db in
    Verdict broken none
      (new_app broken request (previous broken request s.db)).id
      (release_after false (prev_release (previous broken request s.db)))
      s
      (deploy_git broken false request none s)
deploy_git-Verdict_example =
    deploy_git-Verdict broken false request none (site_of empty_db) refl refl refl empty_db-IsValid
      tt refl

-- A redeploy of an app that serves static files, under its operation.
abbrev site_app : App
site_app = record empty_app {
  id = "a1";
  name = "blog";
  slug = "blog";
  source_type = "drop";
  drop_kind = "static";
  build_mode = "compose";
  kind = "web";
  status = "running";
}

abbrev owner : Operation
owner = record (app_operation "a1" "app.redeploy") { id = "o1"; status = "preflighting" }

abbrev busy_db : Db
busy_db = record { apps = site_app ∷ []; operations = owner ∷ []; steps = []; logs = [] }

busy_db-IsValid : IsValid busy_db
unfolding tally
busy_db-IsValid = record { one_active = λ a. ground arith; one_row = λ i. ground arith }

owner-Runs : Runs owner busy_db
unfolding get_operation first is_active
owner-Runs = (refl, refl)

site_app-there : HasRow "a1" busy_db
unfolding tally
site_app-there = omega arith

redeploy-Verdict_example : Verdict' fine owner (redeploy fine site_app owner (site_of busy_db))
redeploy-Verdict_example =
    redeploy-Verdict fine site_app owner (site_of busy_db) refl refl refl refl busy_db-IsValid
      owner-Runs site_app-there refl

-- The static files cannot be written.
abbrev full_disk : Answers
full_disk = record fine { write_static_files = some (bytes "no space left on device") }

direct : needs_pipeline full_disk site_app ≡ false
unfolding needs_pipeline
direct = refl

abbrev disk_error : Bytes
disk_error = bytes "regenerate static files: no space left on device"

redeploy-silent_example :
    ((redeploy full_disk site_app owner (site_of busy_db)).0 ≡ some disk_error)
    × Ends 9 "failed" [] owner Pending (redeploy full_disk site_app owner (site_of busy_db)).1.db
redeploy-silent_example =
    redeploy-silent full_disk site_app owner (site_of busy_db) disk_error refl direct refl refl refl
      refl busy_db-IsValid owner-Runs site_app-there
