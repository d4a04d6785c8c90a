-- ===== src/Deployer/Tests.antt =====
-- Updates of internal/deployer on concrete answers.
use space_elevator.Base.{◌≡◌, refl, String, true, false, some, none, [], ◌∷◌, Bytes, bytes, Dict}
use space_elevator.Store.Rows.{App, Operation}
use space_elevator.Store.Operations.{is_active}
use space_elevator.Store.Apps.{with_status_err}
use space_elevator.Deployer.State.{
  Answers, UpdateRequest, World, prepare, inspect, stop, backup, migrate, call,
}
use space_elevator.Deployer.Program.{next, attempt, assign}
use space_elevator.Deployer.Phases.{
  make_directories, begin_candidate, acquire_source, plan_update, create_release, replace_secrets,
  build_release, stop_app, back_up,
}
use space_elevator.Deployer.Update.{prepare_phases, all_phases, update, claimed_world}
use space_elevator.Deployer.Update.Honest.{Verdict, update-Verdict}
use space_elevator.Deployer.Update.Sequence.{plan, IsPrefix}
use space_elevator.Deployer.Update.Order.{all_phases-order}
use space_elevator.Deployer.Update.Stranded.{cut_over-strands}

-- Every call works.
abbrev fine : Answers
fine = record {
  now = 9;
  release_id = "r2";
  mark_updating = none;
  finish = none;
  make_parent = none;
  clear_release_dir = none;
  make_release_dir = none;
  source_url = [];
  clone = none;
  open_repo = none;
  head = none;
  head_commit = [];
  resolve_compose = none;
  resolved_compose = [];
  materialize = none;
  write_function = none;
  function_compose = [];
  has_dockerfile = true;
  detect_kind = none;
  detected = "static";
  write_static = none;
  archive_base = [];
  parse = none;
  old_source = none;
  list_storage = none;
  plan_storage = none;
  create_release = none;
  get_secrets = none;
  set_secret = λ k. none;
  secrets_after_failure = [];
  set_building = none;
  runtime_meta = none;
  prepare = none;
  images = [];
  update_release = none;
  set_backing_up = none;
  status_before = none;
  status_before_is = "running";
  stop = none;
  backup_storage = none;
  migrate_bind = none;
  migrate_path = [];
  set_cutting_over = none;
  remove_containers = none;
  activate = none;
  set_verifying = none;
  verify_status = none;
  verify_status_is = "running";
  apply_route = none;
  finish_release = none;
  update_app = none;
  set_current = none;
  persist_storage = none;
  storage_planned = [];
  storage_partly = [];
  restore_secrets = none;
  restore_secrets_again = none;
  restart = none;
  old_available = true;
  rollback_remove = none;
  rollback_env = none;
  rollback_deploy = none;
  rollback_status = none;
  rollback_status_is = "running";
  restore_storage = none;
  storage_after_failure = [];
  restore_app = none;
  restore_current = none;
  sync_route = none;
  stop_again = none;
  fail_release = none;
  fail_app = none;
}

abbrev blog : App
blog = record {
  id = "a1";
  name = "blog";
  slug = "blog";
  source_type = "git";
  source_ref = [];
  git_ref = [];
  drop_kind = "";
  compose_yaml = [];
  env = [];
  current_release_id = some "r1";
  status = "running";
  last_error = [];
  build_mode = "compose";
  builder_image = "";
  build_command = "";
  run_command = "";
  serve_path = "";
  listen_port = 0;
  kind = "web";
  runtime = "";
  runtime_version = "";
  entrypoint = "";
  scale_to_zero = false;
  idle_timeout = 0;
  last_invoked_at = 0;
  created_at = 1;
  updated_at = 1;
}

abbrev claimed : Operation
claimed = record {
  id = "o1";
  app_id = "a1";
  operation_type = "update";
  status = "preflighting";
  current_step = "";
  attempt = 1;
  previous_release_id = "";
  candidate_release_id = "";
  heartbeat_at = some 5;
  error = [];
  created_at = 5;
  started_at = none;
  completed_at = none;
}

abbrev request : UpdateRequest
request = record {
  ref = [];
  archive_path = [];
  source_ref = [];
  secrets = ("TOKEN", bytes "new") ∷ [];
}

abbrev old_secrets : Dict Bytes
old_secrets = ("TOKEN", bytes "old") ∷ []

abbrev old_storage : Dict String
old_storage = ("data", "/srv/a1/data") ∷ []

preflighting-active : is_active "preflighting" ≡ true
unfolding is_active
preflighting-active = refl

-- The route of the candidate cannot be published.
abbrev unrouted : Answers
unrouted = record fine { apply_route = some (bytes "bad gateway") }

update-Verdict_example :
    Verdict unrouted blog old_secrets old_storage true
      (update unrouted request blog (claimed_world blog claimed old_secrets old_storage))
update-Verdict_example =
    update-Verdict unrouted request blog old_secrets old_storage claimed refl refl
      preflighting-active

abbrev unwritable : Answers
unwritable = record fine { set_cutting_over = some (bytes "database is locked") }

abbrev start : World
start = claimed_world blog claimed old_secrets old_storage

abbrev prepared : World
prepared =
    (prepare_phases unwritable request blog
      (record start { app = with_status_err unwritable.now "updating" [] start.app })).1

abbrev stopped : World
stopped = (stop_app unwritable prepared).1

abbrev saved : World
saved = (back_up unwritable stopped).1

cut_over-strands_example :
    ((update unwritable request blog start).1.calls
      ≡ prepare ∷ inspect ∷ stop ∷ backup ∷ migrate ∷ [])
    × ((update unwritable request blog start).1.app.status ≡ "error")
unfolding prepare_phases stop_app back_up make_directories attempt begin_candidate assign
    acquire_source plan_update create_release replace_secrets build_release call
cut_over-strands_example =
    cut_over-strands unwritable request blog (bytes "database is locked") start prepared stopped
      saved refl refl refl refl refl refl refl refl

all_phases-order_example :
    let (o, w') =
      all_phases unrouted request blog (claimed_world blog claimed old_secrets old_storage) in
    IsPrefix w'.calls (plan false) × (o ≡ next → w'.calls ≡ plan false)
all_phases-order_example =
    all_phases-order unrouted request blog (claimed_world blog claimed old_secrets old_storage) refl
