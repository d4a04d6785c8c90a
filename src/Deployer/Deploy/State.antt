-- ===== src/Deployer/Deploy/State.antt =====
-- deployer.go: what a deploy reads and writes. The tables answer for themselves; what may fail beside
-- them (the disk under a write, git, podman, the files) is a record with an answer for each call site.
use space_elevator.Base.{ℕ, String, Option, none, some, Bool, List, [], ◌∷◌, ◌++◌, Bytes, Dict}
use space_elevator.Store.Rows.{App, Db, Error, Result, ok, err}
use space_elevator.Deployer.Program.{Answer, next, leave, Program}

-- builder.CustomBuild, as far as a deploy reads it
pub record CustomBuild : Type 0 where
  pub builder_image : String
  pub build_command : String
  pub run_command : String
  pub listen_port : ℕ

-- builder.StaticBuild, as far as a deploy reads it
pub record StaticBuild : Type 0 where
  pub builder_image : String
  pub build_command : String
  pub serve_path : String
  pub listen_port : ℕ

pub record GitRequest : Type 0 where
  pub name : String
  pub repo_url : Bytes
  pub ref : Bytes
  pub env : List (Bytes × Bytes)
  pub secrets : List (String × Bytes)
  pub build : Option CustomBuild
  pub static_build : Option StaticBuild
  pub kind : String
  pub runtime : String
  pub runtime_version : String
  pub entrypoint : String
  pub scale_to_zero : Bool
  pub idle_timeout : ℕ

-- What is reported or called, in order: the stages, and the calls that touch containers or routes.
pub data Event : Type 0 where
  stage : String → Event
  clone remove deploy inspect sync_route publish_route remove_route : Event

-- The rows, the secrets and the storage mappings of the app, the events so far, the variable `app`, and
-- the snapshot of `restoreDeploySecrets`.
pub record Site : Type 0 where
  pub db : Db
  pub secrets : Dict Bytes
  pub storage : Dict String
  pub events : List Event
  pub app : App
  pub snapshot : Option (Dict Bytes)

pub record Answers : Type 0 where
  pub now : ℕ
  pub app_id : String
  pub operation_id : String
  -- what the errors of the store print
  pub error_text : Error → Bytes
  -- deployGit in front of the claim
  pub valid_url : Answer
  pub normalized_url : Bytes
  pub find_app : Answer
  pub static_valid : Answer
  pub function_valid : Answer
  pub store_row : Answer
  pub claim : Answer
  -- the source and the compose file
  pub make_source_dir : Answer
  pub clear_source_dir : Answer
  pub clone : Answer
  pub resolve_compose : Answer
  pub has_compose : Bool
  pub resolved_compose : Bytes
  pub parse : Answer
  pub plan_storage : Answer
  pub store_compose : Answer
  pub get_secrets : Answer
  pub set_secret : String → Answer
  pub load_env : Answer
  -- redeploy only
  pub current_source : Answer
  pub stat_source : Answer
  pub is_directory : Bool
  pub parse_stored : Answer
  pub mark_pending : Answer
  pub write_static_files : Answer
  pub write_static_build : Answer
  pub write_function_build : Answer
  pub write_custom_build : Answer
  -- the containers and the route
  pub remove_previous : Answer
  pub deploy : Answer
  pub status : Answer
  pub status_is : String
  pub persist_storage : Answer
  pub storage_planned : Dict String
  pub storage_partly : Dict String
  pub clear_release : Answer
  pub mark_running : Answer
  pub apply_route : Answer
  -- the end
  pub restore_secrets : Answer
  pub secrets_after_failure : Dict Bytes
  pub fail_row : Answer
  pub finish : Answer

abbrev pub happened : Event → Site → Site
happened e s = record s { events = s.events ++ e ∷ [] }

abbrev pub events_of : List Event → Site → Site
events_of es s = record s { events = s.events ++ es }

-- The rows after a write whose error is dropped, `_ = d.Store.…`.
abbrev pub dropped : Answer → (Db → Result (Unit {0}) × Db) → Site → Site
dropped (some e) f s = s
dropped none f s = record s { db = (f s.db).1 }

module _ {X : Type 0} where
  abbrev pub written : Result (Unit {0}) × Db → (Error → Bytes) → (Bytes → X) → Program Site X
  written (ok u, db) text exit s = (next, record s { db = db })
  written (err e, db) text exit s = (leave (exit (text e)), record s { db = db })

  -- `if err := d.Store.…; err != nil { return exit(err) }`: the disk fails, or the tables answer.
  unfoldable pub write_row :
      Answer → (Error → Bytes) → (Bytes → X) → (Db → Result (Unit {0}) × Db) → Program Site X
  write_row (some e) text exit f s = (leave (exit e), s)
  write_row none text exit f s = written (f s.db) text exit s
