-- ===== src/Deployer/State.antt =====
-- update.go: what an update reads and writes. Each call that may fail is asked at most once in a
-- run, so the environment is a record with one answer for each call site: `none` is success, and
-- `some e` the error text. A call that fails leaves the rows as they were, but for the secrets.
use space_elevator.Base.{ℕ, String, Option, Bool, List, [], ◌∷◌, ◌++◌, Bytes, Dict}
use space_elevator.Store.Rows.{App, Operation}
use space_elevator.Deployer.Program.{Answer, next, Program}

-- UpdateRequest
pub record UpdateRequest : Type 0 where
  pub ref : Bytes
  pub archive_path : Bytes
  pub source_ref : Bytes
  pub secrets : List (String × Bytes)

-- the columns of AppRelease that an update writes
pub record AppRelease : Type 0 where
  pub id : String
  pub app_id : String
  pub previous_release_id : Option String
  pub source_ref : Bytes
  pub git_ref : Bytes
  pub git_commit : Bytes
  pub compose_yaml : Bytes
  pub image_map : Dict String
  pub status : String
  pub last_error : Bytes
  pub completed_at : Option ℕ

-- recovery
pub record Recovery : Type 0 where
  pub operation_status : String
  pub app_status : String
  pub suffix : Bytes

-- The calls that touch the containers, the volumes or the routes, in the order they are made.
pub data Call : Type 0 where
  prepare inspect stop start remove activate redeploy : Call
  backup migrate publish_route sync_route : Call

-- The rows, the secrets and the calls made so far, with the variables that the closures share.
pub record World : Type 0 where
  pub app : App
  pub operation : Operation
  pub release : Option AppRelease
  pub secrets : Dict Bytes
  pub storage : Dict String
  pub calls : List Call
  -- `snapshot` of restoreSecrets, `secretsRestored` and `weStoppedApp`
  pub snapshot : Option (Dict Bytes)
  pub secrets_restored : Bool
  pub we_stopped : Bool
  -- `candidate`, `gitCommit` and the old spec and source (`none`: not available)
  pub candidate : App
  pub git_commit : Bytes
  pub old_storage : Dict String

-- The answers, in the order of the source.
pub record Answers : Type 0 where
  pub now : ℕ
  pub release_id : String
  -- begin
  pub mark_updating : Answer
  pub finish : Answer
  pub make_parent : Answer
  pub clear_release_dir : Answer
  pub make_release_dir : Answer
  -- source
  pub source_url : Bytes
  pub clone : Answer
  pub open_repo : Answer
  pub head : Answer
  pub head_commit : Bytes
  pub resolve_compose : Answer
  pub resolved_compose : Bytes
  pub materialize : Answer
  pub write_function : Answer
  pub function_compose : Bytes
  pub has_dockerfile : Bool
  pub detect_kind : Answer
  pub detected : String
  pub write_static : Answer
  pub archive_base : Bytes
  pub parse : Answer
  -- previous release and storage
  pub old_source : Answer
  pub list_storage : Answer
  pub plan_storage : Answer
  pub create_release : Answer
  pub get_secrets : Answer
  pub set_secret : String → Answer
  pub secrets_after_failure : Dict Bytes
  -- build
  pub set_building : Answer
  pub runtime_meta : Answer
  pub prepare : Answer
  pub images : Dict String
  pub update_release : Answer
  -- backup
  pub set_backing_up : Answer
  pub status_before : Answer
  pub status_before_is : String
  pub stop : Answer
  pub backup_storage : Answer
  pub migrate_bind : Answer
  pub migrate_path : Bytes
  -- cutover
  pub set_cutting_over : Answer
  pub remove_containers : Answer
  pub activate : Answer
  pub set_verifying : Answer
  pub verify_status : Answer
  pub verify_status_is : String
  pub apply_route : Answer
  pub finish_release : Answer
  pub update_app : Answer
  pub set_current : Answer
  pub persist_storage : Answer
  pub storage_planned : Dict String
  pub storage_partly : Dict String
  -- recovery
  pub restore_secrets : Answer
  pub restore_secrets_again : Answer
  pub restart : Answer
  pub old_available : Bool
  pub rollback_remove : Answer
  pub rollback_env : Answer
  pub rollback_deploy : Answer
  pub rollback_status : Answer
  pub rollback_status_is : String
  pub restore_storage : Answer
  pub storage_after_failure : Dict String
  pub restore_app : Answer
  pub restore_current : Answer
  pub sync_route : Answer
  pub stop_again : Answer
  pub fail_release : Answer
  pub fail_app : Answer

-- How a phase is left: through one of the three closures.
pub data Exit : Type 0 where
  -- failUpdate, and whether the release row exists
  fail : Bool → Bytes → Exit
  -- resumePrevious: the cause and the error
  resume : Bytes → Bytes → Exit
  -- rollbackCandidate
  rollback : Bytes → Exit

-- A phase runs on the world.
abbrev pub Phase : Type 0
Phase = Program World Exit

abbrev pub made : Call → World → World
made c w = record w { calls = w.calls ++ c ∷ [] }

unfoldable pub call : Call → Phase
call c w = (next, made c w)
