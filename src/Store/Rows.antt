-- ===== src/Store/Rows.antt =====
-- The rows of internal/store (apps.go, app_updates.go) and the database that holds them. Times are
-- Unix seconds; a NULL column or a zero `time.Time` is `none`. Identifiers are texts that are only
-- compared; texts that the code cuts or trims are bytes.
use space_elevator.Base.{ℕ, String, Option, Bool, List, Bytes}

pub data Error : Type 0 where
  not_found conflict constraint invalid_env : Error

pub data Result {ℓ} (A : Type ℓ) : Type ℓ where
  ok : A → Result A
  err : Error → Result A

-- apps.go: App
pub record App : Type 0 where
  pub id : String
  pub name : String
  pub slug : String
  pub source_type : String
  pub source_ref : Bytes
  pub git_ref : Bytes
  pub drop_kind : String
  pub compose_yaml : Bytes
  pub env : List (Bytes × Bytes)
  pub current_release_id : Option String
  pub status : String
  pub last_error : Bytes
  pub build_mode : String
  pub builder_image : String
  pub build_command : String
  pub run_command : String
  pub serve_path : String
  pub listen_port : ℕ
  pub kind : String
  pub runtime : String
  pub runtime_version : String
  pub entrypoint : String
  pub scale_to_zero : Bool
  pub idle_timeout : ℕ
  pub last_invoked_at : ℕ
  pub created_at : ℕ
  pub updated_at : ℕ

-- app_updates.go: AppOperation
pub record Operation : Type 0 where
  pub id : String
  pub app_id : String
  pub operation_type : String
  pub status : String
  pub current_step : String
  pub attempt : ℕ
  pub previous_release_id : String
  pub candidate_release_id : String
  pub heartbeat_at : Option ℕ
  pub error : Bytes
  pub created_at : ℕ
  pub started_at : Option ℕ
  pub completed_at : Option ℕ

-- app_updates.go: DeployStep
pub record DeployStep : Type 0 where
  pub operation_id : String
  pub position : ℕ
  pub key : String
  pub label : String
  pub status : String
  pub error : Bytes
  pub started_at : Option ℕ
  pub completed_at : Option ℕ

-- app_updates.go: DeployLog
pub record DeployLog : Type 0 where
  pub operation_id : String
  pub sequence : ℕ
  pub step : String
  pub level : String
  pub message : Bytes
  pub created_at : ℕ

-- The tables, each in rowid order.
pub record Db : Type 0 where
  pub apps : List App
  pub operations : List Operation
  pub steps : List DeployStep
  pub logs : List DeployLog
