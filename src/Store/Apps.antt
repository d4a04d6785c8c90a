-- ===== src/Store/Apps.antt =====
-- apps.go: the rows of apps, and ValidEnvKey of secrets.go.
pub mod Identity
pub mod Rows
use space_elevator.Base.{
  ℕ, String, str_eq, Bool, true, false, not, ◌&&◌, ◌||◌, Option, none, some, List, [], ◌∷◌, ◌++◌,
  ltb, leb, ◌==◌, if◌then◌else◌, sift, tally, first, amend, Bytes,
}
use space_elevator.Store.Rows.{
  App, Db, not_found, conflict, constraint, invalid_env, Result, ok, err,
}
use space_elevator.Store.Operations.{bounded_error, require_affected}

-- [A-Za-z_]
unfoldable pub key_start : ℕ → Bool
key_start c = leb b'A' c && leb c b'Z' || leb b'a' c && leb c b'z' || c == b'_'

-- [A-Za-z0-9_]*
unfoldable pub key_rest : Bytes → Bool
unfolding key_start
key_rest [] = true
key_rest (c ∷ s) = (key_start c || leb b'0' c && leb c b'9') && key_rest s

unfoldable pub valid_env_key : Bytes → Bool
unfolding key_start key_rest
valid_env_key [] = false
valid_env_key (c ∷ s) = key_start c && key_rest s

-- strings.ContainsRune(value, 0)
unfoldable pub has_nul : Bytes → Bool
has_nul [] = false
has_nul (c ∷ s) = c == 0 || has_nul s

unfoldable pub valid_env : List (Bytes × Bytes) → Bool
unfolding valid_env_key has_nul
valid_env [] = true
valid_env ((k, v) ∷ env) = valid_env_key k && not (has_nul v) && valid_env env

abbrev or_default : String → String → String
or_default d s = if str_eq s "" then d else s

abbrev pub app_id_is : String → App → Bool
app_id_is id a = str_eq a.id id

abbrev app_name_is : String → App → Bool
app_name_is name a = str_eq a.name name

-- the defaults that CreateApp fills in
unfoldable pub new_app_row : ℕ → App → App
new_app_row now a = record a {
  build_mode = or_default "compose" a.build_mode;
  kind = or_default "web" a.kind;
  slug = or_default a.name a.slug;
  created_at = now;
  updated_at = now;
}

-- The INSERT fails on the primary key and on the unique name.
unfoldable pub create_app : ℕ → App → Db → Result (Unit {0}) × Db
unfolding new_app_row
create_app now a db =
    if not (valid_env a.env)
    then (err invalid_env, db)
    else if ltb 0 (tally (app_id_is a.id) db.apps) || ltb 0 (tally (app_name_is a.name) db.apps)
    then (err constraint, db)
    else (ok tt, record db { apps = db.apps ++ new_app_row now a ∷ [] })

-- UPDATE apps SET f WHERE id=?, and requireAffected
unfoldable pub update_row : String → (App → App) → Db → Result (Unit {0}) × Db
update_row id f db = (
  require_affected (tally (app_id_is id) db.apps),
  record db { apps = amend (app_id_is id) f db.apps },
)

-- The unique index on names refuses a rename to the name of another row.
unfoldable pub update_app_name : ℕ → String → String → Db → Result (Unit {0}) × Db
unfolding update_row
update_app_name now id name db =
    if ltb 0 (tally (λ (a : App). app_name_is name a && not (app_id_is id a)) db.apps)
      && ltb 0 (tally (app_id_is id) db.apps)
    then (err constraint, db)
    else update_row id (λ a. record a { name = name; updated_at = now }) db

unfoldable pub with_status : ℕ → String → App → App
with_status now status a = record a { status = status; updated_at = now }

unfoldable pub update_app_status : ℕ → String → String → Db → Result (Unit {0}) × Db
unfolding update_row with_status
update_app_status now id status = update_row id (with_status now status)

unfoldable pub with_status_err : ℕ → String → Bytes → App → App
with_status_err now status last_err a = record a {
  status = status;
  last_error = bounded_error last_err;
  updated_at = now;
}

unfoldable pub update_app_status_err : ℕ → String → String → Bytes → Db → Result (Unit {0}) × Db
unfolding update_row with_status_err
update_app_status_err now id status last_err = update_row id (with_status_err now status last_err)

unfoldable pub clear_app_error : String → Db → Result (Unit {0}) × Db
unfolding update_row
clear_app_error id = update_row id (λ a. record a { last_error = [] })

-- ClearCurrentRelease of app_updates.go
unfoldable pub clear_current_release : ℕ → String → Db → Result (Unit {0}) × Db
unfolding update_row
clear_current_release now id =
    update_row id (λ a. record a { current_release_id = none; updated_at = now })

-- SetCurrentRelease of app_updates.go: `owner` is the app of the release, if there is such a release.
unfoldable pub set_current_release :
    ℕ → String → String → Option String → Db → Result (Unit {0}) × Db
unfolding update_row
set_current_release now id release none db = (err not_found, db)
set_current_release now id release (some owner) db =
    if str_eq owner id
    then update_row id (λ a. record a { current_release_id = some release; updated_at = now }) db
    else (err conflict, db)

-- The columns that UpdateApp writes; the id, the name, the slug, the source type, the last error and
-- the creation time are not among them.
unfoldable pub stored_app : ℕ → App → App → App
stored_app now a row = record row {
  source_ref = a.source_ref;
  git_ref = a.git_ref;
  drop_kind = a.drop_kind;
  compose_yaml = a.compose_yaml;
  env = a.env;
  current_release_id = a.current_release_id;
  status = a.status;
  build_mode = or_default "compose" a.build_mode;
  builder_image = a.builder_image;
  build_command = a.build_command;
  run_command = a.run_command;
  serve_path = a.serve_path;
  listen_port = a.listen_port;
  kind = or_default "web" a.kind;
  runtime = a.runtime;
  runtime_version = a.runtime_version;
  entrypoint = a.entrypoint;
  scale_to_zero = a.scale_to_zero;
  idle_timeout = a.idle_timeout;
  updated_at = now;
}

unfoldable pub update_app : ℕ → App → Db → Result (Unit {0}) × Db
unfolding update_row stored_app
update_app now a db =
    if not (valid_env a.env) then (err invalid_env, db) else update_row a.id (stored_app now a) db

-- scanApp: entries of the environment that are not valid are dropped on reading, and the columns
-- that older rows lack get their defaults.
kept_entry : Bytes × Bytes → Bool
kept_entry (k, v) = valid_env_key k && not (has_nul v)

unfoldable pub scan_app : App → App
unfolding kept_entry
scan_app a = record a {
  env = sift kept_entry a.env;
  build_mode = or_default "compose" a.build_mode;
  kind = or_default "web" a.kind;
  slug = or_default a.name a.slug;
}

abbrev scanned : Option App → Result App
scanned none = err not_found
scanned (some a) = ok (scan_app a)

unfoldable pub get_app : String → Db → Result App
get_app id db = scanned (first (app_id_is id) db.apps)

unfoldable pub get_app_by_name : String → Db → Result App
get_app_by_name name db = scanned (first (app_name_is name) db.apps)

-- DELETE FROM apps, and the rows that the foreign keys delete with it: the operations of the app,
-- and their steps and log lines.
unfoldable pub delete_app : String → Db → Db
delete_app id db =
    let gone =
      λ (i : String). ltb 0 (tally (λ o. str_eq o.id i && str_eq o.app_id id) db.operations) in
    record db {
      apps = sift (λ a. not (app_id_is id a)) db.apps;
      operations = sift (λ o. not (str_eq o.app_id id)) db.operations;
      steps = sift (λ s. not (gone s.operation_id)) db.steps;
      logs = sift (λ l. not (gone l.operation_id)) db.logs;
    }
