-- ===== src/Deployer/Deploy/Request.antt =====
-- deployer.go: what deployGit makes of a request, before it writes anything. Texts of errors are
-- shortened.
use space_elevator.Base.{
  ℕ, String, str_eq, Bool, true, false, not, ◌&&◌, ◌||◌, Option, none, some, List, [], ◌∷◌,
  if◌then◌else◌, length, leb, ◌==◌, Bytes, bytes, is_empty,
}
use space_elevator.Store.Rows.{App, Db, ok, err}
use space_elevator.Store.Apps.{get_app_by_name}
use space_elevator.Store.Env.{put_all}
use space_elevator.Deployer.Program.{Answer, prefixed}
use space_elevator.Deployer.Deploy.State.{GitRequest, Answers}

-- ValidAppName
name_byte : ℕ → Bool
name_byte c = leb b'a' c && leb c b'z' || leb b'0' c && leb c b'9'

-- `-` is allowed, but not as the last byte
name_rest : Bytes → Bool
unfolding name_byte
name_rest [] = true
name_rest (c ∷ []) = name_byte c
name_rest (c ∷ d ∷ s) = (name_byte c || c == b'-') && name_rest (d ∷ s)

unfoldable pub valid_app_name : String → Bool
unfolding name_byte name_rest
valid_app_name name =
    not (str_eq name "space-elevator")
    && not (is_empty (bytes name))
    && leb (length (bytes name)) 63
    && elim (bytes name) [ [] ↦ false | c ∷ s ↦ name_byte c && name_rest s ]

-- `prev`; an error of the query counts as no app
unfoldable pub previous : Answers → GitRequest → Db → Option App
previous a req db = elim a.find_app [
  | some e ↦ none
  | none ↦ elim (get_app_by_name req.name db) [ ok app ↦ some app | err e ↦ none ]
]

-- A deploy only creates, but for the pending row that the wizard made.
unfoldable pub is_taken : Bool → Option App → Bool
is_taken redeploying none = false
is_taken redeploying (some p) =
    not redeploying && not (str_eq p.status "pending" && is_empty p.compose_yaml)

abbrev pub prev_env : Option App → List (Bytes × Bytes)
prev_env none = []
prev_env (some p) = p.env

-- the build settings of the request
unfoldable pub build_error : Answers → GitRequest → Answer
build_error a req = elim req.static_build [
  | none ↦ none
  | some sb ↦ elim req.build [
    | some cb ↦ some (bytes "static and custom build settings cannot be used together")
    | none ↦ prefixed "static build: " a.static_valid
  ]
]

-- an explicit kind, else the stored one, else "web"
unfoldable pub chosen_kind : GitRequest → Option App → String
chosen_kind req none = if str_eq req.kind "" then "web" else req.kind
chosen_kind req (some p) =
    if not (str_eq req.kind "") then req.kind else if str_eq p.kind "" then "web" else p.kind

-- what deployGit refuses before it writes anything
unfoldable pub refusal : Answers → Bool → GitRequest → Option App → Answer
unfolding build_error chosen_kind is_taken
refusal a redeploying req prev = elim a.valid_url [
  | some e ↦ some e
  | none ↦
      if not (valid_app_name req.name)
      then some (bytes "invalid app name")
      else if is_taken redeploying prev
      then some (bytes "app already exists; use the update operation to replace its source")
      else elim (build_error a req) [
        | some e ↦ some e
        | none ↦
            if str_eq (chosen_kind req prev) "function"
            then prefixed "function: " a.function_valid
            else none
      ]
]

abbrev pub default_function_port : ℕ
default_function_port = 8080

abbrev pub main_ref : Bytes → Bytes
main_ref ref = if is_empty ref then bytes "main" else ref

abbrev prev_id : String → Option App → String
prev_id fresh none = fresh
prev_id fresh (some p) = p.id

abbrev prev_slug : String → Option App → String
prev_slug name none = name
prev_slug name (some p) = if str_eq p.slug "" then name else p.slug

abbrev pub prev_release : Option App → Option String
prev_release none = none
prev_release (some p) = p.current_release_id

-- the build columns: mode, image, command, run command, path, port
unfoldable pub build_columns : GitRequest → App → App
build_columns req app = elim req.static_build [
  | some sb ↦ record app {
    build_mode = "static";
    builder_image = sb.builder_image;
    build_command = sb.build_command;
    serve_path = sb.serve_path;
    listen_port = sb.listen_port;
  }
  | none ↦ elim req.build [
    | some cb ↦ record app {
      build_mode = "custom";
      builder_image = cb.builder_image;
      build_command = cb.build_command;
      run_command = cb.run_command;
      listen_port = cb.listen_port;
    }
    | none ↦ app
  ]
]

-- the row that deployGit builds
unfoldable pub new_app : Answers → GitRequest → Option App → App
unfolding build_columns chosen_kind put_all
new_app a req prev =
    let app = build_columns req (record {
      id = prev_id a.app_id prev;
      name = req.name;
      slug = prev_slug req.name prev;
      source_type = "git";
      source_ref = a.normalized_url;
      git_ref = main_ref req.ref;
      drop_kind = "";
      compose_yaml = [];
      env = put_all req.env (prev_env prev);
      current_release_id = prev_release prev;
      status = "pending";
      last_error = [];
      build_mode = "compose";
      builder_image = "";
      build_command = "";
      run_command = "";
      serve_path = "";
      listen_port = 0;
      kind = chosen_kind req prev;
      runtime = req.runtime;
      runtime_version = req.runtime_version;
      entrypoint = req.entrypoint;
      scale_to_zero = req.scale_to_zero;
      idle_timeout = req.idle_timeout;
      last_invoked_at = 0;
      created_at = 0;
      updated_at = 0;
    }) in
    if str_eq app.kind "function" then record app { listen_port = default_function_port } else app
