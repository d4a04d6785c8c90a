-- ===== src/Web/Progress/Expected.antt =====
-- What the checklist of a deployment is meant to show, step by step.
use space_elevator.Base.{
  String, str_eq, Bool, true, false, not, ◌&&◌, ◌||◌, Option, none, some, List, [], ◌∷◌,
  if◌then◌else◌, Dict, lookup,
}
use space_elevator.Store.Rows.{App}

-- The steps of a deployment in order, and the stages of the deployer that have another name than
-- their step.
abbrev pub step_order : List String
step_order =
    "validate" ∷ "source" ∷ "compose" ∷ "build" ∷ "backup" ∷ "stop" ∷ "rollback" ∷ "activate"
    ∷ "verify" ∷ "route" ∷ "commit" ∷ []

abbrev pub renamed_stages : Dict String
renamed_stages = ("preflight", "validate") ∷ ("clone", "source") ∷ ("deploy", "activate") ∷ []

abbrev or_same : String → Option String → String
or_same name none = name
or_same name (some key) = key

-- The step that a stage is about.
unfoldable pub step_of : String → String
step_of name = or_same name (lookup name renamed_stages)

abbrev pub is_one_of : String → List String → Bool
is_one_of k [] = false
is_one_of k (j ∷ js) = str_eq j k || is_one_of k js

-- Whether `k` stands before `key` in a list.
abbrev pub stands_before : String → String → List String → Bool
stands_before k key [] = false
stands_before k key (j ∷ js) = if str_eq j key then false else str_eq j k || stands_before k key js

abbrev pub is_none : Option String → Bool
is_none none = true
is_none (some id) = false

-- A step that was passed over: one for a release that was never there, or the rollback of a
-- deployment that did not roll back.
abbrev pub is_skipped : App → String → String → Bool
is_skipped app current k =
    str_eq k "rollback" && not (str_eq current "rollback")
    || is_none app.current_release_id && is_one_of k ("backup" ∷ "stop" ∷ "rollback" ∷ [])

-- What a step's status becomes when `key` is entered from `current`.
unfoldable pub entered_status : App → String → String → String → String → String
entered_status app current key k s =
    if str_eq key k
    then "running"
    else if stands_before k key step_order
    then (if is_skipped app current k then "skipped" else "succeeded")
    else if str_eq current k && not (str_eq current "")
    then "succeeded"
    else s
