-- ===== src/Deployer/Storage/Plan.antt =====
-- update_storage.go: where the data of an app lies before and behind an update. `plan_storage` is
-- planStorage; what podman knows of the old containers (discoverStorage) is its argument, and the
-- services of a specification, a Go map, come in any order. Errors carry the name that they are
-- about.
pub mod Sound
pub mod Rounds
pub mod Stable
pub mod Overwrites
pub mod Persist
use mathlib.Core.List.{reverse}
use space_elevator.Base.{
  ℕ, Bool, true, false, not, ◌&&◌, ◌||◌, ◌==◌, Option, none, some, List, [], ◌∷◌, ◌++◌,
  if◌then◌else◌, Bytes, bytes, is_empty, same_bytes, has_prefix, Table, put, put_all, get,
  join_path, length, drop,
}
use space_elevator.Deployer.Storage.{
  StorageKind, volume, bind, same_kind, StorageBinding, AppStorage, VolumeMount, parse_volume_mount,
  logical_storage_name, clean_relative_storage, bind_ref, managed_volume_name,
}

pub data Warning : Type 0 where
  persistent : Bytes → Bytes → Warning
  will_copy : ℕ → Warning

pub record StoragePlan : Type 0 where
  pub candidate : Table StorageBinding
  pub all : Table StorageBinding
  pub previous : Table StorageBinding
  pub migrate_binds : Table Bytes
  pub warnings : List Warning

pub data StorageError : Type 0 where
  bad_volume : Bytes → StorageError
  absolute_path : Bytes → StorageError
  two_kinds : Bytes → StorageError
  changed_kind : Bytes → StorageError
  escapes : Bytes → StorageError

pub data Planned (A : Type 0) : Type 0 where
  planned : A → Planned A
  refused : StorageError → Planned A

-- What does not change while the volumes of the candidate are walked.
pub record Site : Type 0 where
  pub apps_root : Bytes
  pub app_id : Bytes
  pub digest : Bytes → Bytes
  pub known : Table AppStorage
  pub discovered : Table StorageBinding
  pub legacy : Table StorageBinding
  pub old_source_dir : Bytes

abbrev pub binding_of : AppStorage → StorageBinding
binding_of m = record { kind = m.storage_kind; ref = m.physical_ref }

-- The plan and `declaredKinds` so far.
abbrev pub Walk : Type 0
Walk = StoragePlan × Table StorageKind

abbrev pub legacy_ref : Bytes → Option StorageBinding → Bytes
legacy_ref ref none = ref
legacy_ref ref (some b) = if same_kind b.kind volume then b.ref else ref

abbrev pub new_bind : Site → Bytes → Option Bytes → Planned StorageBinding
new_bind s logical none = refused (escapes logical)
new_bind s logical (some c) =
    planned (record { kind = bind; ref = bind_ref s.apps_root s.app_id c })

-- The binding of storage that has no row yet.
unfoldable pub new_binding : Site → Bytes → StorageKind → Planned StorageBinding
new_binding s logical volume =
    let ref = legacy_ref (managed_volume_name s.digest s.app_id logical) (get logical s.legacy) in
    planned (record { kind = volume; ref = ref })
new_binding s logical bind = new_bind s logical (clean_relative_storage logical)

abbrev pub found_ref : Option StorageBinding → Bytes
found_ref none = []
found_ref (some b) = b.ref

-- strings.TrimPrefix(logical, "./")
abbrev pub below : Bytes → Bytes
below logical = if has_prefix (bytes "./") logical then drop 2 logical else logical

unfoldable pub old_bind_source : Site → Bytes → Bytes
old_bind_source s logical =
    let ref = found_ref (get logical s.discovered) in
    if is_empty s.old_source_dir
    then []
    else if is_empty ref
    then join_path (s.old_source_dir ∷ below logical ∷ [])
    else ref

abbrev pub legacy_binding : Bytes → Option StorageBinding → StorageBinding
legacy_binding old none = record { kind = bind; ref = old }
legacy_binding old (some b) = b

abbrev pub migrate : Site → Bytes → Bytes → Bytes → StoragePlan → StoragePlan
migrate s logical ref old plan = if is_empty old || same_bytes old ref then plan else record plan {
  migrate_binds = put old ref plan.migrate_binds;
  all = put logical (legacy_binding old (get logical s.legacy)) plan.all;
}

unfoldable pub place : Site → Bytes → Bool → StorageBinding → StoragePlan → StoragePlan
place s logical read_only b plan =
    let plan' = record plan {
      candidate = put logical b plan.candidate;
      all = put logical b plan.all;
    } in
    if same_kind b.kind bind && not read_only
    then migrate s logical b.ref (old_bind_source s logical) plan'
    else plan'

abbrev pub warned :
    Bytes → StoragePlan → Planned StorageBinding → Planned (StorageBinding × StoragePlan)
warned logical plan (refused e) = refused e
warned logical plan (planned b) =
    planned (b, record plan { warnings = plan.warnings ++ persistent logical b.ref ∷ [] })

-- The binding of a name that is seen for the first time.
unfoldable pub bound :
    Site
    → Bytes
    → StorageKind
    → StoragePlan
    → Option AppStorage
    → Planned (StorageBinding × StoragePlan)
unfolding new_binding
bound s logical kind plan none = warned logical plan (new_binding s logical kind)
bound s logical kind plan (some m) =
    if same_kind m.storage_kind kind
    then planned (binding_of m, plan)
    else refused (changed_kind logical)

abbrev pub placed :
    Site → Bytes → Bool → Table StorageKind → Planned (StorageBinding × StoragePlan) → Planned Walk
placed s logical read_only declared (refused e) = refused e
placed s logical read_only declared (planned (b, plan)) =
    planned (place s logical read_only b plan, declared)

unfoldable pub declare :
    Site → Bytes → StorageKind → Bool → Walk → Option StorageKind → Planned Walk
unfolding bound place old_bind_source
declare s logical kind read_only w (some earlier) =
    if same_kind earlier kind then planned w else refused (two_kinds logical)
declare s logical kind read_only (plan, declared) none =
    placed s logical read_only (put logical kind declared)
      (bound s logical kind plan (get logical s.known))

abbrev pub plan_named : Site → Bytes → Bool → Walk → Option (Bytes × StorageKind) → Planned Walk
plan_named s raw read_only w none = refused (absolute_path raw)
plan_named s raw read_only w (some (logical, kind)) =
    declare s logical kind read_only w (get logical w.1)

abbrev pub plan_mount : Site → Bytes → Walk → Option VolumeMount → Planned Walk
plan_mount s raw w none = refused (bad_volume raw)
plan_mount s raw w (some m) = plan_named s raw m.read_only w (logical_storage_name m.source)

-- One round of the loop over the volumes.
unfoldable pub plan_volume : Site → Bytes → Walk → Planned Walk
unfolding declare
plan_volume s raw w = plan_mount s raw w (parse_volume_mount raw)

abbrev pub and_then : {A B : Type 0} → Planned A → (A → Planned B) → Planned B
and_then (planned x) f = f x
and_then (refused e) f = refused e

unfoldable pub plan_volumes : Site → List Bytes → Walk → Planned Walk
unfolding plan_volume
plan_volumes s [] w = planned w
plan_volumes s (raw ∷ raws) w = and_then (plan_volume s raw w) (λ w'. plan_volumes s raws w')

abbrev pub volumes_of : List (Bytes × List Bytes) → List Bytes
volumes_of [] = []
volumes_of ((name, raws) ∷ services) = raws ++ volumes_of services

abbrev pub is_there : Option AppStorage → Bool
is_there none = false
is_there (some m) = true

-- What podman found of storage that has no row.
abbrev pub keep_legacy : Table AppStorage → Table StorageBinding → Table StorageBinding
keep_legacy known [] = []
keep_legacy known ((n, b) ∷ discovered) =
    let rest = keep_legacy known discovered in
    if is_there (get n known) then rest else (n, b) ∷ rest

abbrev pub rows_of : List AppStorage → Table AppStorage
rows_of [] = []
rows_of (m ∷ ms) = (m.logical_name, m) ∷ rows_of ms

abbrev pub bindings_of : List AppStorage → Table StorageBinding
bindings_of [] = []
bindings_of (m ∷ ms) = (m.logical_name, binding_of m) ∷ bindings_of ms

unfoldable pub site_of :
    Bytes → Bytes → (Bytes → Bytes) → List AppStorage → Table StorageBinding → Bytes → Site
site_of root id digest existing discovered old_source_dir =
    let known = put_all (rows_of existing) [] in
    record {
      apps_root = root;
      app_id = id;
      digest = digest;
      known = known;
      discovered = discovered;
      legacy = keep_legacy known discovered;
      old_source_dir = old_source_dir;
    }

-- The plan in front of the loop: what the app has now.
abbrev pub old_plan : Site → List AppStorage → StoragePlan
old_plan s existing =
    let now = put_all s.legacy (put_all (bindings_of existing) []) in
    record { candidate = []; all = now; previous = now; migrate_binds = []; warnings = [] }

-- A last warning where binds will be copied.
abbrev pub announced : StoragePlan → StoragePlan
announced plan =
    let binds = length plan.migrate_binds in
    record plan {
      warnings = if binds == 0 then plan.warnings else plan.warnings ++ will_copy binds ∷ [];
    }

unfoldable pub plan_on : Site → List AppStorage → List (Bytes × List Bytes) → Planned StoragePlan
unfolding plan_volumes
plan_on s existing services =
    and_then (plan_volumes s (volumes_of services) (old_plan s existing, []))
      (λ w. planned (announced w.0))

unfoldable pub plan_storage :
    Bytes
    → Bytes
    → (Bytes → Bytes)
    → List AppStorage
    → Table StorageBinding
    → Bytes
    → List (Bytes × List Bytes)
    → Planned StoragePlan
unfolding site_of plan_on
plan_storage root id digest existing discovered old_source_dir services =
    plan_on (site_of root id digest existing discovered old_source_dir) existing services
