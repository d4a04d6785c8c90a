-- ===== src/Deployer/Storage.antt =====
-- Volume mounts and the storage that they name: internal/composer/volumes.go, and the helpers of
-- update_storage.go. The plan itself is in Plan.
pub mod Confined
pub mod Plan
mod Tests
use mathlib.Core.List.{foldl}
use space_elevator.Base.{
  ℕ, Bool, true, false, not, ◌&&◌, ◌||◌, Option, none, some, List, [], ◌∷◌, ◌++◌, if◌then◌else◌,
  Bytes, bytes, is_empty, same_bytes, has_prefix, trim_space, Table, put, get, split, clean,
  join_path, is_abs, length,
}

-- internal/composer/volumes.go
pub data StorageKind : Type 0 where
  volume : StorageKind
  bind : StorageKind

abbrev pub same_kind : StorageKind → StorageKind → Bool
same_kind volume volume = true
same_kind bind bind = true
same_kind _ _ = false

pub record StorageBinding : Type 0 where
  pub kind : StorageKind
  pub ref : Bytes

-- A row of app_storage.
pub record AppStorage : Type 0 where
  pub logical_name : Bytes
  pub storage_kind : StorageKind
  pub physical_ref : Bytes

pub record VolumeMount : Type 0 where
  pub source : Bytes
  pub target : Bytes
  pub mode : Bytes
  pub read_only : Bool

abbrev has_ro : List Bytes → Bool
has_ro [] = false
has_ro (opt ∷ opts) = same_bytes (trim_space opt) (bytes "ro") || has_ro opts

abbrev mount_of : Bytes → Bytes → Bytes → Option VolumeMount
mount_of s t m =
    if is_empty s || not (is_abs t)
    then none
    else some (record { source = s; target = t; mode = m; read_only = has_ro (split b',' m) })

abbrev mount_parts : List Bytes → Option VolumeMount
mount_parts (s ∷ t ∷ []) = mount_of s t (bytes "rw")
mount_parts (s ∷ t ∷ m ∷ []) = mount_of s t m
mount_parts _ = none

unfoldable pub parse_volume_mount : Bytes → Option VolumeMount
unfolding split trim_space
parse_volume_mount value = mount_parts (split b':' value)

abbrev pub is_relative : Bytes → Bool
is_relative s = has_prefix (bytes "./") s || has_prefix (bytes "../") s

unfoldable pub canonical_storage_key : Bytes → Bytes
unfolding has_prefix clean
canonical_storage_key s = if is_relative s then clean s else s

-- `none`: an absolute host path
unfoldable pub logical_storage_name : Bytes → Option (Bytes × StorageKind)
unfolding has_prefix canonical_storage_key
logical_storage_name s =
    if is_empty s || is_abs s
    then none
    else some (canonical_storage_key s, if is_relative s then bind else volume)

-- `none`: the path leaves the data of the app
unfoldable pub clean_relative_storage : Bytes → Option Bytes
unfolding clean has_prefix
clean_relative_storage s =
    let c = clean s in
    if same_bytes c (bytes ".")
      || same_bytes c (bytes "..")
      || is_abs c
      || has_prefix (bytes "../") c
    then none
    else some c

-- filepath.Join(AppsRoot, "data", ID, clean)
unfoldable pub bind_ref : Bytes → Bytes → Bytes → Bytes
unfolding join_path
bind_ref root id c = join_path (root ∷ bytes "data" ∷ id ∷ c ∷ [])

-- `digest` gives the first twelve hexadecimal digits of a SHA-256.
unfoldable pub managed_volume_name : (Bytes → Bytes) → Bytes → Bytes → Bytes
managed_volume_name digest id logical = bytes "se-vol-" ++ (id ++ b'-' ∷ digest logical)
