-- ===== src/Builder/Archive/SafeJoin.antt =====
-- archive.go: safeJoin and rejectSymlinkComponents, for a root given by its absolute path. What
-- os.Lstat answers is a function of the path.
use space_elevator.Base.{
  Bool, not, ◌||◌, List, [], ◌∷◌, ◌⊎◌, inl, inr, Option, none, some, if◌then◌else◌, Bytes, bytes,
  is_empty, same_bytes, has_prefix, lacks, is_abs, trim_space, split, clean, join_path, rel_path,
  dot, dot_dot,
}

-- os.Lstat: not found, another error, a symbolic link, or anything else
pub data Look : Type 0 where
  missing : Look
  denied : Bytes → Look
  symlink plain : Look

-- The components of the target below the root, each one looked up; a missing one ends the search.
unfoldable pub reject_components : (Bytes → Look) → Bytes → List Bytes → Option Bytes
unfolding join_path
reject_components lstat current [] = none
reject_components lstat current (part ∷ parts) =
    let below = join_path (current ∷ part ∷ []) in
    let rest = reject_components lstat below parts in
    elim (lstat below) [
      | missing ↦ none
      | denied e ↦ some e
      | symlink ↦ some (bytes "archive destination contains symlink")
      | plain ↦ rest
    ]

unfoldable pub reject_symlink_components : (Bytes → Look) → Bytes → Bytes → Option Bytes
unfolding reject_components rel_path split
reject_symlink_components lstat root target =
    let rel = rel_path root target in
    if same_bytes rel dot then none else reject_components lstat root (split b'/' rel)

abbrev pub climbs_out : Bytes → Bool
climbs_out s = same_bytes s dot_dot || has_prefix (bytes "../") s

abbrev pub illegal_path : Bytes
illegal_path = bytes "illegal path in archive"

-- An empty name is the root's.
abbrev pub or_dot : Bytes → Bytes
or_dot s = if is_empty s then dot else s

-- From `filepath.Join` on: the target under the root, and its components.
unfoldable pub join_below : (Bytes → Look) → Bytes → Bytes → Bytes ⊎ Bytes
unfolding reject_symlink_components join_path clean rel_path
join_below lstat root name =
    let target = clean (join_path (root ∷ name ∷ [])) in
    if climbs_out (rel_path root target)
    then inl illegal_path
    else elim (reject_symlink_components lstat root target) [ some e ↦ inl e | none ↦ inr target ]

-- The root itself must not be a link, and may be missing.
abbrev pub root_refused : Look → Option Bytes
root_refused missing = none
root_refused (denied e) = some e
root_refused symlink = some (bytes "archive destination root is a symlink")
root_refused plain = none

-- The error, or the target
unfoldable pub safe_join : (Bytes → Look) → Bytes → Bytes → Bytes ⊎ Bytes
unfolding join_below trim_space clean has_prefix
safe_join lstat root given =
    let name = or_dot (trim_space given) in
    let cleaned = clean name in
    let root_abs = clean root in
    if not (lacks 0 name) || has_prefix (bytes "/") name || is_abs name
    then inl illegal_path
    else if climbs_out cleaned
    then inl illegal_path
    else elim (root_refused (lstat root_abs)) [
      | some e ↦ inl e
      | none ↦ join_below lstat root_abs cleaned
    ]
