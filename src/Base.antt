-- ===== src/Base.antt =====
-- The names that the other modules share: the libraries', passed on, and those of the children.
mod Tests
mod Lists
pub mod Text
mod Maps
pub mod Paths
mod Tables
pub use Tests.*
pub use Lists.{
  length, take, drop, length-append, length-take, length-drop, take-append-drop, drop-length, All,
  Any, All-append, All-append_right, All-append_left, All-drop, All-map,
}
pub use Lists.{
  tally-append, tally-amend-le, tally-amend, length-amend, tally-le-length, tally-zero,
  All-of_tally, All-sift, first-amend, first-append, tally_of_first, first_of_tally,
  first-append_new,
}
unfoldable pub use Lists.{sift, tally, first, amend}
pub use Maps.{
  Dict, lookup-insert, lookup-remove, length-insert_new, length-insert_old, length-remove-le,
}
unfoldable pub use Maps.{lookup, insert, remove}
pub use Text.{Bytes, bytes, same_bytes, is_empty}
unfoldable pub use Text.Split.{split, join}
pub use Text.Same.{same_bytes_iff}
pub use Text.Split.{
  lacks, lacks-append, split-join, split-lacks, join-split, join-append, join-cons_split,
  join-append_split,
}
pub use Tables.{Table, get-put}
unfoldable pub use Tables.{put, put_all, get}
unfoldable pub use Paths.{clean, join_path, rel_path}
pub use Paths.{is_abs, slash, dot, dot_dot}
unfoldable pub use Text.{has_prefix, has_part, trim_space}
pub use Prim.Native.Nat.{ℕ, zero, suc, ◌+◌, ◌-◌, ◌*◌, ◌/◌, ◌%◌, ◌^◌, ◌≤◌, ◌<◌, min, max}
pub use Prim.Native.String.{String}
pub use mathlib.Core.Path.{◌≡◌, refl, sym, subst, ap, ◌∙◌}
pub use mathlib.Core.Logic.{◌≢◌, ◌↔◌, ◌⊎◌, inl, inr}
pub use mathlib.Core.Bool.{Bool, true, false, not, ◌&&◌, ◌||◌}
pub use mathlib.Core.Option.{Option, none, some}
pub use mathlib.Core.List.{List, [], ◌∷◌, ◌++◌, map}
pub use native.Mathlib.Omega.{arith}
pub use text.Mathlib.Text.{◌==◌ as str_eq}
pub use text.Mathlib.TextEquality.{eq_iff}
