-- ===== src/Base/Maps.antt =====
-- A Go map with text keys, as an association list with at most one entry for a key. The code that
-- is modelled does not depend on the order of a map's entries.
use Prim.Native.Nat.{suc, ◌≤◌}
use Prim.Native.String.{String}
use mathlib.Core.Path.{◌≡◌, refl}
use mathlib.Core.Option.{Option, none, some}
use mathlib.Core.List.{List, [], ◌∷◌}
use native.Mathlib.Omega.{arith}
use text.Mathlib.Text.{◌==◌ as str_eq}
use text.Mathlib.TextEquality.{eq_iff}
use space_elevator.Base.Tests.{if◌then◌else◌}
use space_elevator.Base.Lists.{length}

abbrev pub Dict : Type 0 → Type 0
Dict V = List (String × V)

module _ {V : Type 0} where
  -- delete(m, k)
  unfoldable pub remove : String → Dict V → Dict V
  remove key [] = []
  remove key ((name, value) ∷ entries) =
      let others = remove key entries in if str_eq name key then others else (name, value) ∷ others

  -- m[k], with whether it is there
  unfoldable pub lookup : String → Dict V → Option V
  lookup key [] = none
  lookup key ((name, value) ∷ entries) =
      let others = lookup key entries in if str_eq name key then some value else others

  -- m[k] = v, at the place of an old entry
  unfoldable pub insert : String → V → Dict V → Dict V
  insert key new [] = (key, new) ∷ []
  insert key new ((name, value) ∷ entries) =
      let others = insert key new entries in
      if str_eq name key then (key, new) ∷ entries else (name, value) ∷ others

  pub lookup-remove :
      (k j : String) (m : Dict V)
      → lookup j (remove k m) ≡ (if str_eq k j then none else lookup j m)
  unfolding lookup remove
  lookup-remove k j [] = ground arith
  lookup-remove k j ((i, w) ∷ m) =
      ground (arith, eq_iff k j, eq_iff i k, eq_iff i j, lookup-remove k j m)

  pub length-insert_new :
      (k : String) (v : V) (m : Dict V) → lookup k m ≡ none → length (insert k v m) ≡ suc (length m)
  unfolding lookup insert
  length-insert_new k v [] h = refl
  length-insert_new k v ((j, w) ∷ m) h = ground (arith, length-insert_new k v m)

  pub length-insert_old :
      (k : String) (v w : V) (m : Dict V) → lookup k m ≡ some w → length (insert k v m) ≡ length m
  unfolding lookup insert
  length-insert_old k v w [] h = cc
  length-insert_old k v w ((j, u) ∷ m) h = ground (arith, length-insert_old k v w m)

  pub length-remove-le : (k : String) (m : Dict V) → length (remove k m) ≤ length m
  unfolding remove
  length-remove-le k [] = omega arith
  length-remove-le k ((j, v) ∷ m) = ground (arith, length-remove-le k m)

  pub lookup-insert :
      (key asked : String) (new : V) (entries : Dict V)
      → lookup asked (insert key new entries)
        ≡ (if str_eq key asked then some new else lookup asked entries)
  unfolding insert lookup
  lookup-insert key asked new [] = refl
  lookup-insert key asked new ((name, value) ∷ entries) =
      let others = lookup-insert key asked new entries in
      ground (arith, others, eq_iff name asked, eq_iff name key, eq_iff key asked)
