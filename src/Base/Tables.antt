-- ===== src/Base/Tables.antt =====
-- A Go map whose keys are texts as bytes.
use mathlib.Core.Path.{◌≡◌, refl}
use mathlib.Core.Option.{Option, none, some}
use mathlib.Core.List.{List, [], ◌∷◌}
use native.Mathlib.Omega.{arith}
use space_elevator.Base.Tests.{if◌then◌else◌}
use space_elevator.Base.Text.{Bytes, same_bytes}
use space_elevator.Base.Text.Same.{same_bytes_iff}

abbrev pub Table {ℓ} : Type ℓ → Type ℓ
Table V = List (Bytes × V)

module _ {ℓ} {V : Type ℓ} where
  -- `m[k] = v`
  unfoldable pub put : Bytes → V → Table V → Table V
  put k v [] = (k, v) ∷ []
  put k v ((j, w) ∷ m) = if same_bytes j k then (k, v) ∷ m else (j, w) ∷ put k v m

  unfoldable pub put_all : Table V → Table V → Table V
  unfolding put
  put_all [] m = m
  put_all ((k, v) ∷ more) m = put_all more (put k v m)

  -- `m[k]`, with whether it is there
  unfoldable pub get : Bytes → Table V → Option V
  get k [] = none
  get k ((j, v) ∷ m) = if same_bytes j k then some v else get k m

  pub get-put :
      (k : Bytes) (v : V) (j : Bytes) (m : Table V)
      → get j (put k v m) ≡ (if same_bytes k j then some v else get j m)
  unfolding get put
  get-put k v j [] = refl
  get-put k v j ((i, w) ∷ m) =
      ground (arith, get-put k v j m, same_bytes_iff i k, same_bytes_iff k j, same_bytes_iff i j)
