-- ===== src/Base/Text/Same.antt =====
-- Equality of texts as a Boolean.
use mathlib.Core.Path.{◌≡◌, refl, subst}
use mathlib.Core.Logic.{◌↔◌}
use mathlib.Core.Bool.{true}
use mathlib.Core.List.{[], ◌∷◌}
use native.Mathlib.Omega.{arith}
use space_elevator.Base.Text.{Bytes, same_bytes}

pub same_bytes_iff : (s t : Bytes) → (same_bytes s t ≡ true) ↔ (s ≡ t)
same_bytes_iff s t = (to s t, λ e. subst (λ x. same_bytes s x ≡ true) e (same_bytes-refl s))
  where
    to : (s t : Bytes) → same_bytes s t ≡ true → s ≡ t
    to [] [] h = refl
    to [] (b ∷ t) h = cc
    to (a ∷ s) [] h = cc
    to (a ∷ s) (b ∷ t) h = ground (arith, to s t)

    same_bytes-refl : (s : Bytes) → same_bytes s s ≡ true
    same_bytes-refl [] = refl
    same_bytes-refl (a ∷ s) = ground (arith, same_bytes-refl s)
