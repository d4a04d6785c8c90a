-- ===== src/Base/Paths/Elements.antt =====
-- Which elements a cleaned path has.
use mathlib.Core.Path.{◌≡◌, refl}
use mathlib.Core.Logic.{◌⊎◌, inl, inr}
use mathlib.Core.Bool.{Bool, true, false, not, ◌&&◌, ◌||◌}
use mathlib.Core.List.{List, [], ◌∷◌, foldl}
use native.Mathlib.Omega.{arith}
use space_elevator.Base.Tests.{Bool-cases}
use space_elevator.Base.Lists.{All}
use space_elevator.Base.Text.{Bytes, is_empty, same_bytes}
use space_elevator.Base.Text.Split.{lacks}
use space_elevator.Base.Paths.{dot, dot_dot, leave_element, clean_element}

-- An element that names a file or a directory below the one before it.
abbrev pub is_element : Bytes → Bool
is_element e = lacks b'/' e && not (is_empty e || same_bytes e dot || same_bytes e dot_dot)

abbrev pub IsElement : Bytes → Type 0
IsElement e = is_element e ≡ true

-- The path leaves the directory that it is read in: its first element is `..`.
abbrev pub begins_dot_dot : List Bytes → Bool
begins_dot_dot [] = false
begins_dot_dot (e ∷ []) = same_bytes e dot_dot
begins_dot_dot (e ∷ f ∷ out) = begins_dot_dot (f ∷ out)

-- The elements so far, the last first.
abbrev pub Walked : List Bytes → Type 0
Walked out = All IsElement out ⊎ (begins_dot_dot out ≡ true)

leave_element-Walked : (out : List Bytes) → Walked out → Walked (leave_element false out)
leave_element-Walked [] h = inr refl
leave_element-Walked (e ∷ []) (inl h) =
    let e' : same_bytes e dot_dot ≡ false = ground (arith, h.0) in rw e' (inl tt)
leave_element-Walked (e ∷ []) (inr h) = rw h (inr h)
leave_element-Walked (e ∷ f ∷ out) (inl h) =
    let e' : same_bytes e dot_dot ≡ false = ground (arith, h.0) in rw e' (inl h.1)
leave_element-Walked (e ∷ f ∷ out) (inr h) = elim (Bool-cases (same_bytes e dot_dot)) [
  | inl e' ↦ rw e' (inr h)
  | inr e' ↦ rw e' (inr h)
]

begins-later :
    (e : Bytes) (out : List Bytes) → begins_dot_dot out ≡ true → begins_dot_dot (e ∷ out) ≡ true
begins-later e [] h = cc
begins-later e (f ∷ out) h = h

clean_element-Walked :
    (out : List Bytes) (e : Bytes)
    → lacks b'/' e ≡ true
    → Walked out
    → Walked (clean_element false out e)
clean_element-Walked out e l h = elim (Bool-cases (is_empty e || same_bytes e dot)) [
  | inl s ↦ rw s h
  | inr s ↦ elim (Bool-cases (same_bytes e dot_dot)) [
    | inl d ↦ rw (s, d) (leave_element-Walked out h)
    | inr d ↦
        rw (s, d)
          (elim h [ inl a ↦ inl (ground (arith, l, s, d), a) | inr b ↦ inr (begins-later e out b) ])
  ]
]

pub walk-Walked :
    (es out : List Bytes)
    → All (λ e. lacks b'/' e ≡ true) es
    → Walked out
    → Walked (foldl (clean_element false) out es)
walk-Walked [] out l h = h
walk-Walked (e ∷ es) out l h =
    walk-Walked es (clean_element false out e) l.1 (clean_element-Walked out e l.0 h)
