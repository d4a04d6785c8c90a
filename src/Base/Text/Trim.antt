-- ===== src/Base/Text/Trim.antt =====
-- Texts that `strings.TrimSpace` leaves alone: those that begin and end with a graphic ASCII byte.
use Prim.Native.Nat.{ℕ, zero, suc}
use mathlib.Core.Path.{◌≡◌, refl, ◌∙◌}
use mathlib.Core.Bool.{Bool, true, false, ◌&&◌}
use mathlib.Core.List.{[], ◌∷◌, ◌++◌, reverse, reverse_aux, reverse-reverse}
use native.Mathlib.Omega.{arith}
use space_elevator.Base.Tests.{leb}
use space_elevator.Base.Lists.{length}
use space_elevator.Base.Text.{
  Bytes, ascii_space, two_space, three_space, space_width, space_width_end, strip, trim_space,
}

-- 0x21 to 0x7e
abbrev pub is_graphic : ℕ → Bool
is_graphic c = leb 33 c && leb c 126

abbrev pub begins_graphic : Bytes → Bool
begins_graphic [] = true
begins_graphic (c ∷ s) = is_graphic c

abbrev pub ends_graphic : Bytes → Bool
ends_graphic [] = true
ends_graphic (c ∷ []) = is_graphic c
ends_graphic (c ∷ d ∷ s) = ends_graphic (d ∷ s)

graphic-not_space : (c : ℕ) → is_graphic c ≡ true → ascii_space c ≡ false
unfolding ascii_space
graphic-not_space c h = ground arith

graphic-not_two : (a b : ℕ) → is_graphic a ≡ true → two_space a b ≡ false
unfolding two_space
graphic-not_two a b h = ground arith

graphic-not_three : (a b c : ℕ) → is_graphic a ≡ true → three_space a b c ≡ false
unfolding three_space
graphic-not_three a b c h = ground arith

graphic-not_two_end : (a b : ℕ) → is_graphic a ≡ true → two_space b a ≡ false
unfolding two_space
graphic-not_two_end a b h = ground arith

graphic-not_three_end : (a b c : ℕ) → is_graphic a ≡ true → three_space c b a ≡ false
unfolding three_space
graphic-not_three_end a b c h = ground arith

space_width-graphic : (s : Bytes) → begins_graphic s ≡ true → space_width s ≡ 0
unfolding space_width
space_width-graphic [] h = refl
space_width-graphic (a ∷ []) h = rw (graphic-not_space a h) refl
space_width-graphic (a ∷ b ∷ []) h = rw (graphic-not_space a h, graphic-not_two a b h) refl
space_width-graphic (a ∷ b ∷ c ∷ s) h =
    rw (graphic-not_space a h, graphic-not_two a b h, graphic-not_three a b c h) refl

space_width_end-graphic : (s : Bytes) → begins_graphic s ≡ true → space_width_end s ≡ 0
unfolding space_width_end
space_width_end-graphic [] h = refl
space_width_end-graphic (a ∷ []) h = rw (graphic-not_space a h) refl
space_width_end-graphic (a ∷ b ∷ []) h = rw (graphic-not_space a h, graphic-not_two_end a b h) refl
space_width_end-graphic (a ∷ b ∷ c ∷ s) h =
    rw (graphic-not_space a h, graphic-not_two_end a b h, graphic-not_three_end a b c h) refl

strip-zero : (width : Bytes → ℕ) (n : ℕ) (s : Bytes) → width s ≡ 0 → strip width n s ≡ s
unfolding strip
strip-zero width zero s h = refl
strip-zero width (suc n) s h = rw h refl

-- The last byte comes first behind `reverse`.
pub ends-append : (s t : Bytes) (c : ℕ) → ends_graphic (s ++ c ∷ t) ≡ ends_graphic (c ∷ t)
ends-append [] t c = refl
ends-append (a ∷ []) t c = refl
ends-append (a ∷ b ∷ s) t c = ends-append (b ∷ s) t c

begins-reverse_aux :
    (s done : Bytes) (c : ℕ) → begins_graphic (reverse_aux s (c ∷ done)) ≡ ends_graphic (c ∷ s)
begins-reverse_aux [] done c = refl
begins-reverse_aux (d ∷ s) done c = begins-reverse_aux s (c ∷ done) d

begins-reverse : (s : Bytes) → ends_graphic s ≡ true → begins_graphic (reverse s) ≡ true
begins-reverse [] h = refl
begins-reverse (c ∷ s) h = begins-reverse_aux s [] c ∙ h

pub trim_space-graphic :
    (s : Bytes) → begins_graphic s ≡ true → ends_graphic s ≡ true → trim_space s ≡ s
unfolding trim_space
trim_space-graphic s b e =
    rw
      (
        strip-zero space_width (length s) s (space_width-graphic s b),
        strip-zero space_width_end (length s) (reverse s)
            (space_width_end-graphic (reverse s) (begins-reverse s e)),
      )
      (reverse-reverse s)
