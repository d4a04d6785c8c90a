-- ===== src/Base/Text.antt =====
-- Texts that the program cuts, trims or walks: lists of UTF-8 bytes. `trim_space` is
-- `strings.TrimSpace`, `bytes` the bytes of a literal (ASCII).
pub mod Trim
pub mod Split
pub mod Same
use Prim.Native.Nat.{ℕ, zero, suc}
use Prim.Native.Char.{code}
use Prim.Native.String.{String}
use mathlib.Core.Bool.{Bool, true, false, ◌&&◌, ◌||◌}
use mathlib.Core.List.{List, [], ◌∷◌, reverse}
use space_elevator.Base.Tests.{leb, ◌==◌, if◌then◌else◌}
use space_elevator.Base.Lists.{length, drop}

abbrev pub Bytes : Type 0
Bytes = List ℕ

abbrev pub bytes : String → Bytes
bytes String.[] = []
bytes (String.◌∷◌ c s) = code c ∷ bytes s

abbrev pub same_bytes : Bytes → Bytes → Bool
same_bytes [] [] = true
same_bytes [] (b ∷ t) = false
same_bytes (a ∷ s) [] = false
same_bytes (a ∷ s) (b ∷ t) = a == b && same_bytes s t

abbrev pub is_empty : Bytes → Bool
is_empty [] = true
is_empty (a ∷ s) = false

-- `strings.HasPrefix s p`, the prefix first.
unfoldable pub has_prefix : Bytes → Bytes → Bool
has_prefix [] s = true
has_prefix (p ∷ ps) [] = false
has_prefix (p ∷ ps) (c ∷ s) = p == c && has_prefix ps s

-- `strings.Contains s p`, the part first.
unfoldable pub has_part : Bytes → Bytes → Bool
unfolding has_prefix
has_part p [] = is_empty p
has_part p (c ∷ s) = has_prefix p (c ∷ s) || has_part p s

-- The white space of `unicode.IsSpace` that is one byte long.
ascii_space : ℕ → Bool
ascii_space c = leb 9 c && leb c 13 || c == 32

-- U+0085 and U+00A0.
two_space : ℕ → ℕ → Bool
two_space a b = a == 0xc2 && (b == 0x85 || b == 0xa0)

-- U+1680, U+2000 to U+200A, U+2028, U+2029, U+202F, U+205F and U+3000.
three_space : ℕ → ℕ → ℕ → Bool
three_space a b c =
    a == 0xe1 && b == 0x9a && c == 0x80
    || a == 0xe2 && b == 0x80 && (leb 0x80 c && leb c 0x8a || c == 0xa8 || c == 0xa9 || c == 0xaf)
    || a == 0xe2 && b == 0x81 && c == 0x9f
    || a == 0xe3 && b == 0x80 && c == 0x80

-- The number of bytes of the white space at the head of a text; 0 if there is none.
space_width : Bytes → ℕ
unfolding ascii_space two_space three_space
space_width [] = 0
space_width (a ∷ []) = if ascii_space a then 1 else 0
space_width (a ∷ b ∷ []) = if ascii_space a then 1 else if two_space a b then 2 else 0
space_width (a ∷ b ∷ c ∷ s) =
    if ascii_space a then 1 else if two_space a b then 2 else if three_space a b c then 3 else 0

-- The same at the end of a text, read from the end.
space_width_end : Bytes → ℕ
unfolding ascii_space two_space three_space
space_width_end [] = 0
space_width_end (a ∷ []) = if ascii_space a then 1 else 0
space_width_end (a ∷ b ∷ []) = if ascii_space a then 1 else if two_space b a then 2 else 0
space_width_end (a ∷ b ∷ c ∷ s) =
    if ascii_space a then 1 else if two_space b a then 2 else if three_space c b a then 3 else 0

-- Each round drops a byte at least, so a round for each byte is enough.
strip : (Bytes → ℕ) → ℕ → Bytes → Bytes
strip width zero s = s
strip width (suc n) s =
    let rest = strip width n (drop (width s) s) in if width s == 0 then s else rest

unfoldable pub trim_space : Bytes → Bytes
unfolding space_width space_width_end strip
trim_space s =
    let t = strip space_width (length s) s in reverse (strip space_width_end (length t) (reverse t))
