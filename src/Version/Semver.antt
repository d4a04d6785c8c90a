-- ===== src/Version/Semver.antt =====
-- semver.go: Parse and Compare. Texts are bytes.
pub mod Ordered
pub mod Dotted
use space_elevator.Base.{
  ℕ, ◌+◌, ◌-◌, ◌*◌, ◌^◌, Bool, true, false, not, ◌&&◌, ◌||◌, Option, none, some, List, [], ◌∷◌,
  ◌++◌, ltb, leb, ◌==◌, if◌then◌else◌, Bytes, trim_space, split,
}

-- semver
pub record Semver : Type 0 where
  pub major : ℕ
  pub minor : ℕ
  pub patch : ℕ

-- strings.TrimPrefix(v, "v")
abbrev pub without_v : Bytes → Bytes
without_v [] = []
without_v (c ∷ s) = if c == b'v' then s else c ∷ s

abbrev pub is_digit : ℕ → Bool
is_digit c = leb b'0' c && leb c b'9'

-- The value of a text of digits, behind the value of those before it.
unfoldable pub digits : ℕ → Bytes → Option ℕ
digits n [] = some n
digits n (c ∷ s) = let rest = digits (10 * n + (c - b'0')) s in if is_digit c then rest else none

abbrev some_digits : Bytes → Option ℕ
some_digits [] = none
some_digits (c ∷ s) = digits 0 (c ∷ s)

abbrev pub max_int : ℕ
max_int = 2 ^ 63 - 1

-- strconv.Atoi takes a sign; a negative value is refused by the caller, so only "-0" passes.
abbrev in_range : ℕ → Option ℕ → Option ℕ
in_range limit none = none
in_range limit (some n) = if leb n limit then some n else none

unfoldable pub atoi : Bytes → Option ℕ
unfolding digits
atoi [] = none
atoi (c ∷ s) =
    if c == b'-'
    then in_range 0 (some_digits s)
    else if c == b'+'
    then in_range max_int (some_digits s)
    else in_range max_int (digits 0 (c ∷ s))

-- one round of the loop over the parts
abbrev leading_zero : Bytes → Bool
leading_zero [] = true
leading_zero (c ∷ []) = false
leading_zero (c ∷ d ∷ s) = c == b'0'

unfoldable pub parse_part : Bytes → Option ℕ
unfolding atoi
parse_part p = if leading_zero p then none else atoi p

abbrev three : Option ℕ → Option ℕ → Option ℕ → Option Semver
three (some a) (some b) (some c) = some (record { major = a; minor = b; patch = c })
three _ _ _ = none

abbrev parse_parts : List Bytes → Option Semver
parse_parts (a ∷ b ∷ c ∷ []) = three (parse_part a) (parse_part b) (parse_part c)
parse_parts _ = none

-- `none` is ok=false
unfoldable pub parse : Bytes → Option Semver
unfolding parse_part split
parse v = parse_parts (split b'.' (without_v (trim_space v)))

-- -1, 0 and 1
pub data Sign : Type 0 where
  less same greater : Sign

-- The first of the three differences that is not 0. The parts are at most `max_int`, so no
-- difference overflows.
unfoldable pub compare_parts : Semver → Semver → Sign
compare_parts a b =
    if ltb a.major b.major
    then less
    else if ltb b.major a.major
    then greater
    else if ltb a.minor b.minor
    then less
    else if ltb b.minor a.minor
    then greater
    else if ltb a.patch b.patch
    then less
    else if ltb b.patch a.patch
    then greater
    else same

abbrev compare_parsed : Option Semver → Option Semver → Option Sign
compare_parsed (some a) (some b) = some (compare_parts a b)
compare_parsed _ _ = none

-- `none` is ok=false
unfoldable pub compare : Bytes → Bytes → Option Sign
unfolding parse compare_parts
compare a b = compare_parsed (parse a) (parse b)
