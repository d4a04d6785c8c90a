-- ===== src/Version/Semver/Ordered.antt =====
-- Compare is a total order on the versions that parse.
use space_elevator.Base.{◌≡◌, refl, ◌⊎◌, inl, inr, ap, Option, none, some, Bytes, arith}
use space_elevator.Version.Semver.{
  Semver, Sign, less, same, greater, parse, compare_parts, compare_parsed, compare,
}

abbrev pub flip : Sign → Sign
flip less = greater
flip same = same
flip greater = less

compare_parts-swap : (a b : Semver) → compare_parts b a ≡ flip (compare_parts a b)
unfolding compare_parts
compare_parts-swap a b = ground arith

compare_parts_trans :
    (a b c : Semver)
    → compare_parts a b ≡ less
    → compare_parts b c ≡ less
    → compare_parts a c ≡ less
unfolding compare_parts
compare_parts_trans a b c h k = ground arith

pub compare_parts-same : (a b : Semver) → compare_parts a b ≡ same → a ≡ b
unfolding compare_parts
compare_parts-same a b h = ground arith

pub compare_parts_refl : (a : Semver) → compare_parts a a ≡ same
unfolding compare_parts
compare_parts_refl a = ground arith

abbrev pub flipped : Option Sign → Option Sign
flipped none = none
flipped (some s) = some (flip s)

parsed-swap : (x y : Option Semver) → compare_parsed y x ≡ flipped (compare_parsed x y)
parsed-swap none none = refl
parsed-swap none (some b) = refl
parsed-swap (some a) none = refl
parsed-swap (some a) (some b) = ap some (compare_parts-swap a b)

parsed_trans :
    (x y z : Option Semver)
    → compare_parsed x y ≡ some less
    → compare_parsed y z ≡ some less
    → compare_parsed x z ≡ some less
parsed_trans none y z h k = absurd cc
parsed_trans (some a) none z h k = absurd cc
parsed_trans (some a) (some b) none h k = absurd cc
parsed_trans (some a) (some b) (some c) h k =
    ap some (compare_parts_trans a b c (ground arith) (ground arith))

parsed-same :
    (x y : Option Semver) → compare_parsed x y ≡ some same → (x ≡ y) × ((v : Semver) × (x ≡ some v))
parsed-same none y h = absurd cc
parsed-same (some a) none h = absurd cc
parsed-same (some a) (some b) h = (ap some (compare_parts-same a b (ground arith)), (a, refl))

parsed_none : (x y : Option Semver) → compare_parsed x y ≡ none → (x ≡ none) ⊎ (y ≡ none)
parsed_none none y h = inl refl
parsed_none (some a) none h = inr refl
parsed_none (some a) (some b) h = absurd cc

-- On texts that parse, Compare is a total order: it turns around when its arguments are swapped, less
-- is transitive, and it says that two texts are the same only where they parse to the same version. It
-- refuses to compare only where one of the two does not parse.
pub compare_order :
    (a b c : Bytes)
    → (compare b a ≡ flipped (compare a b))
      × (compare a b ≡ some less → compare b c ≡ some less → compare a c ≡ some less)
      × (compare a b ≡ some same → (parse a ≡ parse b) × ((v : Semver) × (parse a ≡ some v)))
      × (compare a b ≡ none → (parse a ≡ none) ⊎ (parse b ≡ none))
unfolding compare
compare_order a b c = (
  parsed-swap (parse a) (parse b),
  parsed_trans (parse a) (parse b) (parse c),
  parsed-same (parse a) (parse b),
  parsed_none (parse a) (parse b),
)
