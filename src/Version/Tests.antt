-- ===== src/Version/Tests.antt =====
-- Versions of internal/version on concrete texts.
use space_elevator.Base.{◌≡◌, ◌↔◌, true, false, arith, refl, some, Bytes, bytes, trim_space, split}
use space_elevator.Version.Semver.{
  less, same, greater, parse, compare, parse_part, atoi, digits, compare_parts,
}
use space_elevator.Version.Semver.Dotted.{Parts, written, version, Before, compare-written}

abbrev old : Bytes
old = bytes "v1.9.12"

abbrev new : Bytes
new = bytes "1.10.0"

old_before_new : compare old new ≡ some less
unfolding compare parse split parse_part atoi digits compare_parts trim_space
old_before_new = refl

-- A sign before a part is taken, and so is a negative zero.
signed_parts : parse (bytes "v+1.-0.2") ≡ some (record { major = 1; minor = 0; patch = 2 })
unfolding parse split parse_part atoi digits trim_space
signed_parts = refl

abbrev old_parts : Parts
old_parts = (bytes "1", bytes "9", bytes "12")

abbrev new_parts : Parts
new_parts = (bytes "1", bytes "10", bytes "0")

compare-written_example :
    (parse (written true old_parts) ≡ some (version old_parts))
    × ((compare (written true old_parts) (written false new_parts) ≡ some less)
        ↔ Before (version old_parts) (version new_parts))
    × ((compare (written true old_parts) (written false new_parts) ≡ some same)
        ↔ (version old_parts ≡ version new_parts))
    × ((compare (written true old_parts) (written false new_parts) ≡ some greater)
        ↔ Before (version new_parts) (version old_parts))
compare-written_example =
    compare-written true false old_parts new_parts
      ((refl, refl, omega arith), (refl, refl, omega arith), (refl, refl, omega arith))
      ((refl, refl, omega arith), (refl, refl, omega arith), (refl, refl, omega arith))
