-- ===== src/Version/Semver/Dotted.antt =====
-- What Parse and Compare make of versions in their usual form.
use mathlib.Core.List.{foldl}
use space_elevator.Base.{
  ℕ, ◌+◌, ◌-◌, ◌*◌, ◌^◌, ◌≤◌, ◌<◌, ◌≡◌, ◌↔◌, ◌⊎◌, refl, sym, ap, ◌∙◌, Bool, true, false, ◌&&◌, some,
  [], ◌∷◌, ◌++◌, leb, ◌==◌, Bytes, split, join, lacks, split-join, arith,
}
use space_elevator.Base.Text.Trim.{
  is_graphic, begins_graphic, ends_graphic, ends-append, trim_space-graphic,
}
use space_elevator.Version.Semver.{
  Semver, Sign, less, same, greater, is_digit, digits, atoi, parse_part, parse, compare_parts,
  compare, without_v, max_int, in_range,
}
use space_elevator.Version.Semver.Ordered.{compare_parts-same, compare_parts_refl}

-- The number that a text of decimal digits stands for.
abbrev pub decimal : Bytes → ℕ
decimal s = foldl (λ n c. 10 * n + (c - 48)) 0 s

abbrev all_digits : Bytes → Bool
all_digits [] = true
all_digits (c ∷ s) = leb 48 c && leb c 57 && all_digits s

-- No digit, or a zero in front of another digit.
abbrev badly_begun : Bytes → Bool
badly_begun [] = true
badly_begun (c ∷ []) = false
badly_begun (c ∷ d ∷ s) = c == 48

-- A part of a version: a decimal number below 2^63.
abbrev pub IsPart : Bytes → Type 0
IsPart s = (all_digits s ≡ true) × (badly_begun s ≡ false) × (decimal s < 2 ^ 63)

digits-decimal :
    (n : ℕ) (s : Bytes)
    → all_digits s ≡ true
    → digits n s ≡ some (foldl (λ n c. 10 * n + (c - 48)) n s)
unfolding digits
digits-decimal n [] h = refl
digits-decimal n (c ∷ s) h =
    let d : is_digit c ≡ true = ground arith in
    rw (d, foldl) (digits-decimal (10 * n + (c - 48)) s (ground arith))

in_range-below : (limit n : ℕ) → n ≤ limit → in_range limit (some n) ≡ some n
in_range-below limit n h = ground arith

atoi-decimal :
    (c : ℕ) (s : Bytes)
    → all_digits (c ∷ s) ≡ true
    → decimal (c ∷ s) < 2 ^ 63
    → atoi (c ∷ s) ≡ some (decimal (c ∷ s))
unfolding atoi
atoi-decimal c s h r =
    let minus : (c == 45) ≡ false = ground arith in
    let plus : (c == 43) ≡ false = ground arith in
    rw (minus, plus, digits-decimal 0 (c ∷ s) h)
      (in_range-below max_int (decimal (c ∷ s)) (omega (arith, r)))

parse_part-decimal : (s : Bytes) → IsPart s → parse_part s ≡ some (decimal s)
unfolding parse_part
parse_part-decimal [] (d, b, r) = absurd cc
parse_part-decimal (c ∷ []) (d, b, r) = atoi-decimal c [] d r
parse_part-decimal (c ∷ e ∷ s) (d, b, r) = rw b (atoi-decimal c (e ∷ s) d r)

digit-facts :
    (c : ℕ)
    → leb 48 c && leb c 57 ≡ true
    → (is_graphic c ≡ true) × ((c == b'.') ≡ false) × ((c == b'v') ≡ false)
digit-facts c h = (ground arith, ground arith, ground arith)

digits-lack : (s : Bytes) → all_digits s ≡ true → lacks b'.' s ≡ true
digits-lack [] h = refl
digits-lack (c ∷ s) h = ground (arith, digits-lack s, digit-facts c)

digits-end : (c : ℕ) (s : Bytes) → all_digits (c ∷ s) ≡ true → ends_graphic (c ∷ s) ≡ true
digits-end c [] h = (digit-facts c (ground arith)).0
digits-end c (d ∷ s) h = digits-end d s (ground arith)

-- The texts of the three parts.
abbrev pub Parts : Type 0
Parts = Bytes × Bytes × Bytes

abbrev pub AreParts : Parts → Type 0
AreParts (a, b, c) = IsPart a × IsPart b × IsPart c

-- `v1.2.3`, or without the `v`
abbrev pub written : Bool → Parts → Bytes
written true (a, b, c) = b'v' ∷ (a ++ b'.' ∷ (b ++ b'.' ∷ c))
written false (a, b, c) = a ++ b'.' ∷ (b ++ b'.' ∷ c)

abbrev pub version : Parts → Semver
version (a, b, c) = record { major = decimal a; minor = decimal b; patch = decimal c }

written-ends : (v : Bool) (p : Parts) → AreParts p → ends_graphic (written v p) ≡ true
written-ends v (a, b, []) (ha, hb, hc) = absurd cc
written-ends false (a, b, c ∷ s) (ha, hb, hc) =
    ends-append a (b ++ b'.' ∷ c ∷ s) b'.'
    ∙ ends-append (b'.' ∷ b) (c ∷ s) b'.'
    ∙ digits-end c s hc.0
written-ends true (a, b, c ∷ s) (ha, hb, hc) =
    ends-append (b'v' ∷ a) (b ++ b'.' ∷ c ∷ s) b'.'
    ∙ ends-append (b'.' ∷ b) (c ∷ s) b'.'
    ∙ digits-end c s hc.0

written-begins :
    (v : Bool) (p : Parts)
    → AreParts p
    → (begins_graphic (written v p) ≡ true) × (without_v (written v p) ≡ written false p)
written-begins v ([], b, c) (ha, hb, hc) = absurd cc
written-begins true (d ∷ a, b, c) (ha, hb, hc) = (refl, refl)
written-begins false (d ∷ a, b, c) (ha, hb, hc) =
    let (graphic, no_dot, no_v) = digit-facts d (ground (arith, ha.0)) in (graphic, rw no_v refl)

split-written : (p : Parts) → AreParts p → split b'.' (written false p) ≡ p.0 ∷ p.1 ∷ p.2 ∷ []
split-written (a, b, c) (ha, hb, hc) =
    unfold join in
    split-join b'.' a (b ∷ c ∷ [])
      (digits-lack a ha.0, (digits-lack b hb.0, (digits-lack c hc.0, tt)))

parse-written : (v : Bool) (p : Parts) → AreParts p → parse (written v p) ≡ some (version p)
unfolding parse
parse-written v (a, b, c) (ha, hb, hc) =
    let p : Parts = (a, b, c) in
    let (begins, bare) = written-begins v p (ha, hb, hc) in
    rw
      (
        trim_space-graphic (written v p) begins (written-ends v p (ha, hb, hc)),
        bare,
        split-written p (ha, hb, hc),
        parse_part-decimal a ha,
        parse_part-decimal b hb,
        parse_part-decimal c hc,
      )
      refl

-- The major numbers decide, then the minor ones, then the patches.
abbrev pub Before : Semver → Semver → Type 0
Before x y =
    (x.major < y.major)
    ⊎ ((x.major ≡ y.major) × ((x.minor < y.minor) ⊎ ((x.minor ≡ y.minor) × (x.patch < y.patch))))

less-Before : (x y : Semver) → (compare_parts x y ≡ less) ↔ Before x y
unfolding compare_parts
less-Before x y = (λ h. ground arith, λ h. ground arith)

greater-Before : (x y : Semver) → (compare_parts x y ≡ greater) ↔ Before y x
unfolding compare_parts
greater-Before x y = (λ h. ground arith, λ h. ground arith)

some-inner : (x y : Sign) → some x ≡ some y → x ≡ y
some-inner x y h = cc

-- On versions as they are written, with or without the "v", of three decimal numbers below 2^63 with
-- no leading zero, Parse gives the three numbers, and Compare says less where the first version is
-- before the second (the major number decides, then the minor one, then the patch), greater where it
-- is behind, and same where they are the same version.
pub compare-written :
    (v w : Bool) (p q : Parts)
    → AreParts p
    → AreParts q
    → (parse (written v p) ≡ some (version p))
      × ((compare (written v p) (written w q) ≡ some less) ↔ Before (version p) (version q))
      × ((compare (written v p) (written w q) ≡ some same) ↔ (version p ≡ version q))
      × ((compare (written v p) (written w q) ≡ some greater) ↔ Before (version q) (version p))
unfolding compare
compare-written v w p q hp hq =
    let x = version p in
    let y = version q in
    let back : compare (written v p) (written w q) ≡ some (compare_parts x y) =
      rw (parse-written v p hp, parse-written w q hq) refl in
    (
      parse-written v p hp,
      (
        λ h. (less-Before x y).0 (some-inner (compare_parts x y) less (sym back ∙ h)),
        λ h. back ∙ ap some ((less-Before x y).1 h),
      ),
      (
        λ h. compare_parts-same x y (some-inner (compare_parts x y) same (sym back ∙ h)),
        λ h. back ∙ ap (λ z. some (compare_parts x z)) (sym h) ∙ ap some (compare_parts_refl x),
      ),
      (
        λ h. (greater-Before x y).0 (some-inner (compare_parts x y) greater (sym back ∙ h)),
        λ h. back ∙ ap some ((greater-Before x y).1 h),
      ),
    )
