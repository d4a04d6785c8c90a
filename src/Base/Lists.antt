-- ===== src/Base/Lists.antt =====
-- Lists measured and cut by native numbers, and predicates on their elements by recursion.
use Prim.Native.Nat.{ℕ, zero, suc, ◌+◌, ◌-◌, ◌≤◌, ◌<◌, min}
use mathlib.Core.Path.{◌≡◌, refl}
use mathlib.Core.Bool.{Bool, true, false}
use mathlib.Core.Logic.{◌⊎◌, inl, inr}
use mathlib.Core.Option.{Option, none, some}
use mathlib.Core.List.{List, [], ◌∷◌, ◌++◌}
use native.Mathlib.Omega.{arith}
use space_elevator.Base.Tests.{if◌then◌else◌, Bool-cases}

module _ {ℓ} {A : Type ℓ} where
  abbrev pub length : List A → ℕ
  length [] = 0
  length (x ∷ xs) = suc (length xs)

  abbrev pub take : ℕ → List A → List A
  take zero xs = []
  take (suc n) [] = []
  take (suc n) (x ∷ xs) = x ∷ take n xs

  abbrev pub drop : ℕ → List A → List A
  drop zero xs = xs
  drop (suc n) [] = []
  drop (suc n) (x ∷ xs) = drop n xs

  -- The elements that pass a Boolean test, in order.
  unfoldable pub sift : (A → Bool) → List A → List A
  sift p [] = []
  sift p (x ∷ xs) = let rest = sift p xs in if p x then x ∷ rest else rest

  -- The number of elements that pass a Boolean test.
  unfoldable pub tally : (A → Bool) → List A → ℕ
  tally p [] = 0
  tally p (x ∷ xs) = let rest = tally p xs in if p x then suc rest else rest

  -- The first element that passes a Boolean test.
  unfoldable pub first : (A → Bool) → List A → Option A
  first p [] = none
  first p (x ∷ xs) = let rest = first p xs in if p x then some x else rest

  pub length-append : (xs ys : List A) → length (xs ++ ys) ≡ length xs + length ys
  length-append [] ys = omega arith
  length-append (x ∷ xs) ys = omega (arith, length-append xs ys)

module _ {ℓ} {A : Type ℓ} where
  pub length-take : (n : ℕ) (xs : List A) → length (take n xs) ≡ min n (length xs)
  length-take zero xs = omega arith
  length-take (suc n) [] = omega arith
  length-take (suc n) (x ∷ xs) = omega (arith, length-take n xs)

  pub length-drop : (n : ℕ) (xs : List A) → length (drop n xs) ≡ length xs - n
  length-drop zero xs = omega arith
  length-drop (suc n) [] = omega arith
  length-drop (suc n) (x ∷ xs) = omega (arith, length-drop n xs)

  pub take-append-drop : (n : ℕ) (xs : List A) → take n xs ++ drop n xs ≡ xs
  take-append-drop zero xs = refl
  take-append-drop (suc n) [] = refl
  take-append-drop (suc n) (x ∷ xs) = rw (take-append-drop n xs)

  pub drop-length : (xs : List A) → drop (length xs) xs ≡ []
  drop-length [] = refl
  drop-length (x ∷ xs) = drop-length xs

abbrev pub All {ℓ κ} : {A : Type ℓ} → (A → Type κ) → List A → Type κ
All P [] = Unit
All P (x ∷ xs) = P x × All P xs

abbrev pub Any {ℓ} : {A : Type ℓ} → (A → Type 0) → List A → Type 0
Any P [] = ⊥
Any P (x ∷ xs) = P x ⊎ Any P xs

module _ {ℓ κ} {A : Type ℓ} (P : A → Type κ) where
  pub All-append : (xs ys : List A) → All P xs → All P ys → All P (xs ++ ys)
  All-append [] ys hx hy = hy
  All-append (x ∷ xs) ys hx hy = (hx.0, All-append xs ys hx.1 hy)

  pub All-append_right : (xs ys : List A) → All P (xs ++ ys) → All P ys
  All-append_right [] ys h = h
  All-append_right (x ∷ xs) ys h = All-append_right xs ys h.1

  pub All-append_left : (xs ys : List A) → All P (xs ++ ys) → All P xs
  All-append_left [] ys h = tt
  All-append_left (x ∷ xs) ys h = (h.0, All-append_left xs ys h.1)

  pub All-drop : (n : ℕ) (xs : List A) → All P xs → All P (drop n xs)
  All-drop zero xs h = h
  All-drop (suc n) [] h = h
  All-drop (suc n) (x ∷ xs) h = All-drop n xs h.1

module _ {ℓ κ μ} {A : Type ℓ} {P : A → Type κ} {Q : A → Type μ} where
  pub All-map : ((x : A) → P x → Q x) → (xs : List A) → All P xs → All Q xs
  All-map f [] h = tt
  All-map f (x ∷ xs) h = (f x h.0, All-map f xs h.1)

module _ {ℓ} {A : Type ℓ} where
  -- `UPDATE … SET f WHERE p`.
  unfoldable pub amend : (A → Bool) → (A → A) → List A → List A
  amend p f [] = []
  amend p f (x ∷ xs) = (if p x then f x else x) ∷ amend p f xs

  pub tally-append : (q : A → Bool) (xs ys : List A) → tally q (xs ++ ys) ≡ tally q xs + tally q ys
  unfolding tally
  tally-append q [] ys = omega arith
  tally-append q (x ∷ xs) ys = ground (arith, tally-append q xs ys)

  -- An update that makes no row pass a test which it did not pass before.
  pub tally-amend-le :
      (q p : A → Bool) (f : A → A)
      → ((x : A) → p x ≡ true → q (f x) ≡ true → q x ≡ true)
      → (xs : List A) → tally q (amend p f xs) ≤ tally q xs
  unfolding tally amend
  tally-amend-le q p f back [] = omega arith
  tally-amend-le q p f back (x ∷ xs) = ground (arith, tally-amend-le q p f back xs, back x)

  -- An update that changes what a test says of no row.
  pub tally-amend :
      (q p : A → Bool) (f : A → A)
      → ((x : A) → p x ≡ true → q (f x) ≡ q x)
      → (xs : List A) → tally q (amend p f xs) ≡ tally q xs
  unfolding tally amend
  tally-amend q p f same [] = refl
  tally-amend q p f same (x ∷ xs) = ground (arith, tally-amend q p f same xs, same x)

  pub length-amend : (p : A → Bool) (f : A → A) (xs : List A) → length (amend p f xs) ≡ length xs
  unfolding amend
  length-amend p f [] = refl
  length-amend p f (x ∷ xs) = omega (arith, length-amend p f xs)

  pub tally-le-length : (q : A → Bool) (xs : List A) → tally q xs ≤ length xs
  unfolding tally
  tally-le-length q [] = omega arith
  tally-le-length q (x ∷ xs) = ground (arith, tally-le-length q xs)

  pub tally-zero : (q : A → Bool) (xs : List A) → All (λ x. q x ≡ false) xs → tally q xs ≡ 0
  unfolding tally
  tally-zero q [] h = refl
  tally-zero q (x ∷ xs) h = ground (arith, tally-zero q xs h.1)

  pub All-of_tally : (q : A → Bool) (xs : List A) → tally q xs ≡ 0 → All (λ x. q x ≡ false) xs
  unfolding tally
  All-of_tally q [] h = tt
  All-of_tally q (x ∷ xs) h = (ground arith, All-of_tally q xs (ground arith))

module _ {ℓ κ} {A : Type ℓ} (P : A → Type κ) (p : A → Bool) where
  pub All-sift : (xs : List A) → All P xs → All P (sift p xs)
  unfolding sift
  All-sift [] h = tt
  All-sift (x ∷ xs) h = elim (Bool-cases (p x)) [
    | inl e ↦ rw e (h.0, All-sift xs h.1)
    | inr e ↦ rw e (All-sift xs h.1)
  ]

module _ {ℓ} {A : Type ℓ} (q : A → Bool) where
  -- An update that keeps a test keeps the position of the first row that passes it.
  pub first-amend :
      (p : A → Bool) (f : A → A)
      → ((x : A) → q (f x) ≡ q x)
      → (xs : List A) (a : A) → first q xs ≡ some a
      → first q (amend p f xs) ≡ some (if p a then f a else a)
  unfolding first amend
  first-amend p f same [] a h = cc
  first-amend p f same (x ∷ xs) a h = ground (arith, first-amend p f same xs a, same x)

  pub first-append : (xs ys : List A) (a : A) → first q xs ≡ some a → first q (xs ++ ys) ≡ some a
  unfolding first
  first-append [] ys a h = cc
  first-append (x ∷ xs) ys a h = ground (arith, first-append xs ys a)

module _ {ℓ} {A : Type ℓ} (q : A → Bool) where
  -- A first row that passes a test is there exactly when some row passes it.
  pub tally_of_first : (xs : List A) (a : A) → first q xs ≡ some a → (0 < tally q xs) × (q a ≡ true)
  unfolding tally first
  tally_of_first [] a h = cc
  tally_of_first (x ∷ xs) a h = ground (arith, tally_of_first xs a)

  pub first_of_tally : (xs : List A) → 0 < tally q xs → (a : A) × (first q xs ≡ some a)
  unfolding tally first
  first_of_tally [] h = absurd (omega arith)
  first_of_tally (x ∷ xs) h = elim (Bool-cases (q x)) [
    | inl e ↦ (x, rw e)
    | inr e ↦ let (a, found) = first_of_tally xs (ground arith) in (a, rw e found)
  ]

  pub first-append_new :
      (xs : List A) (a : A) → tally q xs ≡ 0 → q a ≡ true → first q (xs ++ a ∷ []) ≡ some a
  unfolding tally first
  first-append_new [] a z h = rw h
  first-append_new (x ∷ xs) a z h = ground (arith, first-append_new xs a)
