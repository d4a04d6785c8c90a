-- ===== src/Base/Text/Split.antt =====
-- `strings.Split` and `strings.Join` at one byte.
use Prim.Native.Nat.{ℕ}
use mathlib.Core.Path.{◌≡◌, refl, sym, ap, ◌∙◌}
use mathlib.Core.Bool.{Bool, true, false, not, ◌&&◌}
use mathlib.Core.List.{List, [], ◌∷◌, ◌++◌, append_assoc, reverse_aux}
use native.Mathlib.Omega.{arith}
use mathlib.Core.Logic.{inl, inr}
use space_elevator.Base.Tests.{◌==◌, if◌then◌else◌, Bool-cases, ==_iff}
use space_elevator.Base.Lists.{All}
use space_elevator.Base.Text.{Bytes}

abbrev extend_first : ℕ → List Bytes → List Bytes
extend_first c [] = (c ∷ []) ∷ []
extend_first c (s ∷ rest) = (c ∷ s) ∷ rest

unfoldable pub split : ℕ → Bytes → List Bytes
split sep [] = [] ∷ []
split sep (c ∷ s) = let rest = split sep s in if c == sep then [] ∷ rest else extend_first c rest

unfoldable pub join : Bytes → List Bytes → Bytes
join sep [] = []
join sep (s ∷ []) = s
join sep (s ∷ t ∷ rest) = s ++ (sep ++ join sep (t ∷ rest))

-- No byte of a text is `b`.
abbrev pub lacks : ℕ → Bytes → Bool
lacks b [] = true
lacks b (c ∷ s) = not (c == b) && lacks b s

pub lacks-append :
    (b : ℕ) (s t : Bytes) → lacks b s ≡ true → lacks b t ≡ true → lacks b (s ++ t) ≡ true
lacks-append b [] t h h' = h'
lacks-append b (c ∷ s) t h h' = ground (arith, lacks-append b s t)

split-last : (b : ℕ) (s : Bytes) → lacks b s ≡ true → split b s ≡ s ∷ []
unfolding split
split-last b [] h = refl
split-last b (c ∷ s) h =
    let c' : (c == b) ≡ false = ground arith in rw (c', split-last b s (ground arith)) refl

split-line : (b : ℕ) (s t : Bytes) → lacks b s ≡ true → split b (s ++ b ∷ t) ≡ s ∷ split b t
unfolding split
split-line b [] t h = let same : (b == b) ≡ true = ground arith in rw same refl
split-line b (c ∷ s) t h =
    let c' : (c == b) ≡ false = ground arith in rw (c', split-line b s t (ground arith)) refl

-- What a join puts together, a split takes apart.
pub split-join :
    (b : ℕ) (s : Bytes) (rest : List Bytes)
    → All (λ t. lacks b t ≡ true) (s ∷ rest)
    → split b (join (b ∷ []) (s ∷ rest)) ≡ s ∷ rest
unfolding join
split-join b s [] h = split-last b s h.0
split-join b s (t ∷ rest) h =
    rw (split-line b s (join (b ∷ []) (t ∷ rest)) h.0)
      (ap (λ more. s ∷ more) (split-join b t rest h.1))

pub split-join_reverse :
    (b : ℕ) (xs : List Bytes) (y : Bytes) (ys : List Bytes)
    → All (λ t. lacks b t ≡ true) xs
    → All (λ t. lacks b t ≡ true) (y ∷ ys)
    → split b (join (b ∷ []) (reverse_aux xs (y ∷ ys))) ≡ reverse_aux xs (y ∷ ys)
split-join_reverse b [] y ys h h' = split-join b y ys h'
split-join_reverse b (x ∷ xs) y ys h h' = split-join_reverse b xs x (y ∷ ys) h.1 (h.0, h')

pub split-lacks : (b : ℕ) (s : Bytes) → All (λ t. lacks b t ≡ true) (split b s)
unfolding split
split-lacks b [] = (refl, tt)
split-lacks b (c ∷ s) = elim (Bool-cases (c == b)) [
  | inl e ↦ rw e (refl, split-lacks b s)
  | inr e ↦ rw e (extended e (split b s) (split-lacks b s))
]
  where
    extended :
        (c == b) ≡ false
        → (ts : List Bytes) → All (λ t. lacks b t ≡ true) ts
        → All (λ t. lacks b t ≡ true) (extend_first c ts)
    extended e [] h = (ground arith, tt)
    extended e (t ∷ ts) h = (ground (arith, h.0), h.1)

split-is_cons : (b : ℕ) (s : Bytes) → (t : Bytes) × (ts : List Bytes) × (split b s ≡ t ∷ ts)
unfolding split
split-is_cons b [] = ([], [], refl)
split-is_cons b (c ∷ s) =
    let (t, ts, h) = split-is_cons b s in
    elim (Bool-cases (c == b)) [
      | inl e ↦ ([], split b s, rw e refl)
      | inr e ↦ (c ∷ t, ts, rw (e, h) refl)
    ]

-- What a split takes apart, a join puts together.
pub join-split : (b : ℕ) (s : Bytes) → join (b ∷ []) (split b s) ≡ s
unfolding join split
join-split b [] = refl
join-split b (c ∷ s) =
    let (t, ts, h) = split-is_cons b s in
    let back = ap (λ x. join (b ∷ []) x) (sym h) ∙ join-split b s in
    elim (Bool-cases (c == b)) [
      | inl e ↦ rw (e, h, back) (ap (λ x. x ∷ s) (sym ((==_iff c b).0 e)))
      | inr e ↦ rw (e, h) (extended t ts ∙ ap (λ x. c ∷ x) back)
    ]
  where
    extended :
        (t : Bytes) (ts : List Bytes) → join (b ∷ []) ((c ∷ t) ∷ ts) ≡ c ∷ join (b ∷ []) (t ∷ ts)
    extended t [] = refl
    extended t (u ∷ ts) = refl

pub join-append :
    (sep x : Bytes) (xs : List Bytes) (y : Bytes) (ys : List Bytes)
    → join sep (x ∷ xs) ++ (sep ++ join sep (y ∷ ys)) ≡ join sep (x ∷ (xs ++ y ∷ ys))
unfolding join
join-append sep x [] y ys = refl
join-append sep x (w ∷ xs) y ys =
    append_assoc x (sep ++ join sep (w ∷ xs)) (sep ++ join sep (y ∷ ys))
    ∙ ap (λ t. x ++ t)
        (append_assoc sep (join sep (w ∷ xs)) (sep ++ join sep (y ∷ ys))
          ∙ ap (λ t. sep ++ t) (join-append sep w xs y ys))

pub join-cons_split : (b : ℕ) (x s : Bytes) → join (b ∷ []) (x ∷ split b s) ≡ x ++ b ∷ s
unfolding join
join-cons_split b x s =
    let (t, ts, h) = split-is_cons b s in
    let back = ap (λ y. join (b ∷ []) y) (sym h) ∙ join-split b s in rw (h, back) refl

pub join-append_split :
    (b : ℕ) (x : Bytes) (xs : List Bytes) (s : Bytes)
    → join (b ∷ []) (x ∷ (xs ++ split b s)) ≡ join (b ∷ []) (x ∷ xs) ++ b ∷ s
join-append_split b x xs s =
    let (t, ts, h) = split-is_cons b s in
    let back = ap (λ y. join (b ∷ []) y) (sym h) ∙ join-split b s in
    ap (λ y. join (b ∷ []) (x ∷ (xs ++ y))) h
    ∙ sym (join-append (b ∷ []) x xs t ts)
    ∙ ap (λ y. join (b ∷ []) (x ∷ xs) ++ b ∷ y) back
