-- ===== src/Base/Paths/Whole.antt =====
-- Cleaned paths as texts: what a relative one looks like, and absolute ones that are clean already.
use mathlib.Core.Path.{◌≡◌, refl, sym, subst, ap, ◌∙◌}
use mathlib.Core.Logic.{◌⊎◌, inl, inr}
use mathlib.Core.Bool.{Bool, true, false, ◌||◌}
use mathlib.Core.List.{List, [], ◌∷◌, ◌++◌, reverse, reverse_aux, reverse-reverse, foldl}
use native.Mathlib.Omega.{arith}
use space_elevator.Base.Lists.{All, All-map, All-append}
use space_elevator.Base.Text.{Bytes, is_empty, same_bytes, has_prefix}
use space_elevator.Base.Text.Same.{same_bytes_iff}
use space_elevator.Base.Text.Split.{
  split, join, lacks, split-join, split-join_reverse, split-lacks, join-append,
}
use space_elevator.Base.Paths.{dot, dot_dot, slash, is_abs, clean_element, of_elements, clean}
use space_elevator.Base.Paths.Elements.{IsElement, begins_dot_dot, Walked, walk-Walked}

-- The path is `..` or begins with `../`.
abbrev pub climbs : Bytes → Bool
climbs s = same_bytes s dot_dot || has_prefix (b'.' ∷ b'.' ∷ b'/' ∷ []) s

join-climbs :
    (out done : List Bytes)
    → begins_dot_dot out ≡ true
    → climbs (join slash (reverse_aux out done)) ≡ true
unfolding join has_prefix
join-climbs [] done h = cc
join-climbs (e ∷ []) [] h = rw ((same_bytes_iff e dot_dot).0 h) refl
join-climbs (e ∷ []) (d ∷ done) h = rw ((same_bytes_iff e dot_dot).0 h) refl
join-climbs (e ∷ f ∷ out) done h = join-climbs (f ∷ out) (e ∷ done) h

element-lacks : (e : Bytes) → IsElement e → lacks b'/' e ≡ true
element-lacks e h = ground arith

elements-lack : (es : List Bytes) → All IsElement es → All (λ e. lacks b'/' e ≡ true) es
elements-lack es h = All-map (λ e p. element-lacks e p) es h

All-reverse_aux :
    (xs ys : List Bytes) → All IsElement xs → All IsElement ys → All IsElement (reverse_aux xs ys)
All-reverse_aux [] ys h h' = h'
All-reverse_aux (x ∷ xs) ys h h' = All-reverse_aux xs (x ∷ ys) h.1 (h.0, h')

of_elements-Walked :
    (out : List Bytes)
    → Walked out
    → (of_elements false out ≡ dot)
      ⊎ (climbs (of_elements false out) ≡ true)
      ⊎ All IsElement (split b'/' (of_elements false out))
of_elements-Walked [] h = inl refl
of_elements-Walked (e ∷ out) (inl h) = inr (
    inr (
      subst (λ x. All IsElement x)
        (sym (split-join_reverse b'/' out e [] (elements-lack out h.1) (element-lacks e h.0, tt)))
        (All-reverse_aux out (e ∷ []) h.1 (h.0, tt))))
of_elements-Walked (e ∷ out) (inr h) = inr (inl (join-climbs (e ∷ out) [] h))

-- A relative path, cleaned, is `.`, climbs, or goes down only.
pub clean-relative :
    (s : Bytes)
    → is_abs s ≡ false
    → (clean s ≡ dot) ⊎ (climbs (clean s) ≡ true) ⊎ All IsElement (split b'/' (clean s))
unfolding clean
clean-relative s h = rw h (
    of_elements-Walked (foldl (clean_element false) [] (split b'/' s))
      (walk-Walked (split b'/' s) [] (split-lacks b'/' s) (inl tt)))

walk-elements :
    (rooted : Bool) (es out : List Bytes)
    → All IsElement es
    → foldl (clean_element rooted) out es ≡ reverse_aux es out
walk-elements rooted [] out h = refl
walk-elements rooted (e ∷ es) out h =
    let named : (is_empty e || same_bytes e dot) ≡ false = ground (arith, h.0) in
    let down : same_bytes e dot_dot ≡ false = ground (arith, h.0) in
    rw (foldl, named, down) (walk-elements rooted es (e ∷ out) h.1)

split-absolute : (s : Bytes) → split b'/' (b'/' ∷ s) ≡ [] ∷ split b'/' s
unfolding split
split-absolute s = refl

-- An absolute path of proper elements is clean.
pub clean-absolute :
    (e : Bytes) (es : List Bytes)
    → All IsElement (e ∷ es)
    → clean (b'/' ∷ join slash (e ∷ es)) ≡ b'/' ∷ join slash (e ∷ es)
unfolding clean
clean-absolute e es h =
    let elements = split-join b'/' e es (elements-lack (e ∷ es) h) in
    ap (λ x. b'/' ∷ join slash (reverse x))
      (ap (λ x. foldl (clean_element true) [] x)
          (split-absolute (join slash (e ∷ es)) ∙ ap (λ x. [] ∷ x) elements)
        ∙ walk-elements true (e ∷ es) [] h)
    ∙ ap (λ x. b'/' ∷ join slash x) (reverse-reverse (e ∷ es))

foldl-append :
    (f : List Bytes → Bytes → List Bytes) (out xs ys : List Bytes)
    → foldl f out (xs ++ ys) ≡ foldl f (foldl f out xs) ys
foldl-append f out [] ys = refl
foldl-append f out (x ∷ xs) ys = foldl-append f (f out x) xs ys

elements-with_dot :
    (e : Bytes) (es : List Bytes)
    → All IsElement (e ∷ es)
    → split b'/' (join slash (e ∷ es) ++ b'/' ∷ dot) ≡ e ∷ (es ++ dot ∷ [])
unfolding join
elements-with_dot e es h =
    ap (λ x. split b'/' x) (join-append slash e es dot [])
    ∙ split-join b'/' e (es ++ dot ∷ []) (
      element-lacks e h.0,
      All-append (λ t. lacks b'/' t ≡ true) es (dot ∷ []) (elements-lack es h.1) (refl, tt),
    )

-- A dot behind an absolute path of proper elements is nothing.
pub clean-with_dot :
    (e : Bytes) (es : List Bytes)
    → All IsElement (e ∷ es)
    → clean (b'/' ∷ (join slash (e ∷ es) ++ b'/' ∷ dot)) ≡ b'/' ∷ join slash (e ∷ es)
unfolding clean
clean-with_dot e es h =
    ap (λ x. b'/' ∷ join slash (reverse x))
      (ap (λ x. foldl (clean_element true) [] x)
          (split-absolute (join slash (e ∷ es) ++ b'/' ∷ dot)
            ∙ ap (λ x. [] ∷ x) (elements-with_dot e es h))
        ∙ foldl-append (clean_element true) [] (e ∷ es) (dot ∷ [])
        ∙ walk-elements true (e ∷ es) [] h)
    ∙ ap (λ x. b'/' ∷ join slash x) (reverse-reverse (e ∷ es))
