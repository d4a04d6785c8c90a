-- ===== src/Builder/Archive/Places.antt =====
-- Where safeJoin puts a name.
use space_elevator.Base.{
  ◌≡◌, ◌≢◌, refl, sym, ap, ◌∙◌, ◌⊎◌, inl, inr, Bool, true, false, not, ◌||◌, Option, none, some,
  List, [], ◌∷◌, ◌++◌, if◌then◌else◌, Bool-cases, Bytes, bytes, All, All-append, is_empty,
  same_bytes, same_bytes_iff, has_prefix, lacks, is_abs, trim_space, split, join, join-append_split,
  clean, join_path, rel_path, slash, dot, arith,
}
use space_elevator.Base.Paths.Elements.{IsElement}
use space_elevator.Base.Paths.Whole.{climbs, clean-relative, clean-absolute, clean-with_dot}
use space_elevator.Builder.Archive.SafeJoin.{
  Look, climbs_out, illegal_path, reject_symlink_components, or_dot, root_refused, join_below,
  safe_join,
}

-- A name without the spaces around it, cleaned; the empty one is `.`.
abbrev pub tidy : Bytes → Bytes
tidy name = let trimmed = trim_space name in clean (if is_empty trimmed then dot else trimmed)

-- `.`, or a path whose elements are proper names: none is empty, `.` or `..`.
abbrev pub IsBelow : Bytes → Type 0
IsBelow name = (tidy name ≡ dot) ⊎ All IsElement (split b'/' (tidy name))

abbrev pub place : Bytes → Bytes → Bytes
place root name = if same_bytes (tidy name) dot then root else root ++ b'/' ∷ tidy name

abbrev pub absolute : Bytes → List Bytes → Bytes
absolute e es = b'/' ∷ join slash (e ∷ es)

passed :
    (b : Bool) (e target : Bytes) (x : Bytes ⊎ Bytes)
    → (if b then inl e else x) ≡ inr target
    → (b ≡ false) × (x ≡ inr target)
passed true e target x h = absurd cc
passed false e target x h = (refl, h)

granted :
    (o : Option Bytes) (target : Bytes) (x : Bytes ⊎ Bytes)
    → elim o [ some e ↦ inl e | none ↦ x ] ≡ inr target
    → x ≡ inr target
granted (some e) target x h = absurd cc
granted none target x h = h

same_target : (x y : Bytes) → ◌≡◌ {A = Bytes ⊎ Bytes} (inr x) (inr y) → x ≡ y
same_target x y h = cc

join_below-target :
    (lstat : Bytes → Look) (root name target : Bytes)
    → join_below lstat root name ≡ inr target
    → target ≡ clean (join_path (root ∷ name ∷ []))
unfolding join_below
join_below-target lstat root name target h =
    let t = clean (join_path (root ∷ name ∷ [])) in
    let refused = reject_symlink_components lstat root t in
    let (in_root, more) =
      passed (climbs_out (rel_path root t)) illegal_path target
        (elim refused [ some e ↦ inl e | none ↦ inr t ]) h in
    sym (same_target t target (granted refused target (inr t) more))

join-dot :
    (e : Bytes) (es : List Bytes)
    → All IsElement (e ∷ es)
    → clean (join_path (absolute e es ∷ dot ∷ [])) ≡ absolute e es
unfolding join_path join
join-dot e es h = ap clean (clean-with_dot e es h) ∙ clean-absolute e es h

join-elements :
    (e : Bytes) (es : List Bytes) (c : Bytes)
    → All IsElement (e ∷ es)
    → All IsElement (split b'/' c)
    → clean (join_path (absolute e es ∷ c ∷ [])) ≡ absolute e es ++ b'/' ∷ c
unfolding join_path join
join-elements e es c h below =
    let whole =
      clean-absolute e (es ++ split b'/' c)
        (h.0, All-append IsElement es (split b'/' c) h.1 below) in
    let split_up = ap (λ x. b'/' ∷ x) (join-append_split b'/' e es c) in
    let once = sym (ap clean split_up) ∙ whole ∙ split_up in ap clean once ∙ once

clash : (b : Bool) → b ≡ true → b ≢ false
clash b h h' = cc

safe_join-target :
    (lstat : Bytes → Look) (root given target : Bytes)
    → safe_join lstat root given ≡ inr target
    → (is_abs (or_dot (trim_space given)) ≡ false)
      × (climbs_out (tidy given) ≡ false)
      × (target ≡ clean (join_path (clean root ∷ tidy given ∷ [])))
unfolding safe_join
safe_join-target lstat root given target h =
    let name = or_dot (trim_space given) in
    let below = join_below lstat (clean root) (tidy given) in
    let refused = root_refused (lstat (clean root)) in
    let looked : Bytes ⊎ Bytes = elim refused [ some e ↦ inl e | none ↦ below ] in
    let (named, more) =
      passed (not (lacks 0 name) || has_prefix (bytes "/") name || is_abs name) illegal_path target
        (if climbs_out (tidy given) then inl illegal_path else looked) h in
    let (down, rest) = passed (climbs_out (tidy given)) illegal_path target looked more in
    (
      ground (arith, named),
      down,
      join_below-target lstat (clean root) (tidy given) target (granted refused target below rest),
    )

-- A name that safeJoin accepts stays below the root, and its target is its place there.
pub safe_join-place :
    (lstat : Bytes → Look) (e : Bytes) (es : List Bytes) (given target : Bytes)
    → All IsElement (e ∷ es)
    → safe_join lstat (absolute e es) given ≡ inr target
    → IsBelow given × (target ≡ place (absolute e es) given)
safe_join-place lstat e es given target parts h =
    let (relative, down, at) = safe_join-target lstat (absolute e es) given target h in
    let t = tidy given in
    let at_root : target ≡ clean (join_path (absolute e es ∷ t ∷ [])) =
      at ∙ ap (λ x. clean (join_path (x ∷ t ∷ []))) (clean-absolute e es parts) in
    elim (Bool-cases (same_bytes t dot)) [
      | inl d ↦
          let same = (same_bytes_iff t dot).0 d in
          rw d (
            inl same,
            at_root
                ∙ ap (λ x. clean (join_path (absolute e es ∷ x ∷ []))) same
                ∙ join-dot e es parts,
          )
      | inr n ↦ elim (clean-relative (or_dot (trim_space given)) relative) [
        | inl same ↦ absurd (clash (same_bytes t dot) ((same_bytes_iff t dot).1 same) n)
        | inr (inl up) ↦ absurd (clash (climbs t) up down)
        | inr (inr proper) ↦ rw n (inr proper, at_root ∙ join-elements e es t parts proper)
      ]
    ]
