-- ===== src/Deployer/Storage/Confined.antt =====
-- Where the writable binds of an app are put.
use space_elevator.Base.{
  ◌≡◌, ◌≢◌, refl, sym, subst, ap, ◌∙◌, inl, inr, Bool, true, false, ◌||◌, none, some, List, [], ◌∷◌,
  ◌++◌, if◌then◌else◌, Bytes, bytes, same_bytes, has_prefix, All, All-append, arith, Bool-cases,
  split, join, join-append, join-cons_split, clean, join_path, is_abs, slash, dot,
}
use space_elevator.Base.Paths.Elements.{IsElement}
use space_elevator.Base.Paths.Whole.{climbs, clean-relative, clean-absolute}
use space_elevator.Deployer.Storage.{clean_relative_storage, bind_ref}

clean-is_abs : (s : Bytes) → is_abs s ≡ true → is_abs (clean s) ≡ true
unfolding clean
clean-is_abs s h = rw h refl

-- What the tests of clean_relative_storage leave.
accepted :
    (t c : Bytes)
    → (if same_bytes t (bytes ".")
          || same_bytes t (bytes "..")
          || is_abs t
          || has_prefix (bytes "../") t
        then none
        else some t)
      ≡ some c
    → (t ≡ c) × (same_bytes t dot ≡ false) × (is_abs t ≡ false) × (climbs t ≡ false)
accepted t c h = (ground arith, ground arith, ground arith, ground arith)

clash : (b : Bool) → b ≡ true → b ≢ false
clash b h h' = cc

-- The result does not leave its directory: none of its elements is empty, `.` or `..`.
pub clean_relative_storage-elements :
    (s c : Bytes) → clean_relative_storage s ≡ some c → All IsElement (split b'/' c)
unfolding clean_relative_storage
clean_relative_storage-elements s c h =
    let (same, no_dot, no_abs, no_climb) = accepted (clean s) c h in
    elim (Bool-cases (is_abs s)) [
      | inl a ↦ absurd (clash (is_abs (clean s)) (clean-is_abs s a) no_abs)
      | inr r ↦ elim (clean-relative s r) [
        | inl d ↦ absurd (clash (same_bytes (clean s) dot) (ap (λ x. same_bytes x dot) d) no_dot)
        | inr (inl u) ↦ absurd (clash (climbs (clean s)) u no_climb)
        | inr (inr e) ↦ subst (λ x. All IsElement (split b'/' x)) same e
      ]
    ]

below-elements :
    (e : Bytes) (es : List Bytes) (id c : Bytes)
    → join slash (e ∷ (es ++ bytes "data" ∷ id ∷ split b'/' c))
      ≡ join slash (e ∷ es) ++ (slash ++ (bytes "data" ++ (slash ++ (id ++ (slash ++ c)))))
unfolding join
below-elements e es id c =
    sym (join-append slash e es (bytes "data") (id ∷ split b'/' c))
    ∙ ap (λ x. join slash (e ∷ es) ++ (slash ++ (bytes "data" ++ (slash ++ x))))
        (join-cons_split b'/' id c)

-- Paths below a clean absolute directory stay as they are joined.
join-below :
    (e : Bytes) (es : List Bytes) (id c : Bytes)
    → All IsElement (e ∷ es)
    → IsElement id
    → All IsElement (split b'/' c)
    → join_path ((b'/' ∷ join slash (e ∷ es)) ∷ bytes "data" ∷ id ∷ c ∷ [])
      ≡ (b'/' ∷ join slash (e ∷ es)) ++ (slash ++ (bytes "data" ++ (slash ++ (id ++ (slash ++ c)))))
unfolding join_path join
join-below e es id c h i k =
    subst (λ t. clean (b'/' ∷ t) ≡ b'/' ∷ t) (below-elements e es id c)
      (clean-absolute e (es ++ bytes "data" ∷ id ∷ split b'/' c)
        (h.0, All-append IsElement es (bytes "data" ∷ id ∷ split b'/' c) h.1 (refl, (i, k))))

-- For a root that is a clean absolute path and an identifier that is one element, a name of a
-- relative bind that is accepted lies in the data of the app: below root/data/id, by elements none
-- of which is empty, `.` or `..`.
pub bind_ref-confined :
    (e : Bytes) (es : List Bytes) (id s c : Bytes)
    → All IsElement (e ∷ es)
    → IsElement id
    → clean_relative_storage s ≡ some c
    → (bind_ref (slash ++ join slash (e ∷ es)) id c
        ≡ (slash ++ join slash (e ∷ es)) ++ (bytes "/data/" ++ (id ++ (slash ++ c))))
      × All IsElement (split b'/' c)
unfolding bind_ref
bind_ref-confined e es id s c h i a =
    let elements = clean_relative_storage-elements s c a in
    (join-below e es id c h i elements, elements)
