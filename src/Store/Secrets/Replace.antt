-- ===== src/Store/Secrets/Replace.antt =====
-- replaceSecrets makes the secrets of an app those of the snapshot.
use space_elevator.Base.{
  ◌≡◌, ◌≢◌, refl, ◌∙◌, sym, ap, String, str_eq, true, false, not, ◌&&◌, inl, inr, Option, none,
  some, List, [], ◌∷◌, ◌++◌, ltb, if◌then◌else◌, sift, tally, amend, Bytes, bytes, Dict, lookup,
  insert, lookup-insert, All, arith, eq_iff, str_eq_refl, Bool-cases, Option-cases,
}
use space_elevator.Store.Rows.{ok}
use space_elevator.Store.Apps.{valid_env_key, has_nul}
use space_elevator.Store.Secrets.{
  SecretRow, SecretTable, row_is, app_there, upsert, set_secret, delete_secret, collect,
  get_secrets, delete_others, set_all, replace_secrets,
}

-- The value of a key in the rows: the last one counts, and `acc` where there is none.
value_of : String → String → List SecretRow → Option Bytes → Option Bytes
value_of a k [] acc = acc
value_of a k (r ∷ rows) acc = value_of a k rows (if row_is a k r then some r.value else acc)

lookup-collect :
    (a k : String) (rows : List SecretRow) (out : Dict Bytes)
    → lookup k (collect a rows out) ≡ value_of a k rows (lookup k out)
unfolding collect value_of
lookup-collect a k [] out = refl
lookup-collect a k (r ∷ rows) out =
    lookup-collect a k rows (if str_eq r.app_id a then insert r.key r.value out else out)
    ∙ ap (value_of a k rows) (elim (Bool-cases (str_eq r.app_id a)) [
      | inl e ↦ rw e (lookup-insert r.key k r.value out)
      | inr e ↦ rw e refl
    ])

module _ (a k : String) where
  value_of-append :
      (xs : List SecretRow) (r : SecretRow) (acc : Option Bytes)
      → value_of a k (xs ++ r ∷ []) acc
        ≡ (if row_is a k r then some r.value else value_of a k xs acc)
  unfolding value_of
  value_of-append [] r acc = refl
  value_of-append (x ∷ xs) r acc = value_of-append xs r (if row_is a k x then some x.value else acc)

  module _ (b j : String) where
    value_of-sift :
        (xs : List SecretRow) (acc : Option Bytes)
        → value_of a k (sift (λ r. not (row_is b j r)) xs) acc
          ≡ (if str_eq b a && str_eq j k then acc else value_of a k xs acc)
    unfolding value_of sift
    value_of-sift [] acc = ground arith
    value_of-sift (x ∷ xs) acc = ground (
      arith,
      value_of-sift xs acc,
      value_of-sift xs (some x.value),
      eq_iff x.app_id b,
      eq_iff x.app_id a,
      eq_iff b a,
      eq_iff x.key j,
      eq_iff x.key k,
      eq_iff j k,
    )

    value_of-none :
        (xs : List SecretRow) (acc : Option Bytes)
        → tally (row_is b j) xs ≡ 0
        → str_eq b a && str_eq j k ≡ true
        → value_of a k xs acc ≡ acc
    unfolding value_of tally
    value_of-none [] acc z h = refl
    value_of-none (x ∷ xs) acc z h = ground (
      arith,
      value_of-none xs acc,
      eq_iff x.app_id b,
      eq_iff x.app_id a,
      eq_iff b a,
      eq_iff x.key j,
      eq_iff x.key k,
      eq_iff j k,
    )

    value_of-amend :
        (v : Bytes) (xs : List SecretRow) (acc : Option Bytes)
        → value_of a k (amend (row_is b j) (λ r. record r { value = v }) xs) acc ≡ (
            if str_eq b a && str_eq j k && ltb 0 (tally (row_is b j) xs)
            then some v
            else value_of a k xs acc)
    unfolding value_of amend tally
    value_of-amend v [] acc = ground arith
    value_of-amend v (x ∷ xs) acc = elim (Bool-cases (row_is b j x)) [
      | inl e ↦ elim (Bool-cases (row_is a k x)) [
        | inl f ↦
            rw (e, f)
              (ground (
                arith,
                e,
                f,
                value_of-amend v xs (some v),
                value_of-none xs (some v),
                eq_iff x.app_id b,
                eq_iff x.app_id a,
                eq_iff b a,
                eq_iff x.key j,
                eq_iff x.key k,
                eq_iff j k,
              ))
        | inr f ↦
            rw (e, f)
              (ground (
                arith,
                e,
                f,
                value_of-amend v xs acc,
                eq_iff x.app_id b,
                eq_iff x.app_id a,
                eq_iff b a,
                eq_iff x.key j,
                eq_iff x.key k,
                eq_iff j k,
              ))
      ]
      | inr e ↦ rw e (
          ground (
            arith,
            value_of-amend v xs acc,
            value_of-amend v xs (some x.value),
            eq_iff x.app_id b,
            eq_iff x.app_id a,
            eq_iff b a,
            eq_iff x.key j,
            eq_iff x.key k,
            eq_iff j k,
          ))
    ]

  value_of-upsert :
      (b j : String) (v : Bytes) (xs : List SecretRow)
      → value_of a k (upsert b j v xs) none
        ≡ (if str_eq b a && str_eq j k then some v else value_of a k xs none)
  unfolding upsert
  value_of-upsert b j v xs = elim (Bool-cases (ltb 0 (tally (row_is b j) xs))) [
    | inl e ↦ rw e (ground (arith, e, value_of-amend b j v xs none))
    | inr e ↦ rw e (value_of-append xs (record { app_id = b; key = j; value = v }) none)
  ]

  -- What is read for a key.
  abbrev pub secret_of : SecretTable → Option Bytes
  secret_of t = lookup k (get_secrets a t)

  secret_of-rows : (t : SecretTable) → secret_of t ≡ value_of a k t.rows none
  unfolding get_secrets lookup
  secret_of-rows t = lookup-collect a k t.rows []

  secret_of-upsert :
      (b j : String) (v : Bytes) (t : SecretTable)
      → secret_of (record t { rows = upsert b j v t.rows })
        ≡ (if str_eq b a && str_eq j k then some v else secret_of t)
  secret_of-upsert b j v t =
      secret_of-rows (record t { rows = upsert b j v t.rows })
      ∙ value_of-upsert b j v t.rows
      ∙ ap (λ o. if str_eq b a && str_eq j k then some v else o) (sym (secret_of-rows t))

  secret_of-delete :
      (b j : String) (t : SecretTable)
      → secret_of (delete_secret b j t) ≡ (if str_eq b a && str_eq j k then none else secret_of t)
  unfolding delete_secret
  secret_of-delete b j t =
      secret_of-rows (delete_secret b j t)
      ∙ value_of-sift b j t.rows none
      ∙ ap (λ o. if str_eq b a && str_eq j k then none else o) (sym (secret_of-rows t))

-- No key twice.
abbrev pub IsMap : Dict Bytes → Type 0
IsMap [] = Unit
IsMap ((k, v) ∷ d) = (lookup k d ≡ none) × IsMap d

-- What SetSecret lets pass.
abbrev pub IsStorable : String × Bytes → Type 0
IsStorable (k, v) = (valid_env_key (bytes k) ≡ true) × (has_nul v ≡ false)

abbrev pub or_else : Option Bytes → Option Bytes → Option Bytes
or_else (some v) o = some v
or_else none o = o

set_secret-done :
    (b j : String) (v : Bytes) (t : SecretTable)
    → IsStorable (j, v)
    → app_there b t ≡ true
    → set_secret b j v t ≡ (ok tt, record t { rows = upsert b j v t.rows })
unfolding set_secret
set_secret-done b j v t h there = ground arith

delete_others-apps :
    (b : String) (desired current : Dict Bytes) (t : SecretTable)
    → (delete_others b desired current t).apps ≡ t.apps
unfolding delete_others delete_secret
delete_others-apps b desired [] t = refl
delete_others-apps b desired ((j, v) ∷ current) t =
    delete_others-apps b desired current _
    ∙ elim (Option-cases (lookup j desired)) [ inl e ↦ rw e refl | inr (w, e) ↦ rw e refl ]

module _ (b : String) (desired : Dict Bytes) (k : String) where
  -- What is left for the desired keys, and for those that are not current.
  delete_others-lem :
      (current : Dict Bytes) (t : SecretTable)
      → secret_of b k (delete_others b desired current t) ≡ elim (lookup k desired) [
        | some w ↦ secret_of b k t
        | none ↦ elim (lookup k current) [ some w ↦ none | none ↦ secret_of b k t ]
      ]
  unfolding delete_others lookup
  delete_others-lem [] t = elim (Option-cases (lookup k desired)) [
    | inl e ↦ rw e refl
    | inr (w, e) ↦ rw e refl
  ]
  delete_others-lem ((j, v) ∷ current) t = elim (Option-cases (lookup j desired)) [
    | inl e ↦
        let d = secret_of-delete b k b j t in
        let next = delete_others-lem current (delete_secret b j t) in
        rw e (ground (arith, e, d, next, str_eq_refl b, eq_iff j k))
    | inr (w, e) ↦
        let next = delete_others-lem current t in rw e (ground (arith, e, next, eq_iff j k))
  ]

  delete_others-other :
      (a : String) (current : Dict Bytes) (t : SecretTable)
      → str_eq b a ≡ false
      → secret_of a k (delete_others b desired current t) ≡ secret_of a k t
  unfolding delete_others
  delete_others-other a [] t h = refl
  delete_others-other a ((j, v) ∷ current) t h = elim (Option-cases (lookup j desired)) [
    | inl e ↦ rw e (
        delete_others-other a current (delete_secret b j t) h
        ∙ secret_of-delete a k b j t
        ∙ rw h refl)
    | inr (w, e) ↦ rw e (delete_others-other a current t h)
  ]

set_all-lem :
    (b : String) (desired : Dict Bytes) (t : SecretTable)
    → All IsStorable desired
    → IsMap desired
    → app_there b t ≡ true
    → ((set_all b desired t).0 ≡ ok tt)
      × ((a k : String)
          → secret_of a k (set_all b desired t).1 ≡ (
              if str_eq b a then or_else (lookup k desired) (secret_of a k t) else secret_of a k t))
unfolding set_all lookup
set_all-lem b [] t h m there = (refl, λ a k. ground arith)
set_all-lem b ((j, v) ∷ desired) t h m there =
    let t' : SecretTable = record t { rows = upsert b j v t.rows } in
    let done = set_secret-done b j v t h.0 there in
    let (fine, rest) = set_all-lem b desired t' h.1 m.1 there in
    rw done (fine, λ a k. rest a k ∙ ground (arith, secret_of-upsert a k b j v t, eq_iff j k, m.0))

-- For an app that is there, a snapshot that has no key twice and holds only keys and values that
-- SetSecret lets pass is put back in full: replaceSecrets succeeds, every key then reads as in the
-- snapshot, keys that the snapshot lacks read as none, and the secrets of other apps read as before.
pub replace_secrets-restores :
    (b : String) (snapshot : Dict Bytes) (t : SecretTable)
    → app_there b t ≡ true
    → All IsStorable snapshot
    → IsMap snapshot
    → let (answer, t') = replace_secrets b snapshot t in
      (answer ≡ ok tt)
      × ((k : String) → lookup k (get_secrets b t') ≡ lookup k snapshot)
      × ((a k : String) → a ≢ b → lookup k (get_secrets a t') ≡ lookup k (get_secrets a t))
unfolding replace_secrets
replace_secrets-restores b snapshot t there h m =
    let current = get_secrets b t in
    let t' = delete_others b snapshot current t in
    let (fine, all) =
      set_all-lem b snapshot t' h m (rw (delete_others-apps b snapshot current t) there) in
    (
      fine,
      λ k. all b k ∙ ground (arith, str_eq_refl b, delete_others-lem b snapshot k current t),
      λ a k other.
          all a k ∙ ground (arith, eq_iff b a, delete_others-other b snapshot k a current t),
    )
