-- ===== src/Deployer/Storage/Plan/Persist.antt =====
-- persistRuntimeStorage of deployer.go, on the rows of app_storage of one app, and what it means for
-- the plans behind it. The map is walked from its end, one of the orders that Go may take.
use space_elevator.Base.{
  ◌≡◌, refl, sym, subst, ap, ◌∙◌, ◌<◌, inl, inr, Bool, false, Option, none, some, List, [], ◌∷◌,
  ◌++◌, if◌then◌else◌, ltb, Bytes, same_bytes, same_bytes_iff, Table, put, put_all, get, get-put,
  tally, amend, arith, Bool-cases,
}
use space_elevator.Deployer.Storage.{StorageBinding, AppStorage}
use space_elevator.Deployer.Storage.Plan.{StoragePlan, planned, site_of, rows_of, plan_storage}
use space_elevator.Deployer.Storage.Plan.Sound.{Owned, get-put_other}
use space_elevator.Deployer.Storage.Plan.Stable.{plan_storage-Stable}

abbrev is_row : AppStorage → AppStorage → Bool
is_row m r = same_bytes r.logical_name m.logical_name

-- UpsertAppStorage: INSERT … ON CONFLICT DO UPDATE
unfoldable pub upsert_app_storage : AppStorage → List AppStorage → List AppStorage
upsert_app_storage m rows =
    if ltb 0 (tally (is_row m) rows) then amend (is_row m) (λ r. m) rows else rows ++ m ∷ []

abbrev pub row_for : Bytes → StorageBinding → AppStorage
row_for n b = record { logical_name = n; storage_kind = b.kind; physical_ref = b.ref }

unfoldable pub persist_runtime_storage : Table StorageBinding → List AppStorage → List AppStorage
unfolding upsert_app_storage
persist_runtime_storage [] rows = rows
persist_runtime_storage ((n, b) ∷ m) rows =
    upsert_app_storage (row_for n b) (persist_runtime_storage m rows)

-- `known`, filled on from `acc`.
abbrev known_from : List AppStorage → Table AppStorage → Table AppStorage
known_from rows acc = put_all (rows_of rows) acc

get-put_here : (n : Bytes) (v : AppStorage) (m : Table AppStorage) → get n (put n v m) ≡ some v
get-put_here n v m = get-put n v n m ∙ rw ((same_bytes_iff n n).1 refl) refl

-- Rows of other names change nothing at a name.
skips :
    (m r : AppStorage) (acc : Table AppStorage)
    → is_row m r ≡ false
    → get m.logical_name (put r.logical_name r acc) ≡ get m.logical_name acc
skips m r acc h = get-put r.logical_name r m.logical_name acc ∙ rw h refl

amend-missing :
    (m : AppStorage) (rows : List AppStorage) (acc : Table AppStorage)
    → tally (is_row m) rows ≡ 0
    → get m.logical_name (known_from (amend (is_row m) (λ r. m) rows) acc) ≡ get m.logical_name acc
unfolding tally amend put_all
amend-missing m [] acc h = refl
amend-missing m (r ∷ rows) acc h =
    let e : is_row m r ≡ false = ground arith in
    let rest : tally (is_row m) rows ≡ 0 = ground arith in
    rw e (amend-missing m rows (put r.logical_name r acc) rest ∙ skips m r acc e)

amend-here :
    (m : AppStorage) (rows : List AppStorage) (acc : Table AppStorage)
    → 0 < tally (is_row m) rows
    → get m.logical_name (known_from (amend (is_row m) (λ r. m) rows) acc) ≡ some m
unfolding tally amend put_all
amend-here m [] acc h = absurd (omega arith)
amend-here m (r ∷ rows) acc h = elim (Bool-cases (is_row m r)) [
  | inr e ↦ rw e (amend-here m rows (put r.logical_name r acc) (ground arith))
  | inl e ↦ elim (Bool-cases (ltb 0 (tally (is_row m) rows))) [
    | inl more ↦ rw e (amend-here m rows (put m.logical_name m acc) (ground arith))
    | inr last ↦ rw e (
        amend-missing m rows (put m.logical_name m acc) (ground arith)
        ∙ get-put_here m.logical_name m acc)
  ]
]

-- What is put before matters only at its own name.
known_from-get :
    (j : Bytes) (rows : List AppStorage) (acc acc' : Table AppStorage)
    → get j acc ≡ get j acc'
    → get j (known_from rows acc) ≡ get j (known_from rows acc')
unfolding put_all
known_from-get j [] acc acc' h = h
known_from-get j (r ∷ rows) acc acc' h =
    known_from-get j rows (put r.logical_name r acc) (put r.logical_name r acc') (
      get-put r.logical_name r j acc
      ∙ ap (λ x. if same_bytes r.logical_name j then some r else x) h
      ∙ sym (get-put r.logical_name r j acc'))

known_from-append :
    (rows : List AppStorage) (m : AppStorage) (acc : Table AppStorage)
    → known_from (rows ++ m ∷ []) acc ≡ put m.logical_name m (known_from rows acc)
unfolding put_all
known_from-append [] m acc = refl
known_from-append (r ∷ rows) m acc = known_from-append rows m (put r.logical_name r acc)

amend-other :
    (m : AppStorage) (j : Bytes) (rows : List AppStorage) (acc : Table AppStorage)
    → same_bytes m.logical_name j ≡ false
    → get j (known_from (amend (is_row m) (λ r. m) rows) acc) ≡ get j (known_from rows acc)
unfolding amend put_all
amend-other m j [] acc h = refl
amend-other m j (r ∷ rows) acc h = elim (Bool-cases (is_row m r)) [
  | inr e ↦ rw e (amend-other m j rows (put r.logical_name r acc) h)
  | inl e ↦
      let same = (same_bytes_iff r.logical_name m.logical_name).0 e in
      let other = ap (λ x. same_bytes x j) same ∙ h in
      rw e (
        amend-other m j rows (put m.logical_name m acc) h
        ∙ known_from-get j rows (put m.logical_name m acc) (put r.logical_name r acc) (
            get-put_other m.logical_name m j acc h
            ∙ sym (get-put_other r.logical_name r j acc other)))
]

upsert-get :
    (m : AppStorage) (j : Bytes) (rows : List AppStorage)
    → get j (known_from (upsert_app_storage m rows) [])
      ≡ (if same_bytes m.logical_name j then some m else get j (known_from rows []))
unfolding upsert_app_storage
upsert-get m j rows = elim (Bool-cases (ltb 0 (tally (is_row m) rows))) [
  | inr e ↦ rw e (
      ap (λ x. get j x) (known_from-append rows m [])
      ∙ get-put m.logical_name m j (known_from rows []))
  | inl e ↦ elim (Bool-cases (same_bytes m.logical_name j)) [
    | inr o ↦ rw (e, o) (amend-other m j rows [] o)
    | inl s ↦
        rw (e, s)
          (subst (λ x. get x (known_from (amend (is_row m) (λ r. m) rows) []) ≡ some m)
            ((same_bytes_iff m.logical_name j).0 s) (amend-here m rows [] (ground arith)))
  ]
]

abbrev rows_at : Bytes → Option StorageBinding → Option AppStorage
rows_at n none = none
rows_at n (some b) = some (row_for n b)

persist-get :
    (n : Bytes) (m : Table StorageBinding) (b : StorageBinding) (rows : List AppStorage)
    → get n m ≡ some b
    → get n (known_from (persist_runtime_storage m rows) []) ≡ some (row_for n b)
unfolding get persist_runtime_storage
persist-get n [] b rows h = cc
persist-get n ((j, c) ∷ m) b rows h = elim (Bool-cases (same_bytes j n)) [
  | inl e ↦
      upsert-get (row_for j c) n (persist_runtime_storage m rows)
      ∙ ap (λ x. if x then some (row_for j c) else known) e
      ∙ ap (λ x. some (row_for x c)) ((same_bytes_iff j n).0 e)
      ∙ ap (λ o. rows_at n o) (rw e at h)
  | inr e ↦
      upsert-get (row_for j c) n (persist_runtime_storage m rows)
      ∙ ap (λ x. if x then some (row_for j c) else known) e
      ∙ persist-get n m b rows (rw e at h)
]
  where
    known : Option AppStorage
    known = get n (known_from (persist_runtime_storage m rows) [])

-- A binding that has been recorded for a name is the one of every later plan that has the name,
-- whatever podman shows then, and wherever the sources of the app are.
pub persist_runtime_storage-fixes :
    (p p' : StoragePlan) (existing : List AppStorage) (root id : Bytes) (digest : Bytes → Bytes)
    (discovered : Table StorageBinding) (old_source_dir : Bytes)
    (services : List (Bytes × List Bytes)) (n : Bytes) (b b' : StorageBinding)
    → plan_storage root id digest
        (persist_runtime_storage p.candidate existing)
        discovered
        old_source_dir
        services
      ≡ planned p'
    → get n p.candidate ≡ some b
    → get n p'.candidate ≡ some b'
    → b' ≡ b
unfolding site_of
persist_runtime_storage-fixes p p' existing root id digest discovered dir services n b b' h c c' =
    let rows = persist_runtime_storage p.candidate existing in
    let s = site_of root id digest rows discovered dir in
    let owned = (plan_storage-Stable root id digest rows discovered dir services p' h).1 n b' c' in
    subst (λ x. Owned s n x b') (persist-get n p.candidate b existing c) owned
