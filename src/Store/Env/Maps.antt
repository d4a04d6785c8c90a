-- ===== src/Store/Env/Maps.antt =====
-- Environments as maps: what `put`, `put_all` and the sort do to the value of a key.
use space_elevator.Base.{
  ◌≡◌, refl, sym, ◌∙◌, false, none, some, [], ◌∷◌, ◌++◌, if◌then◌else◌, Bytes, same_bytes,
  same_bytes_iff, All, arith, Bool-cases, inl, inr,
}
unfoldable pub use space_elevator.Base.{get}
use mathlib.Core.List.{append-nil, append_assoc}
use space_elevator.Store.Env.{Env, put, put_all, bytes_le, insert_entry, sort_entries}

-- No key twice.
abbrev pub Distinct : Env → Type 0
Distinct [] = Unit
Distinct ((k, v) ∷ env) = (get k env ≡ none) × Distinct env

pub get-insert_entry :
    (k v j : Bytes) (env : Env)
    → get k env ≡ none
    → get j (insert_entry (k, v) env) ≡ (if same_bytes k j then some v else get j env)
unfolding get insert_entry
get-insert_entry k v j [] h = refl
get-insert_entry k v j ((i, w) ∷ env) h =
    ground (
      arith,
      get-insert_entry k v j env,
      same_bytes_iff k j,
      same_bytes_iff i j,
      same_bytes_iff i k,
    )

get-none :
    (k i w : Bytes) (env : Env)
    → get k ((i, w) ∷ env) ≡ none
    → (same_bytes i k ≡ false) × (get k env ≡ none)
unfolding get
get-none k i w env h = (ground arith, ground arith)

get-later :
    (k v i : Bytes) (env : Env)
    → same_bytes i k ≡ false
    → get k env ≡ none
    → get i env ≡ none
    → get i (insert_entry (k, v) env) ≡ none
get-later k v i env n h d =
    ground (arith, get-insert_entry k v i env, same_bytes_iff i k, same_bytes_iff k i)

insert_entry-Distinct :
    (k v : Bytes) (env : Env) → get k env ≡ none → Distinct env → Distinct (insert_entry (k, v) env)
unfolding insert_entry
insert_entry-Distinct k v [] h d = (unfold get in refl, tt)
insert_entry-Distinct k v ((i, w) ∷ env) h d = elim (Bool-cases (bytes_le k i)) [
  | inl e ↦ rw e (h, d)
  | inr e ↦
      let (n, h') = get-none k i w env h in
      rw (e, insert_entry) (get-later k v i env n h' d.0, insert_entry-Distinct k v env h' d.1)
]

get-head :
    (k v j : Bytes) (env : Env)
    → (if same_bytes k j then some v else get j env) ≡ get j ((k, v) ∷ env)
unfolding get
get-head k v j env = refl

-- Sorted, an environment has the same values, and still no key twice.
pub sort_entries-same :
    (env : Env)
    → Distinct env
    → Distinct (sort_entries env) × ((j : Bytes) → get j (sort_entries env) ≡ get j env)
unfolding sort_entries
sort_entries-same [] d = (tt, λ j. refl)
sort_entries-same ((k, v) ∷ env) (h, d) =
    let (d', same) = sort_entries-same env d in
    let fresh = same k ∙ h in
    (
      insert_entry-Distinct k v (sort_entries env) fresh d',
      λ j. get-insert_entry k v j (sort_entries env) fresh ∙ rw (same j) (get-head k v j env),
    )

module _ {ℓ} (P : Bytes × Bytes → Type ℓ) where
  insert_entry-All : (e : Bytes × Bytes) (env : Env) → P e → All P env → All P (insert_entry e env)
  unfolding insert_entry
  insert_entry-All (k, v) [] p h = (p, tt)
  insert_entry-All (k, v) ((j, w) ∷ env) p h = elim (Bool-cases (bytes_le k j)) [
    | inl e ↦ rw e (p, h)
    | inr e ↦ rw (e, insert_entry) (h.0, insert_entry-All (k, v) env p h.1)
  ]

  pub sort_entries-All : (env : Env) → All P env → All P (sort_entries env)
  unfolding sort_entries
  sort_entries-All [] h = tt
  sort_entries-All (e ∷ env) h =
      insert_entry-All e (sort_entries env) h.0 (sort_entries-All env h.1)

-- A new key is put behind the others.
put-new : (k v : Bytes) (env : Env) → get k env ≡ none → put k v env ≡ env ++ (k, v) ∷ []
unfolding put get
put-new k v [] h = refl
put-new k v ((j, w) ∷ env) h = ground (arith, put-new k v env)

get-append :
    (j k v : Bytes) (env : Env)
    → get j env ≡ none
    → same_bytes k j ≡ false
    → get j (env ++ (k, v) ∷ []) ≡ none
unfolding get
get-append j k v [] h n = rw n refl
get-append j k v ((i, w) ∷ env) h n = ground (arith, get-append j k v env)

-- None of the keys is in a map.
abbrev New : Env → Env → Type 0
New [] env = Unit
New ((k, v) ∷ more) env = (get k env ≡ none) × New more env

New-append :
    (k v : Bytes) (more env : Env)
    → get k more ≡ none
    → New more env
    → New more (env ++ (k, v) ∷ [])
New-append k v [] env h n = tt
New-append k v ((j, w) ∷ more) env h n =
    let (other, h') = get-none k j w more h in
    (
      get-append j k v env n.0 (ground (arith, same_bytes_iff j k, same_bytes_iff k j)),
      New-append k v more env h' n.1,
    )

put_all-append : (more env : Env) → Distinct more → New more env → put_all more env ≡ env ++ more
unfolding put_all
put_all-append [] env d n = sym (append-nil env)
put_all-append ((k, v) ∷ more) env (h, d) (fresh, n) = rw (put-new k v env fresh) (
    put_all-append more (env ++ (k, v) ∷ []) d (New-append k v more env h n)
    ∙ append_assoc env ((k, v) ∷ []) more)

New-nil : (more : Env) → New more []
unfolding get
New-nil [] = tt
New-nil ((k, v) ∷ more) = (refl, New-nil more)

pub put_all-Distinct : (env : Env) → Distinct env → put_all env [] ≡ env
put_all-Distinct env d = put_all-append env [] d (New-nil env)
