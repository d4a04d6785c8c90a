-- ===== src/Deployer/Storage/Plan/Overwrites.antt =====
-- A bind that is managed already, and whose containers podman does not show.
use space_elevator.Base.{
  ◌≡◌, refl, ap, ◌∙◌, false, none, some, List, [], ◌∷◌, Bytes, is_empty, same_bytes, same_bytes_iff,
  Table, put, put_all, get, get-put, join_path, arith, Bool-cases, inl, inr,
}
use space_elevator.Deployer.Storage.{
  bind, StorageBinding, AppStorage, VolumeMount, parse_volume_mount, logical_storage_name,
}
use space_elevator.Deployer.Storage.Plan.{
  StoragePlan, Planned, planned, Site, site_of, below, old_bind_source, place, bound, declare,
  plan_volume, plan_volumes, old_plan, announced, plan_on, plan_storage, keep_legacy, is_there,
  rows_of,
}

keep_legacy-none :
    (n : Bytes) (known : Table AppStorage) (discovered : Table StorageBinding)
    → get n discovered ≡ none
    → get n (keep_legacy known discovered) ≡ none
unfolding get
keep_legacy-none n known [] h = refl
keep_legacy-none n known ((j, b) ∷ discovered) h = elim (Bool-cases (same_bytes j n)) [
  | inl e ↦ ground arith
  | inr e ↦ elim (Bool-cases (is_there (get j known))) [
    | inl i ↦ rw i (keep_legacy-none n known discovered (ground arith))
    | inr i ↦ rw (i, e) (keep_legacy-none n known discovered (ground arith))
  ]
]

get-put_here {ℓ} : {V : Type ℓ} (n : Bytes) (v : V) (m : Table V) → get n (put n v m) ≡ some v
get-put_here n v m = get-put n v n m ∙ rw ((same_bytes_iff n n).1 refl) refl

-- The plan for a name that is moved.
moved : Site → Bytes → Bytes → StoragePlan → StoragePlan
moved s n ref plan =
    let b : StorageBinding = record { kind = bind; ref = ref } in
    let old : StorageBinding = record {
      kind = bind;
      ref = join_path (s.old_source_dir ∷ below n ∷ []);
    } in
    record plan {
      candidate = put n b plan.candidate;
      all = put n old (put n b plan.all);
      migrate_binds = put old.ref ref plan.migrate_binds;
    }

abbrev pub row_of : Bytes → Bytes → AppStorage
row_of n ref = record { logical_name = n; storage_kind = bind; physical_ref = ref }

module _ (s : Site) (n ref : Bytes) (missing : get n s.discovered ≡ none)
    (fresh : get n s.legacy ≡ none) (has_dir : is_empty s.old_source_dir ≡ false)
    (has_old : is_empty (join_path (s.old_source_dir ∷ below n ∷ [])) ≡ false)
    (elsewhere : same_bytes (join_path (s.old_source_dir ∷ below n ∷ [])) ref ≡ false) where
  old-checkout : old_bind_source s n ≡ join_path (s.old_source_dir ∷ below n ∷ [])
  unfolding old_bind_source
  old-checkout = rw (missing, has_dir) refl

  place-moved :
      (plan : StoragePlan)
      → place s n false (record { kind = bind; ref = ref }) plan ≡ moved s n ref plan
  unfolding place moved
  place-moved plan = rw (old-checkout, has_old, elsewhere, fresh) refl

  plan_on-moved :
      (existing : List AppStorage) (service raw : Bytes) (m : VolumeMount)
      → parse_volume_mount raw ≡ some m
      → logical_storage_name m.source ≡ some (n, bind)
      → m.read_only ≡ false
      → get n s.known ≡ some (row_of n ref)
      → plan_on s existing ((service, raw ∷ []) ∷ [])
        ≡ planned (announced (moved s n ref (old_plan s existing)))
  unfolding plan_on plan_volumes plan_volume declare bound get
  plan_on-moved existing service raw m p l w k =
      rw (p, l, k, w) (ap (λ x. planned (announced x)) (place-moved (old_plan s existing)))

abbrev pub Overwrites : Bytes → Bytes → Bytes → Planned StoragePlan → Type 0
Overwrites n ref old r =
    (p : StoragePlan) × (r ≡ planned p)
    × (get n p.candidate ≡ some (record { kind = bind; ref = ref }))
    × (get old p.migrate_binds ≡ some ref)
    × (get n p.all ≡ some (record { kind = bind; ref = old }))

moved-Overwrites :
    (s : Site) (n ref : Bytes) (plan : StoragePlan) (r : Planned StoragePlan)
    → r ≡ planned (announced (moved s n ref plan))
    → Overwrites n ref (join_path (s.old_source_dir ∷ below n ∷ [])) r
unfolding moved
moved-Overwrites s n ref plan r e =
    let old = join_path (s.old_source_dir ∷ below n ∷ []) in
    let managed : StorageBinding = record { kind = bind; ref = ref } in
    (
      announced (moved s n ref plan),
      e,
      get-put_here n managed plan.candidate,
      get-put_here old ref plan.migrate_binds,
      get-put_here n (record { kind = bind; ref = old }) (put n managed plan.all),
    )

-- Where a candidate has one volume, a writable bind whose row has a managed place, podman shows no
-- container that mounts it, and the directory of the same name in the old checkout is another place,
-- the plan copies that directory over the managed one, and backs up the directory in its stead.
pub plan_storage-Overwrites :
    (root id : Bytes) (digest : Bytes → Bytes) (existing : List AppStorage)
    (discovered : Table StorageBinding) (old_source_dir service raw n ref : Bytes) (m : VolumeMount)
    → parse_volume_mount raw ≡ some m
    → logical_storage_name m.source ≡ some (n, bind)
    → m.read_only ≡ false
    → get n (put_all (rows_of existing) []) ≡ some (row_of n ref)
    → get n discovered ≡ none
    → is_empty old_source_dir ≡ false
    → is_empty (join_path (old_source_dir ∷ below n ∷ [])) ≡ false
    → same_bytes (join_path (old_source_dir ∷ below n ∷ [])) ref ≡ false
    → Overwrites n ref
        (join_path (old_source_dir ∷ below n ∷ []))
        (plan_storage root id digest existing discovered old_source_dir ((service, raw ∷ []) ∷ []))
unfolding plan_storage site_of
plan_storage-Overwrites root id digest existing discovered dir service raw n ref m p l w k d a b c =
    let s = site_of root id digest existing discovered dir in
    moved-Overwrites s n ref (old_plan s existing) (plan_on s existing ((service, raw ∷ []) ∷ [])) (
      plan_on-moved s n ref d (keep_legacy-none n s.known discovered d) a b c existing service raw m
        p l w k)
