-- ===== src/Deployer/Storage/Plan/Rounds.antt =====
-- One round of the loop over the volumes of the candidate keeps the invariant of Sound.
use space_elevator.Base.{
  ◌≡◌, refl, sym, subst, ap, ◌∙◌, inl, inr, Bool, Option, none, some, Bytes, same_bytes,
  same_bytes_iff, Table, put, get, get-put, Bool-cases,
}
use space_elevator.Deployer.Storage.{
  StorageKind, same_kind, StorageBinding, VolumeMount, parse_volume_mount, logical_storage_name,
}
use space_elevator.Deployer.Storage.Plan.{
  StoragePlan, Planned, planned, refused, Site, Walk, bound, placed, place, declare, plan_named,
  plan_mount,
}
use space_elevator.Deployer.Storage.Plan.Sound.{
  Owned, Sound, Bound, bound-Bound, place-Replaced, get-put_other, same_kind_iff,
}

get-put_same {ℓ} : {V : Type ℓ} (n : Bytes) (v : V) (m : Table V) → get n (put n v m) ≡ some v
get-put_same n v m = get-put n v n m ∙ rw ((same_bytes_iff n n).1 refl) refl

-- What a round does: the invariant, the name of the volume declared, and no declaration lost.
pub record Round (s : Site) (w w' : Walk) (n : Bytes) (k : StorageKind) : Type 0 where
  pub sound : (j : Bytes) → Sound s w' j
  pub declared : get n w'.1 ≡ some k
  pub still : (j : Bytes) (e : StorageKind) → get j w.1 ≡ some e → get j w'.1 ≡ some e

abbrev Rounded : Site → Walk → Bytes → StorageKind → Planned Walk → Type 0
Rounded s w n k (refused e) = Unit
Rounded s w n k (planned w') = Round s w w' n k

-- The four lookups that the invariant reads.
same-Sound :
    (s : Site) (w w' : Walk) (j : Bytes)
    → get j w'.1 ≡ get j w.1
    → get j w'.0.candidate ≡ get j w.0.candidate
    → get j w'.0.all ≡ get j w.0.all
    → w'.0.previous ≡ w.0.previous
    → Sound s w j
    → Sound s w' j
same-Sound s w w' j d c a p h = record {
  declares = rw (d, c) h.declares;
  owns = rw c h.owns;
  keeps = rw (c, a, p) h.keeps;
}

-- The name that is placed.
here-Sound :
    (s : Site) (w : Walk) (n : Bytes) (k : StorageKind) (b : StorageBinding)
    → get n w.1 ≡ some k
    → get n w.0.candidate ≡ some b
    → b.kind ≡ k
    → Owned s n (get n s.known) b
    → Sound s w n
here-Sound s w n k b d c kind owned = record {
  declares = rw (d, c) kind;
  owns = rw c owned;
  keeps = rw c tt;
}

some_is_none : {A B : Type 0} (x : A) → some x ≡ none → B
some_is_none x h = absurd cc

placed-Rounded :
    (s : Site) (n : Bytes) (k : StorageKind) (ro : Bool) (plan : StoragePlan)
    (declared : Table StorageKind) (r : Planned (StorageBinding × StoragePlan))
    → get n declared ≡ none
    → ((j : Bytes) → Sound s (plan, declared) j)
    → Bound s n k plan r
    → Rounded s (plan, declared) n k (placed s n ro (put n k declared) r)
placed-Rounded s n k ro plan declared (refused e) new h b = tt
placed-Rounded s n k ro plan declared (planned (b, plan')) new h (kind, owned, c, a, p) =
    let put_in = place-Replaced s n ro b plan' in
    let w' : Walk = (place s n ro b plan', put n k declared) in
    record {
      sound = λ j. elim (Bool-cases (same_bytes n j)) [
        | inl e ↦
            subst (λ x. Sound s w' x) ((same_bytes_iff n j).0 e)
              (here-Sound s w' n k b (get-put_same n k declared)
                (ap (λ t. get n t) put_in.at_candidate ∙ get-put_same n b plan'.candidate) kind
                owned)
        | inr e ↦
            same-Sound s (plan, declared) w' j (get-put_other n k j declared e)
              (ap (λ t. get j t) put_in.at_candidate
                ∙ get-put_other n b j plan'.candidate e
                ∙ ap (λ t. get j t) c)
              (put_in.elsewhere j e ∙ ap (λ t. get j t) a) (put_in.at_previous ∙ p) (h j)
      ];
      declared = get-put_same n k declared;
      still = λ j e was. elim (Bool-cases (same_bytes n j)) [
        | inl same ↦
            some_is_none e
              (sym was ∙ ap (λ x. get x declared) (sym ((same_bytes_iff n j).0 same)) ∙ new)
        | inr other ↦ get-put_other n k j declared other ∙ was
      ];
    }

declare-Rounded :
    (s : Site) (n : Bytes) (k : StorageKind) (ro : Bool) (w : Walk) (e : Option StorageKind)
    → get n w.1 ≡ e
    → ((j : Bytes) → Sound s w j)
    → Rounded s w n k (declare s n k ro w e)
unfolding declare
declare-Rounded s n k ro (plan, declared) none new h =
    placed-Rounded s n k ro plan declared (bound s n k plan (get n s.known)) new h
      (bound-Bound s n k plan (get n s.known) refl)
declare-Rounded s n k ro w (some earlier) was h = elim (Bool-cases (same_kind earlier k)) [
  | inl e ↦ rw e (record {
    sound = h;
    declared = was ∙ ap (λ x. some x) (same_kind_iff earlier k e);
    still = λ j f x. x;
  })
  | inr e ↦ rw e tt
]

-- The name and the kind of storage that a volume mounts.
abbrev pub name_in : Option VolumeMount → Option (Bytes × StorageKind)
name_in none = none
name_in (some m) = logical_storage_name m.source

unfoldable pub mounted_name : Bytes → Option (Bytes × StorageKind)
mounted_name raw = name_in (parse_volume_mount raw)

abbrev pub Mounts : Bytes → Bytes → StorageKind → Type 0
Mounts raw n k = mounted_name raw ≡ some (n, k)

abbrev pub RoundOf : Site → Walk → Bytes → Planned Walk → Type 0
RoundOf s w raw (refused e) = Unit
RoundOf s w raw (planned w') = (n : Bytes) × (k : StorageKind) × Mounts raw n k × Round s w w' n k

pub named-Round :
    (s : Site) (raw : Bytes) (w : Walk) (m : Option VolumeMount)
    → parse_volume_mount raw ≡ m
    → ((j : Bytes) → Sound s w j)
    → RoundOf s w raw (plan_mount s raw w m)
named-Round s raw w none e h = tt
named-Round s raw w (some m) e h =
    go (logical_storage_name m.source) (unfold mounted_name in ap (λ x. name_in x) e)
  where
    take_round :
        (n : Bytes) (k : StorageKind) (r : Planned Walk)
        → Mounts raw n k
        → Rounded s w n k r
        → RoundOf s w raw r
    take_round n k (refused f) q d = tt
    take_round n k (planned w') q d = (n, k, q, d)

    go :
        (q : Option (Bytes × StorageKind))
        → mounted_name raw ≡ q
        → RoundOf s w raw (plan_named s raw m.read_only w q)
    go none q = tt
    go (some (n, k)) q =
        take_round n k (declare s n k m.read_only w (get n w.1)) q
          (declare-Rounded s n k m.read_only w (get n w.1) refl h)
