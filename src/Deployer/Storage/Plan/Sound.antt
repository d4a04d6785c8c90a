-- ===== src/Deployer/Storage/Plan/Sound.antt =====
-- What each round of the loop over the volumes keeps.
use space_elevator.Base.{
  ◌≡◌, refl, ◌∙◌, inl, inr, Bool, true, false, not, ◌&&◌, ◌||◌, Option, none, some, Bytes, is_empty,
  same_bytes, Table, put, get, get-put, Bool-cases,
}
use space_elevator.Deployer.Storage.{
  StorageKind, volume, bind, same_kind, StorageBinding, AppStorage, clean_relative_storage,
  bind_ref, managed_volume_name,
}
use space_elevator.Deployer.Storage.Plan.{
  StoragePlan, Planned, planned, refused, Site, binding_of, Walk, legacy_ref, new_bind, new_binding,
  old_bind_source, legacy_binding, place, warned, bound,
}

-- Where a new volume or a new bind is put.
abbrev pub OwnedNew : Site → Bytes → StorageKind → Bytes → Type 0
OwnedNew s n volume ref =
    ref ≡ legacy_ref (managed_volume_name s.digest s.app_id n) (get n s.legacy)
OwnedNew s n bind ref =
    (c : Bytes) × (clean_relative_storage n ≡ some c) × (ref ≡ bind_ref s.apps_root s.app_id c)

-- A name with a row keeps the binding of the row.
abbrev pub Owned : Site → Bytes → Option AppStorage → StorageBinding → Type 0
Owned s n (some m) b = b ≡ binding_of m
Owned s n none b = OwnedNew s n b.kind b.ref

-- The binding that the candidate has for a declared name.
abbrev pub Given : StorageKind → Option StorageBinding → Type 0
Given k none = ⊥
Given k (some b) = b.kind ≡ k

abbrev pub Declared : Option StorageKind → Option StorageBinding → Type 0
Declared none b = Unit
Declared (some k) b = Given k b

abbrev pub Placed : Site → Bytes → Option StorageBinding → Type 0
Placed s n none = Unit
Placed s n (some b) = Owned s n (get n s.known) b

abbrev pub Kept : Option StorageBinding → Option StorageBinding → Option StorageBinding → Type 0
Kept none now before = now ≡ before
Kept (some b) now before = Unit

pub record Sound (s : Site) (w : Walk) (n : Bytes) : Type 0 where
  pub declares : Declared (get n w.1) (get n w.0.candidate)
  pub owns : Placed s n (get n w.0.candidate)
  pub keeps : Kept (get n w.0.candidate) (get n w.0.all) (get n w.0.previous)

pub same_kind_iff : (a b : StorageKind) → same_kind a b ≡ true → a ≡ b
same_kind_iff volume volume h = refl
same_kind_iff bind bind h = refl
same_kind_iff volume bind h = cc
same_kind_iff bind volume h = cc

-- What `bound` answers: a binding of the kind, and the plan but for a warning.
abbrev pub Bound :
    Site → Bytes → StorageKind → StoragePlan → Planned (StorageBinding × StoragePlan) → Type 0
Bound s n k plan (refused e) = Unit
Bound s n k plan (planned (b, plan')) =
    (b.kind ≡ k)
    × Owned s n (get n s.known) b
    × (plan'.candidate ≡ plan.candidate)
    × (plan'.all ≡ plan.all)
    × (plan'.previous ≡ plan.previous)

new_bind-Bound :
    (s : Site) (n : Bytes) (plan : StoragePlan) (r : Option Bytes)
    → clean_relative_storage n ≡ r
    → get n s.known ≡ none
    → Bound s n bind plan (warned n plan (new_bind s n r))
new_bind-Bound s n plan none e h = tt
new_bind-Bound s n plan (some c) e h = (refl, rw h (c, e, refl), refl, refl, refl)

pub bound-Bound :
    (s : Site) (n : Bytes) (k : StorageKind) (plan : StoragePlan) (m : Option AppStorage)
    → get n s.known ≡ m
    → Bound s n k plan (bound s n k plan m)
unfolding bound new_binding
bound-Bound s n volume plan none h = (refl, rw h refl, refl, refl, refl)
bound-Bound s n bind plan none h = new_bind-Bound s n plan (clean_relative_storage n) refl h
bound-Bound s n k plan (some m) h = elim (Bool-cases (same_kind m.storage_kind k)) [
  | inl e ↦ rw e (same_kind_iff m.storage_kind k e, rw h refl, refl, refl, refl)
  | inr e ↦ rw e tt
]

-- The tables behind `place`, whether or not a bind is migrated.
pub record Replaced (n : Bytes) (b : StorageBinding) (p q : StoragePlan) : Type 0 where
  pub at_candidate : q.candidate ≡ put n b p.candidate
  pub at_previous : q.previous ≡ p.previous
  pub elsewhere : (j : Bytes) → same_bytes n j ≡ false → get j q.all ≡ get j p.all

pub get-put_other {ℓ} :
    {V : Type ℓ} (n : Bytes) (v : V) (j : Bytes) (m : Table V)
    → same_bytes n j ≡ false
    → get j (put n v m) ≡ get j m
get-put_other n v j m h = get-put n v j m ∙ rw h refl

pub place-Replaced :
    (s : Site) (n : Bytes) (ro : Bool) (b : StorageBinding) (p : StoragePlan)
    → Replaced n b p (place s n ro b p)
unfolding place
place-Replaced s n ro b p = elim (Bool-cases (same_kind b.kind bind && not ro)) [
  | inl e ↦
      elim (Bool-cases (is_empty (old_bind_source s n) || same_bytes (old_bind_source s n) b.ref)) [
        | inl d ↦
            rw (e, d)
              (record {
                at_candidate = refl;
                at_previous = refl;
                elsewhere = λ j h. get-put_other n b j p.all h;
              })
        | inr d ↦
            rw (e, d)
              (record {
                at_candidate = refl;
                at_previous = refl;
                elsewhere = λ j h.
                    get-put_other n (legacy_binding (old_bind_source s n) (get n s.legacy)) j
                      (put n b p.all) h
                    ∙ get-put_other n b j p.all h;
              })
      ]
  | inr e ↦ rw e (record {
    at_candidate = refl;
    at_previous = refl;
    elsewhere = λ j h. get-put_other n b j p.all h;
  })
]
