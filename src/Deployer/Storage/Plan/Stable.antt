-- ===== src/Deployer/Storage/Plan/Stable.antt =====
-- What a storage plan promises: the data of an app stays where it is, and each volume that the
-- candidate mounts has a place.
use space_elevator.Base.{
  ◌≡◌, refl, sym, subst, ap, ◌∙◌, Option, none, some, List, [], ◌∷◌, Bytes, All, All-map, get,
  Table,
}
use space_elevator.Deployer.Storage.{StorageKind, StorageBinding, AppStorage}
use space_elevator.Deployer.Storage.Plan.{
  StoragePlan, Planned, planned, refused, Site, Walk, plan_volume, plan_volumes, and_then,
  volumes_of, old_plan, announced, plan_on, plan_storage, site_of,
}
use space_elevator.Deployer.Storage.Plan.Sound.{Owned, Given, Declared, Placed, Kept, Sound}
use space_elevator.Deployer.Storage.Plan.Rounds.{Mounts, RoundOf, named-Round, mounted_name}

-- The name that a volume mounts has been declared.
abbrev Taken : Walk → Bytes → Type 0
Taken w raw = (n : Bytes) × (k : StorageKind) × Mounts raw n k × (get n w.1 ≡ some k)

abbrev Still : Walk → Walk → Type 0
Still w w' = (j : Bytes) (e : StorageKind) → get j w.1 ≡ some e → get j w'.1 ≡ some e

-- What the loop does.
record Looped (s : Site) (raws : List Bytes) (w w' : Walk) : Type 0 where
  sound : (j : Bytes) → Sound s w' j
  taken : All (Taken w') raws
  still : Still w w'

plan_volume-Round :
    (s : Site) (raw : Bytes) (w : Walk)
    → ((j : Bytes) → Sound s w j)
    → RoundOf s w raw (plan_volume s raw w)
unfolding plan_volume
plan_volume-Round s raw w h = named-Round s raw w _ refl h

plan_volumes-Looped :
    (s : Site) (raws : List Bytes) (w w' : Walk)
    → plan_volumes s raws w ≡ planned w'
    → ((j : Bytes) → Sound s w j)
    → Looped s raws w w'
unfolding plan_volumes
plan_volumes-Looped s [] w w' p h =
    subst (λ x. Looped s [] w x) (planned-eq p)
      (record { sound = h; taken = tt; still = λ j e x. x })
  where
    of_plan : Walk → Planned Walk → Walk
    of_plan w₀ (planned x) = x
    of_plan w₀ (refused e) = w₀

    planned-eq : planned w ≡ planned w' → w ≡ w'
    planned-eq q = ap (λ x. of_plan w x) q
plan_volumes-Looped s (raw ∷ raws) w w' p h =
    go (plan_volume s raw w) (plan_volume-Round s raw w h) p (λ x. plan_volumes-Looped s raws x w')
  where
    go :
        (r : Planned Walk)
        → RoundOf s w raw r
        → and_then r (λ x. plan_volumes s raws x) ≡ planned w'
        → ((x : Walk)
            → plan_volumes s raws x ≡ planned w'
            → ((j : Bytes) → Sound s x j)
            → Looped s raws x w')
        → Looped s (raw ∷ raws) w w'
    go (refused e) d q later = cc
    go (planned x) (n, k, m, d) q later =
        let rest = later x q d.sound in
        record {
          sound = rest.sound;
          taken = ((n, k, m, rest.still n k d.declared), rest.taken);
          still = λ j e was. rest.still j e (d.still j e was);
        }

old_plan-Sound :
    (s : Site) (existing : List AppStorage) (j : Bytes) → Sound s (old_plan s existing, []) j
unfolding get
old_plan-Sound s existing j = record { declares = tt; owns = tt; keeps = refl }

abbrev plan_of : StoragePlan → Planned StoragePlan → StoragePlan
plan_of p₀ (planned p) = p
plan_of p₀ (refused e) = p₀

-- A volume has a binding of its kind.
abbrev pub Backed : StoragePlan → Bytes → Type 0
Backed p raw =
    (n : Bytes) × (b : StorageBinding) × (mounted_name raw ≡ some (n, b.kind))
    × (get n p.candidate ≡ some b)

taken-Backed :
    (s : Site) (w : Walk)
    → ((j : Bytes) → Sound s w j)
    → (raw : Bytes) → Taken w raw
    → Backed w.0 raw
taken-Backed s w h raw (n, k, m, d) =
    go (get n w.0.candidate) refl (subst (λ x. Declared x (get n w.0.candidate)) d (h n).declares)
  where
    go : (b : Option StorageBinding) → get n w.0.candidate ≡ b → Given k b → Backed w.0 raw
    go none e g = absurd g
    go (some b) e g = (n, b, m ∙ ap (λ x. some (n, x)) (sym g), e)

abbrev pub Stable : Site → List (Bytes × List Bytes) → StoragePlan → Type 0
Stable s services p =
    All (Backed p) (volumes_of services)
    × ((n : Bytes) (b : StorageBinding) → get n p.candidate ≡ some b → Owned s n (get n s.known) b)
    × ((n : Bytes) → get n p.candidate ≡ none → get n p.all ≡ get n p.previous)

plan_on-Stable :
    (s : Site) (existing : List AppStorage) (services : List (Bytes × List Bytes)) (p : StoragePlan)
    → plan_on s existing services ≡ planned p
    → Stable s services p
unfolding plan_on
plan_on-Stable s existing services p h = go (plan_volumes s (volumes_of services) start) refl h
  where
    start : Walk
    start = (old_plan s existing, [])

    go :
        (r : Planned Walk)
        → plan_volumes s (volumes_of services) start ≡ r
        → and_then r (λ w. planned (announced w.0)) ≡ planned p
        → Stable s services p
    go (refused e) q h = cc
    go (planned w) q h =
        let looped =
          plan_volumes-Looped s (volumes_of services) start w q (old_plan-Sound s existing) in
        subst (λ x. Stable s services x) (ap (λ x. plan_of p x) h)
          (
            All-map (taken-Backed s w looped.sound) (volumes_of services) looped.taken,
            λ n b e. subst (λ x. Placed s n x) e (looped.sound n).owns,
            λ n e.
                subst (λ x. Kept x (get n w.0.all) (get n w.0.previous)) e (looped.sound n).keeps,
          )

-- For every plan that planStorage makes: each volume that the candidate mounts has a binding of its
-- kind; a binding of the candidate is that of the row where the name has one, and else a volume at
-- its old or its managed name, or a bind in the data of the app; and a name that the candidate does
-- not mount is backed up from where it was.
pub plan_storage-Stable :
    (root id : Bytes) (digest : Bytes → Bytes) (existing : List AppStorage)
    (discovered : Table StorageBinding) (old_source_dir : Bytes)
    (services : List (Bytes × List Bytes)) (p : StoragePlan)
    → plan_storage root id digest existing discovered old_source_dir services ≡ planned p
    → Stable (site_of root id digest existing discovered old_source_dir) services p
unfolding plan_storage
plan_storage-Stable root id digest existing discovered old_source_dir services p =
    plan_on-Stable (site_of root id digest existing discovered old_source_dir) existing services p
