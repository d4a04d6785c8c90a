-- ===== src/Deployer/Storage/Tests.antt =====
-- Mounts and storage plans of a small app.
use space_elevator.Base.{
  ◌≡◌, refl, true, false, some, none, List, [], ◌∷◌, ◌++◌, Bytes, bytes, All, put, put_all, get,
  split, join, has_prefix, trim_space, clean, join_path, slash, tally, amend,
}
use space_elevator.Base.Paths.Elements.{IsElement}
use space_elevator.Deployer.Storage.{
  volume, bind, StorageBinding, AppStorage, parse_volume_mount, logical_storage_name,
  canonical_storage_key, clean_relative_storage, bind_ref, managed_volume_name,
}
use space_elevator.Deployer.Storage.Confined.{bind_ref-confined}
use space_elevator.Deployer.Storage.Plan.{
  StoragePlan, persistent, planned, plan_storage, plan_on, site_of, plan_volumes, plan_volume,
  declare, bound, new_binding, place, old_bind_source,
}
use space_elevator.Deployer.Storage.Plan.Stable.{Stable, plan_storage-Stable}
use space_elevator.Deployer.Storage.Plan.Persist.{
  upsert_app_storage, persist_runtime_storage, persist_runtime_storage-fixes,
}
use space_elevator.Deployer.Storage.Plan.Overwrites.{Overwrites, row_of, plan_storage-Overwrites}

mount_read_only :
    parse_volume_mount (bytes "./conf:/etc/app:z, ro")
    ≡ some (record {
      source = bytes "./conf";
      target = bytes "/etc/app";
      mode = bytes "z, ro";
      read_only = true;
    })
unfolding parse_volume_mount split trim_space
mount_read_only = refl

name_cleaned : logical_storage_name (bytes ".//a/./b/../data/") ≡ some (bytes "a/data", bind)
unfolding logical_storage_name canonical_storage_key clean has_prefix split join
name_cleaned = refl

name_climbing : clean_relative_storage (bytes "../../etc") ≡ none
unfolding clean_relative_storage clean has_prefix split join
name_climbing = refl

bind_ref-confined_example :
    (bind_ref (slash ++ join slash (bytes "srv" ∷ bytes "apps" ∷ [])) (bytes "a1") (bytes "x/data")
      ≡ (slash ++ join slash (bytes "srv" ∷ bytes "apps" ∷ []))
        ++ (bytes "/data/" ++ (bytes "a1" ++ (slash ++ bytes "x/data"))))
    × All IsElement (split b'/' (bytes "x/data"))
bind_ref-confined_example =
    bind_ref-confined (bytes "srv") (bytes "apps" ∷ []) (bytes "a1") (bytes "./x/../x/data")
      (bytes "x/data") (refl, (refl, tt)) refl
      (unfold clean_relative_storage clean has_prefix split join in refl)

abbrev digest : Bytes → Bytes
digest s = bytes "0123456789ab"

abbrev rows : List AppStorage
rows = row_of (bytes "data") (bytes "/srv/data/a1/data") ∷ []

abbrev services : List (Bytes × List Bytes)
services =
    (bytes "web", bytes "./data:/data" ∷ bytes "cache:/cache" ∷ [])
    ∷ (bytes "db", bytes "cache:/c:ro" ∷ [])
    ∷ []

abbrev managed : StorageBinding
managed = record { kind = bind; ref = bytes "/srv/data/a1/data" }

abbrev cache : StorageBinding
cache = record { kind = volume; ref = bytes "se-vol-a1-0123456789ab" }

-- A row that podman confirms, and a new volume of two services.
abbrev shared_plan : StoragePlan
shared_plan = record {
  candidate = (bytes "data", managed) ∷ (bytes "cache", cache) ∷ [];
  all = (bytes "data", managed) ∷ (bytes "cache", cache) ∷ [];
  previous = (bytes "data", managed) ∷ [];
  migrate_binds = [];
  warnings = persistent (bytes "cache") cache.ref ∷ [];
}

plan_shared :
    plan_storage
      (bytes "/srv")
      (bytes "a1")
      digest
      rows
      ((bytes "data", managed) ∷ [])
      (bytes "/srv/a1/r1")
      services
    ≡ planned shared_plan
unfolding plan_storage plan_on site_of plan_volumes plan_volume declare bound new_binding place
    old_bind_source parse_volume_mount logical_storage_name canonical_storage_key
    clean_relative_storage managed_volume_name clean has_prefix split join trim_space join_path put
    get put_all
plan_shared = refl

plan_storage-Stable_example :
    Stable
      (site_of
        (bytes "/srv")
        (bytes "a1")
        digest
        rows
        ((bytes "data", managed) ∷ [])
        (bytes "/srv/a1/r1"))
      services
      shared_plan
plan_storage-Stable_example =
    plan_storage-Stable (bytes "/srv") (bytes "a1") digest rows ((bytes "data", managed) ∷ [])
      (bytes "/srv/a1/r1") services shared_plan plan_shared

plan_storage-Overwrites_example :
    Overwrites
      (bytes "data")
      (bytes "/srv/data/a1/data")
      (join_path (bytes "/srv/a1/r1" ∷ bytes "data" ∷ []))
      (plan_storage
        (bytes "/srv")
        (bytes "a1")
        digest
        rows
        []
        (bytes "/srv/a1/r1")
        ((bytes "web", bytes "./data:/data" ∷ []) ∷ []))
unfolding parse_volume_mount logical_storage_name canonical_storage_key clean has_prefix split join
    trim_space join_path put get put_all
plan_storage-Overwrites_example =
    plan_storage-Overwrites (bytes "/srv") (bytes "a1") digest rows [] (bytes "/srv/a1/r1")
      (bytes "web") (bytes "./data:/data") (bytes "data") (bytes "/srv/data/a1/data")
      (record {
        source = bytes "./data";
        target = bytes "/data";
        mode = bytes "rw";
        read_only = false;
      })
      refl refl refl refl refl refl refl refl

-- The next plan, when the rows are written, podman shows nothing and no old source is there.
abbrev next_plan : StoragePlan
next_plan = record {
  candidate = (bytes "data", managed) ∷ (bytes "cache", cache) ∷ [];
  all = (bytes "data", managed) ∷ (bytes "cache", cache) ∷ [];
  previous = (bytes "data", managed) ∷ (bytes "cache", cache) ∷ [];
  migrate_binds = [];
  warnings = [];
}

other_digest : Bytes → Bytes
other_digest s = bytes "ffffffffffff"

plan_next :
    plan_storage
      (bytes "/srv")
      (bytes "a1")
      other_digest
      (persist_runtime_storage shared_plan.candidate rows)
      []
      []
      services
    ≡ planned next_plan
unfolding plan_storage plan_on site_of plan_volumes plan_volume declare bound new_binding place
    old_bind_source parse_volume_mount logical_storage_name canonical_storage_key clean has_prefix
    split join trim_space get put put_all persist_runtime_storage upsert_app_storage tally amend
plan_next = refl

persist_runtime_storage-fixes_example : cache ≡ cache
unfolding get
persist_runtime_storage-fixes_example =
    persist_runtime_storage-fixes shared_plan next_plan rows (bytes "/srv") (bytes "a1")
      other_digest [] [] services (bytes "cache") cache cache plan_next refl refl
