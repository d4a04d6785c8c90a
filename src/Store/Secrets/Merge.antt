-- ===== src/Store/Secrets/Merge.antt =====
-- The environment of a container: secrets go before plain values.
use space_elevator.Base.{
  ◌≡◌, refl, ◌∙◌, ap, inl, inr, String, str_eq, Option, none, some, List, [], ◌∷◌, Bytes, Dict,
  lookup, insert, lookup-insert, arith, eq_iff, Bool-cases,
}
use space_elevator.Store.Secrets.{
  SecretRow, SecretTable, collect, get_secrets, merge_all, load_runtime_env,
}
use space_elevator.Store.Secrets.Replace.{IsMap, or_else}

insert-IsMap : (k : String) (v : Bytes) (m : Dict Bytes) → IsMap m → IsMap (insert k v m)
unfolding insert lookup
insert-IsMap k v [] h = (refl, tt)
insert-IsMap k v ((j, w) ∷ m) h = elim (Bool-cases (str_eq j k)) [
  | inl e ↦ rw e (ground (arith, h.0, e, eq_iff j k), h.1)
  | inr e ↦ rw e (
    ground (arith, h.0, e, lookup-insert k j v m, eq_iff j k, eq_iff k j),
    insert-IsMap k v m h.1,
  )
]

collect-IsMap :
    (a : String) (rows : List SecretRow) (out : Dict Bytes) → IsMap out → IsMap (collect a rows out)
unfolding collect
collect-IsMap a [] out h = h
collect-IsMap a (r ∷ rows) out h = elim (Bool-cases (str_eq r.app_id a)) [
  | inl e ↦
      rw e (collect-IsMap a rows (insert r.key r.value out) (insert-IsMap r.key r.value out h))
  | inr e ↦ rw e (collect-IsMap a rows out h)
]

lookup-merge_all :
    (k : String) (entries out : Dict Bytes)
    → IsMap entries
    → lookup k (merge_all entries out) ≡ or_else (lookup k entries) (lookup k out)
unfolding merge_all lookup
lookup-merge_all k [] out h = refl
lookup-merge_all k ((j, v) ∷ entries) out h = ground (
  arith,
  lookup-merge_all k entries (insert j v out) h.1,
  lookup-insert j k v out,
  eq_iff j k,
  h.0,
)

-- In the environment that a container gets, a name that the app has a secret for has the value of the
-- secret, and any other name the value of the plain environment, or none.
pub load_runtime_env-secrets :
    (app_id k : String) (base : Dict Bytes) (t : SecretTable)
    → IsMap base
    → lookup k (load_runtime_env app_id base t)
      ≡ or_else (lookup k (get_secrets app_id t)) (lookup k base)
unfolding load_runtime_env get_secrets lookup
load_runtime_env-secrets app_id k base t h =
    lookup-merge_all k (collect app_id t.rows []) (merge_all base [])
      (collect-IsMap app_id t.rows [] tt)
    ∙ ap (or_else (lookup k (collect app_id t.rows [])))
        (lookup-merge_all k base [] h ∙ or_none (lookup k base))
  where
    or_none : (o : Option Bytes) → or_else o none ≡ o
    or_none none = refl
    or_none (some v) = refl
