-- ===== src/Store/Secrets.antt =====
-- secrets.go: the rows of app_secrets, and replaceSecrets of update.go, which puts a snapshot back.
-- A Go map is an association list, in any order; the order of a range is that of the list.
pub mod Replace
pub mod Merge
use space_elevator.Base.{
  ℕ, String, str_eq, Bool, true, false, not, ◌&&◌, Option, none, some, List, [], ◌∷◌, ◌++◌, ltb,
  if◌then◌else◌, sift, tally, amend, Bytes, bytes, Dict, lookup, insert,
}
use space_elevator.Store.Rows.{constraint, invalid_env, Result, ok, err}
use space_elevator.Store.Apps.{valid_env_key, has_nul}

pub record SecretRow : Type 0 where
  pub app_id : String
  pub key : String
  pub value : Bytes

-- The table, and the ids of the rows of apps, which a foreign key refers to.
pub record SecretTable : Type 0 where
  pub rows : List SecretRow
  pub apps : List String

abbrev pub row_is : String → String → SecretRow → Bool
row_is app_id key r = str_eq r.app_id app_id && str_eq r.key key

abbrev pub app_there : String → SecretTable → Bool
app_there app_id t = ltb 0 (tally (λ i. str_eq i app_id) t.apps)

-- INSERT … ON CONFLICT DO UPDATE
unfoldable pub upsert : String → String → Bytes → List SecretRow → List SecretRow
upsert app_id key value rows =
    if ltb 0 (tally (row_is app_id key) rows)
    then amend (row_is app_id key) (λ r. record r { value = value }) rows
    else rows ++ record { app_id = app_id; key = key; value = value } ∷ []

unfoldable pub set_secret : String → String → Bytes → SecretTable → Result (Unit {0}) × SecretTable
unfolding upsert
set_secret app_id key value t =
    if not (valid_env_key (bytes key))
    then (err invalid_env, t)
    else if has_nul value
    then (err invalid_env, t)
    else if app_there app_id t
    then (ok tt, record t { rows = upsert app_id key value t.rows })
    else (err constraint, t)

unfoldable pub delete_secret : String → String → SecretTable → SecretTable
delete_secret app_id key t = record t { rows = sift (λ r. not (row_is app_id key r)) t.rows }

-- `out[k] = v` over the rows of the app
unfoldable pub collect : String → List SecretRow → Dict Bytes → Dict Bytes
collect app_id [] out = out
collect app_id (r ∷ rows) out =
    collect app_id rows (if str_eq r.app_id app_id then insert r.key r.value out else out)

unfoldable pub get_secrets : String → SecretTable → Dict Bytes
unfolding collect
get_secrets app_id t = collect app_id t.rows []

-- replaceSecrets: delete what is not desired, then set what is
unfoldable pub delete_others : String → Dict Bytes → Dict Bytes → SecretTable → SecretTable
unfolding delete_secret
delete_others app_id desired [] t = t
delete_others app_id desired ((k, v) ∷ current) t =
    delete_others app_id desired current
      (elim (lookup k desired) [ some w ↦ t | none ↦ delete_secret app_id k t ])

abbrev and_set :
    Result (Unit {0}) × SecretTable
    → (SecretTable → Result (Unit {0}) × SecretTable)
    → Result (Unit {0}) × SecretTable
and_set (ok u, t) k = k t
and_set (err e, t) k = (err e, t)

unfoldable pub set_all : String → Dict Bytes → SecretTable → Result (Unit {0}) × SecretTable
unfolding set_secret
set_all app_id [] t = (ok tt, t)
set_all app_id ((k, v) ∷ desired) t = and_set (set_secret app_id k v t) (set_all app_id desired)

unfoldable pub replace_secrets : String → Dict Bytes → SecretTable → Result (Unit {0}) × SecretTable
unfolding get_secrets delete_others set_all
replace_secrets app_id desired t =
    set_all app_id desired (delete_others app_id desired (get_secrets app_id t) t)

-- LoadRuntimeEnv: a copy of the plain environment, with the secrets written over it
unfoldable pub merge_all : Dict Bytes → Dict Bytes → Dict Bytes
merge_all [] out = out
merge_all ((k, v) ∷ entries) out = merge_all entries (insert k v out)

unfoldable pub load_runtime_env : String → Dict Bytes → SecretTable → Dict Bytes
unfolding merge_all get_secrets
load_runtime_env app_id base t = merge_all (get_secrets app_id t) (merge_all base [])
