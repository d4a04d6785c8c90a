-- ===== src/Store/Env.antt =====
-- secrets.go: environments as texts. An environment is a Go map, a list with one entry for a key.
pub mod Maps
pub mod RoundTrip
mod Tests
unfoldable pub use space_elevator.Base.{put, put_all}
use Prim.Native.Nat.{compare, Ordering}
use mathlib.Core.List.{foldl}
use space_elevator.Base.{
  ℕ, Bool, true, false, not, ◌&&◌, ◌||◌, ◌==◌, Option, none, some, List, [], ◌∷◌, ◌++◌,
  if◌then◌else◌, Bytes, is_empty, same_bytes, trim_space, String, split, join, Table,
}
use space_elevator.Store.Rows.{App, Db, Result, ok, err, invalid_env}
use space_elevator.Store.Apps.{valid_env_key, valid_env, update_row}

abbrev pub Env : Type 0
Env = Table Bytes

-- strings.Cut at one byte
abbrev before : ℕ → Option (Bytes × Bytes) → Option (Bytes × Bytes)
before c none = none
before c (some (k, v)) = some (c ∷ k, v)

unfoldable pub cut : ℕ → Bytes → Option (Bytes × Bytes)
cut sep [] = none
cut sep (c ∷ s) = let rest = cut sep s in if c == sep then some ([], s) else before c rest

-- strings.TrimSuffix(line, "\r")
unfoldable pub trim_cr : Bytes → Bytes
trim_cr [] = []
trim_cr (c ∷ []) = if c == 13 then [] else c ∷ []
trim_cr (c ∷ d ∷ s) = c ∷ trim_cr (d ∷ s)

-- The map and the bad lines so far.
abbrev pub Parsed : Type 0
Parsed = Env × List Bytes

unfoldable pub parse_entry : Bytes → Option (Bytes × Bytes) → Parsed → Parsed
parse_entry line none (out, bad) = (out, bad ++ line ∷ [])
parse_entry line (some (k, v)) (out, bad) =
    if valid_env_key (trim_space k)
    then (put (trim_space k) v out, bad)
    else (out, bad ++ line ∷ [])

unfoldable pub parse_line : Parsed → Bytes → Parsed
unfolding parse_entry cut trim_cr
parse_line parsed raw =
    let line = trim_space (trim_cr raw) in
    if is_empty line then parsed else parse_entry line (cut b'=' line) parsed

unfoldable pub parse_kv_lines : Bytes → Parsed
unfolding parse_line split
parse_kv_lines block = foldl parse_line ([], []) (split 10 block)

-- ParseKVArgs: nothing is trimmed but the key
unfoldable pub parse_arg : Parsed → Bytes → Parsed
unfolding parse_entry cut
parse_arg parsed arg = parse_entry arg (cut b'=' arg) parsed

unfoldable pub parse_kv_args : List Bytes → Parsed
unfolding parse_arg
parse_kv_args args = foldl parse_arg ([], []) args

-- UpdateAppEnv; a missing row is no error
unfoldable pub update_app_env : ℕ → String → Env → Db → Result (Unit {0}) × Db
update_app_env now id env db =
    if not (valid_env env)
    then (err invalid_env, db)
    else (ok tt, (update_row id (λ a. record a { env = env; updated_at = now }) db).1)

-- the order of sort.Strings
unfoldable pub bytes_le : Bytes → Bytes → Bool
bytes_le [] t = true
bytes_le (a ∷ s) [] = false
bytes_le (a ∷ s) (b ∷ t) = elim (compare a b) [
  | Ordering.lt ↦ true
  | Ordering.gt ↦ false
  | Ordering.eq ↦ bytes_le s t
]

unfoldable pub insert_entry : Bytes × Bytes → Env → Env
unfolding bytes_le
insert_entry (k, v) [] = (k, v) ∷ []
insert_entry (k, v) ((j, w) ∷ env) =
    if bytes_le k j then (k, v) ∷ (j, w) ∷ env else (j, w) ∷ insert_entry (k, v) env

unfoldable pub sort_entries : Env → Env
unfolding insert_entry
sort_entries [] = []
sort_entries (e ∷ env) = insert_entry e (sort_entries env)

abbrev pub entry_line : Bytes × Bytes → Bytes
entry_line (k, v) = k ++ b'=' ∷ v

abbrev pub entry_lines : Env → List Bytes
entry_lines [] = []
entry_lines (e ∷ env) = entry_line e ∷ entry_lines env

-- formatEnv of internal/web/handlers_apps.go
unfoldable pub format_env : Env → Bytes
unfolding join sort_entries
format_env env = join (10 ∷ []) (entry_lines (sort_entries env))
