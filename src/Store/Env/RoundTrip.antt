-- ===== src/Store/Env/RoundTrip.antt =====
-- The text of the environment editor is read back as the environment that it shows.
use mathlib.Core.List.{foldl}
use space_elevator.Base.{
  join, lacks, lacks-append, split-join, ℕ, ◌≡◌, ◌≢◌, refl, ap, ◌∙◌, Bool, true, false, ◌&&◌, ◌||◌,
  ◌==◌, leb, some, List, [], ◌∷◌, ◌++◌, Bytes, trim_space, All, arith,
}
use space_elevator.Base.Text.Trim.{is_graphic, ends_graphic, ends-append, trim_space-graphic}
use space_elevator.Store.Apps.{key_start, key_rest, valid_env_key}
use space_elevator.Store.Env.{
  Env, put, put_all, cut, trim_cr, parse_entry, parse_line, parse_kv_lines, join, sort_entries,
  entry_line, entry_lines, format_env,
}
use space_elevator.Store.Env.Maps.{
  get, Distinct, sort_entries-same, sort_entries-All, put_all-Distinct,
}

-- A value on one line that ends in a graphic byte, under a valid key.
abbrev pub IsPlain : Bytes × Bytes → Type 0
IsPlain (k, v) = (valid_env_key k ≡ true) × (lacks 10 v ≡ true) × (ends_graphic v ≡ true)

abbrev key_byte : ℕ → Bool
key_byte c = key_start c || leb b'0' c && leb c b'9'

key_byte-facts :
    (c : ℕ)
    → key_byte c ≡ true
    → (is_graphic c ≡ true) × ((c == b'=') ≡ false) × ((c == 10) ≡ false)
unfolding key_start
key_byte-facts c h = (ground arith, ground arith, ground arith)

rest-of : (c : ℕ) (s : Bytes) → key_rest (c ∷ s) ≡ true → (key_byte c ≡ true) × (key_rest s ≡ true)
unfolding key_rest
rest-of c s h = (ground arith, ground arith)

key-of :
    (c : ℕ) (s : Bytes) → valid_env_key (c ∷ s) ≡ true → (key_byte c ≡ true) × (key_rest s ≡ true)
unfolding valid_env_key
key-of c s h = (ground arith, ground arith)

ends-key : (c : ℕ) (s : Bytes) → key_byte c ≡ true → key_rest s ≡ true → ends_graphic (c ∷ s) ≡ true
ends-key c [] h r = (key_byte-facts c h).0
ends-key c (d ∷ s) h r = let (h', r') = rest-of d s r in ends-key d s h' r'

empty-key : valid_env_key [] ≢ true
unfolding valid_env_key
empty-key h = cc

trim_space-key : (k : Bytes) → valid_env_key k ≡ true → trim_space k ≡ k
trim_space-key [] h = trim_space-graphic [] refl refl
trim_space-key (c ∷ s) h =
    let (b, r) = key-of c s h in
    trim_space-graphic (c ∷ s) ((key_byte-facts c b).0) (ends-key c s b r)

cut-rest : (k v : Bytes) → key_rest k ≡ true → cut b'=' (k ++ b'=' ∷ v) ≡ some (k, v)
unfolding cut
cut-rest [] v h = refl
cut-rest (c ∷ s) v h =
    let (b, r) = rest-of c s h in rw ((key_byte-facts c b).1, cut-rest s v r) refl

cut-key :
    (c : ℕ) (s v : Bytes)
    → key_byte c ≡ true
    → key_rest s ≡ true
    → cut b'=' (c ∷ s ++ b'=' ∷ v) ≡ some (c ∷ s, v)
unfolding cut
cut-key c s v b r = rw ((key_byte-facts c b).1, cut-rest s v r) refl

trim_cr-graphic : (s : Bytes) → ends_graphic s ≡ true → trim_cr s ≡ s
unfolding trim_cr
trim_cr-graphic [] h = refl
trim_cr-graphic (c ∷ []) h = ground arith
trim_cr-graphic (c ∷ d ∷ s) h = ap (λ t. c ∷ t) (trim_cr-graphic (d ∷ s) h)

ends-line : (k v : Bytes) → ends_graphic v ≡ true → ends_graphic (k ++ b'=' ∷ v) ≡ true
ends-line k [] h = ends-append k [] b'='
ends-line k (d ∷ v) h = ends-append k (d ∷ v) b'=' ∙ h

parse_line-entry :
    (k v : Bytes) (out : Env) (bad : List Bytes)
    → IsPlain (k, v)
    → parse_line (out, bad) (entry_line (k, v)) ≡ (put k v out, bad)
unfolding parse_line parse_entry
parse_line-entry [] v out bad (h, n, e) = absurd (empty-key h)
parse_line-entry (c ∷ s) v out bad (h, n, e) =
    let (b, r) = key-of c s h in
    let ends = ends-line (c ∷ s) v e in
    rw
      (
        trim_cr-graphic (c ∷ s ++ b'=' ∷ v) ends,
        trim_space-graphic (c ∷ s ++ b'=' ∷ v) (key_byte-facts c b).0 ends,
        cut-key c s v b r,
        trim_space-key (c ∷ s) h,
        h,
      )
      refl

parse_lines :
    (env out : Env)
    → All IsPlain env
    → foldl parse_line (out, []) (entry_lines env) ≡ (put_all env out, [])
unfolding put_all
parse_lines [] out h = refl
parse_lines ((k, v) ∷ env) out h =
    rw (foldl, parse_line-entry k v out [] h.0) (parse_lines env (put k v out) h.1)

lacks-key_rest : (s : Bytes) → key_rest s ≡ true → lacks 10 s ≡ true
lacks-key_rest [] h = refl
lacks-key_rest (c ∷ s) h =
    let (b, r) = rest-of c s h in rw ((key_byte-facts c b).2, lacks-key_rest s r) refl

lacks-key : (k : Bytes) → valid_env_key k ≡ true → lacks 10 k ≡ true
lacks-key [] h = refl
lacks-key (c ∷ s) h =
    let (b, r) = key-of c s h in rw ((key_byte-facts c b).2, lacks-key_rest s r) refl

lacks-line : (e : Bytes × Bytes) → IsPlain e → lacks 10 (entry_line e) ≡ true
lacks-line (k, v) (h, n, e) = lacks-append 10 k (b'=' ∷ v) (lacks-key k h) n

lacks-lines : (env : Env) → All IsPlain env → All (λ s. lacks 10 s ≡ true) (entry_lines env)
lacks-lines [] h = tt
lacks-lines (e ∷ env) h = (lacks-line e h.0, lacks-lines env h.1)

parse-format :
    (env : Env)
    → All IsPlain env
    → parse_kv_lines (join (10 ∷ []) (entry_lines env)) ≡ (put_all env [], [])
unfolding parse_kv_lines trim_space join put_all
parse-format [] h = refl
parse-format (e ∷ env) h =
    rw (split-join 10 (entry_line e) (entry_lines env) (lacks-lines (e ∷ env) h))
      (parse_lines (e ∷ env) [] h)

-- An environment without a key twice, all of whose keys are valid and whose values stand on one line
-- and are empty or end in a graphic ASCII byte, comes back from the text that the editor shows for
-- it: no line is refused, and each key has the value that it had, or none.
pub parse_kv_lines-format_env :
    (env : Env)
    → Distinct env
    → All IsPlain env
    → ((parse_kv_lines (format_env env)).1 ≡ [])
      × ((k : Bytes) → get k (parse_kv_lines (format_env env)).0 ≡ get k env)
unfolding format_env
parse_kv_lines-format_env env d h =
    let (d', same) = sort_entries-same env d in
    let back =
      parse-format (sort_entries env) (sort_entries-All IsPlain env h)
      ∙ ap (λ x. (x, [])) (put_all-Distinct (sort_entries env) d') in
    (ap (λ x. x.1) back, λ k. ap (λ x. get k x.0) back ∙ same k)
