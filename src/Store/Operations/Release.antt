-- ===== src/Store/Operations/Release.antt =====
-- What gives an app back: the end of its operation, and a restart of the service.
use space_elevator.Base.{
  first-amend, ℕ, ◌+◌, ◌≤◌, ◌<◌, ◌≡◌, refl, String, Bool, true, false, ◌&&◌, some, List, [], ◌∷◌,
  Bytes, arith, trim_space, ltb, length, take, ◌++◌, str_eq, if◌then◌else◌, eq_iff, tally, first,
  amend, str_eq_refl,
}
use space_elevator.Store.Rows.{Operation, Db, ok}
use space_elevator.Store.Operations.{
  is_active, has_id, active_of, active_id, update_active, finished, end_status, finish_operation,
  has_active_operation, get_operation, bounded_error,
}
use space_elevator.Store.Operations.Exclusive.{IsValid}
use space_elevator.Store.Operations.Ownership.{has_active_operation-tally}

module _ (p : Operation → Bool) (f : Operation → Operation) where
  -- Rows that an update takes out of a test are no longer counted.
  tally-amend_leave :
      (q : Operation → Bool)
      → ((x : Operation) → p x ≡ true → q (f x) ≡ false)
      → (xs : List Operation) → tally q (amend p f xs) + tally (λ x. p x && q x) xs ≤ tally q xs
  unfolding tally amend
  tally-amend_leave q out [] = omega arith
  tally-amend_leave q out (x ∷ xs) = ground (arith, tally-amend_leave q out xs, out x)

  pub amend-none : (xs : List Operation) → tally p xs ≡ 0 → amend p f xs ≡ xs
  unfolding tally amend
  amend-none [] z = refl
  amend-none (x ∷ xs) z = ground (arith, amend-none xs)

tally_of_first :
    (id : String) (q : Operation → Bool) (xs : List Operation) (o : Operation)
    → first (has_id id) xs ≡ some o
    → q o ≡ true
    → (0 < tally q xs) × (o.id ≡ id)
unfolding tally first
tally_of_first id q [] o h k = cc
tally_of_first id q (x ∷ xs) o h k = ground (arith, tally_of_first id q xs o, eq_iff x.id id)

tally-and_self :
    (q : Operation → Bool) (xs : List Operation) → tally (λ x. q x && q x) xs ≡ tally q xs
unfolding tally
tally-and_self q [] = refl
tally-and_self q (x ∷ xs) = ground (arith, tally-and_self q xs)

module _ (now : ℕ) (id status : String) (message : Bytes) (db : Db) (o : Operation)
    (found : first (has_id id) db.operations ≡ some o) (live : is_active o.status ≡ true)
    (ends : is_active (end_status status) ≡ false) where
  abbrev rows : List Operation
  rows = amend (active_id id) (finished now status message) db.operations

  own : active_id id o ≡ true
  own =
      ground
        (arith, eq_iff o.id id, tally_of_first id (λ x. true) db.operations o found, str_eq_refl id)

  some_active : 0 < tally (active_id id) db.operations
  some_active = (tally_of_first id (active_id id) db.operations o found own).0

  finish-eq : finish_operation now id status message db ≡ (ok tt, record db { operations = rows })
  unfolding finish_operation update_active
  finish-eq = ground (arith, some_active)

  finish-found : first (has_id id) rows ≡ some (finished now status message o)
  unfolding finished
  finish-found = rw own at (
      first-amend (has_id id) (active_id id) (finished now status message) (λ x. refl) db.operations
        o found)

  finish-none : tally (active_id id) rows ≡ 0
  unfolding finished
  finish-none = omega (
    arith,
    tally-amend_leave (active_id id) (finished now status message) (active_id id)
        (λ x h. ground arith) db.operations,
    tally-and_self (active_id id) db.operations,
  )

  finish-again :
      (later : ℕ) (status' : String) (message' : Bytes)
      → let db' = record db { operations = rows } in
        finish_operation later id status' message' db' ≡ (ok tt, db')
  unfolding finish_operation update_active
  finish-again later status' message' =
      rw (amend-none (active_id id) (finished later status' message') rows finish-none) (
        ground (
          arith,
          finish-none,
          tally_of_first id (has_id id) rows (finished now status message o) finish-found
              (unfold finished in ground (arith, own)),
        ))

  finish-free : tally (active_of o.app_id) db.operations ≤ 1 → tally (active_of o.app_id) rows ≡ 0
  unfolding finished
  finish-free one = omega (
    arith,
    tally-amend_leave (active_id id) (finished now status message) (active_of o.app_id)
        (λ x h. ground arith) db.operations,
    (tally_of_first id (λ x. active_id id x && active_of o.app_id x) db.operations o found
        (ground (arith, own, str_eq_refl o.app_id))).0,
  )

-- A text that is kept whole up to 4,096 bytes, and else cut there, with "…" behind it.
abbrev pub cut_error : Bytes → Bytes
cut_error t = if ltb 4_096 (length t) then take 4_096 t ++ 0xe2 ∷ 0x80 ∷ 0xa6 ∷ [] else t

-- FinishOperation on an active operation, with a status that is not active (the empty one is
-- "completed"): it succeeds; the row is read back with that status, the error (without white space
-- around it, and cut behind 4,096 bytes) and the time, and is otherwise as it was; the app has no
-- active operation any more; and finishing once more, with whatever status and error, succeeds and
-- changes nothing.
pub finish_operation-releases :
    (now : ℕ) (id status : String) (message : Bytes) (db : Db) (o : Operation)
    → IsValid db
    → get_operation id db ≡ ok o
    → is_active o.status ≡ true
    → is_active (if str_eq status "" then "completed" else status) ≡ false
    → let (answer, db') = finish_operation now id status message db in
      (answer ≡ ok tt)
      × (get_operation id db'
          ≡ ok (record o {
            status = if str_eq status "" then "completed" else status;
            error = cut_error (trim_space message);
            completed_at = some now;
          }))
      × (has_active_operation o.app_id db' ≡ false)
      × ((later : ℕ) (status' : String) (message' : Bytes)
          → finish_operation later id status' message' db' ≡ (ok tt, db'))
unfolding get_operation finished bounded_error
finish_operation-releases now id status message db o v h live ends =
    let found : first (has_id id) db.operations ≡ some o = ground arith in
    let done = finish-eq now id status message db o found live ends in
    (
      rw done,
      rw (done, finish-found now id status message db o found live ends),
      rw (
        done,
        has_active_operation-tally,
        finish-free now id status message db o found live ends (v.one_active o.app_id),
      ),
      λ later status' message'.
          rw done (finish-again now id status message db o found live ends later status' message'),
    )
