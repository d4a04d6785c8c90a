-- ===== src/Store/Operations/Ownership.antt =====
-- Who owns an app: what a claim answers on every branch, and what releases the app again.
use space_elevator.Base.{
  ℕ, suc, ◌+◌, ◌≤◌, ◌<◌, ◌≡◌, refl, String, Bool, true, false, List, [], ◌∷◌, ◌++◌, arith, eq_iff,
  tally, sift, All, All-map, str_eq, ◌↔◌, length, ltb, tally-append, str_eq_refl,
}
use space_elevator.Store.Rows.{App, Operation, Db, ok, err, Error, conflict}
use space_elevator.Store.Operations.{
  is_active, has_id, active_of, insert_claim, claimed_row, claim_id, claim_operation, insert_newest,
  newest_first, newest_after, active_operation, has_active_operation, max_attempt,
}

length-insert_newest :
    (o : Operation) (xs : List Operation) → length (insert_newest o xs) ≡ suc (length xs)
unfolding insert_newest
length-insert_newest o [] = refl
length-insert_newest o (x ∷ xs) = ground (arith, length-insert_newest o xs)

length-newest_after :
    (done os : List Operation) → length (newest_after done os) ≡ length done + length os
unfolding newest_after
length-newest_after done [] = omega arith
length-newest_after done (o ∷ os) =
    omega (arith, length-newest_after (insert_newest o done) os, length-insert_newest o done)

length-sift : (q : Operation → Bool) (xs : List Operation) → length (sift q xs) ≡ tally q xs
unfolding sift tally
length-sift q [] = refl
length-sift q (x ∷ xs) = ground (arith, length-sift q xs)

-- HasActiveOperation says whether a row of the app is active.
pub has_active_operation-tally :
    (app_id : String) (db : Db)
    → has_active_operation app_id db ≡ ltb 0 (tally (active_of app_id) db.operations)
unfolding has_active_operation newest_first
has_active_operation-tally app_id db = ground (
  arith,
  length-newest_after [] (sift (active_of app_id) db.operations),
  length-sift (active_of app_id) db.operations,
)

abbrev pub app_rows : String → Db → ℕ
app_rows app_id db = tally (λ (a : App). str_eq a.id app_id) db.apps

-- ClaimOperation succeeds exactly when the app exists, has no active operation, and no row has the
-- id of the new operation; every failure leaves the tables as they were.
pub claim_operation_iff :
    (now : ℕ) (fresh : String) (op : Operation) (db : Db)
    → (((row : Operation) × ((claim_operation now fresh op db).0 ≡ ok row)) ↔ (
        (0 < app_rows op.app_id db)
        × (has_active_operation op.app_id db ≡ false)
        × (tally (has_id (claim_id fresh op)) db.operations ≡ 0)))
      × ((e : Error)
          → (claim_operation now fresh op db).0 ≡ err e
          → (claim_operation now fresh op db).1 ≡ db)
unfolding claim_operation
claim_operation_iff now fresh op db = (
  (
    λ r. ground (arith, has_active_operation-tally op.app_id db),
    λ h. (
      claimed_row now fresh (max_attempt op.app_id db.operations + 1) op,
      ground (arith, has_active_operation-tally op.app_id db),
    ),
  ),
  λ e h. ground arith,
)

max_attempt-bound :
    (app_id : String) (xs : List Operation)
    → All (λ o. o.app_id ≡ app_id → o.attempt ≤ max_attempt app_id xs) xs
unfolding max_attempt
max_attempt-bound app_id [] = tt
max_attempt-bound app_id (x ∷ xs) = (
  λ e. ground (arith, eq_iff x.app_id app_id),
  All-map (λ o h e. ground (arith, h e)) xs (max_attempt-bound app_id xs),
)

newest_of_one :
    (q : Operation → Bool) (xs : List Operation) (o : Operation)
    → tally q xs ≡ 0
    → q o ≡ true
    → newest_first (sift q (xs ++ o ∷ [])) ≡ o ∷ []
unfolding newest_first newest_after insert_newest sift tally
newest_of_one q [] o z h = ground arith
newest_of_one q (x ∷ xs) o z h = ground (arith, newest_of_one q xs o)

abbrev pub with_row : Db → Operation → Db
with_row db row = record db { operations = db.operations ++ row ∷ [] }

pub insert_claim-ok :
    (row r : Operation) (db : Db)
    → (insert_claim row db).0 ≡ ok r
    → (r ≡ row)
      × ((insert_claim row db).1 ≡ with_row db row)
      × (tally (active_of row.app_id) db.operations ≡ 0)
unfolding insert_claim
insert_claim-ok row r db h = (ground arith, ground arith, ground arith)

insert_claim-busy :
    (row : Operation) (db : Db)
    → 0 < tally (active_of row.app_id) db.operations
    → insert_claim row db ≡ (err conflict, db)
unfolding insert_claim
insert_claim-busy row db h = ground arith

module _ (row : Operation) (db : Db) (live : is_active row.status ≡ true) where
  with_row-busy : 0 < tally (active_of row.app_id) (with_row db row).operations
  unfolding tally
  with_row-busy =
      ground (
        arith,
        tally-append (active_of row.app_id) db.operations (row ∷ []),
        str_eq_refl row.app_id,
      )

  with_row-active :
      tally (active_of row.app_id) db.operations ≡ 0
      → active_operation row.app_id (with_row db row) ≡ ok row
  unfolding active_operation
  with_row-active z = rw (
      newest_of_one (active_of row.app_id) db.operations row z
        (ground (arith, str_eq_refl row.app_id)))

preflighting-active : is_active "preflighting" ≡ true
unfolding is_active
preflighting-active = refl

-- After a claim that succeeds, the new row is the active operation of the app, in the status
-- "preflighting"; its attempt is above that of every earlier operation of the app; and every other
-- claim for the app is refused as a conflict and writes nothing.
pub claim_operation-owns :
    (now : ℕ) (fresh : String) (op : Operation) (db : Db) (row : Operation)
    → (claim_operation now fresh op db).0 ≡ ok row
    → let db' = (claim_operation now fresh op db).1 in
      (active_operation op.app_id db' ≡ ok row)
      × (row.status ≡ "preflighting")
      × All (λ o. o.app_id ≡ op.app_id → o.attempt < row.attempt) db.operations
      × ((later : ℕ) (other : String) (op' : Operation)
          → op'.app_id ≡ op.app_id
          → claim_operation later other op' db' ≡ (err conflict, db'))
unfolding claim_operation claimed_row
claim_operation-owns now fresh op db row h =
    let new = claimed_row now fresh (max_attempt op.app_id db.operations + 1) op in
    let (same, stored, free) = insert_claim-ok new row db h in
    let busy = with_row-busy new db preflighting-active in
    (
      rw (stored, same) (with_row-active new db preflighting-active free),
      rw same,
      All-map (λ o b e. ground (arith, b e)) db.operations
          (max_attempt-bound op.app_id db.operations),
      λ later other op' e. rw stored (insert_claim-busy _ (with_row db new) (rw e busy)),
    )
