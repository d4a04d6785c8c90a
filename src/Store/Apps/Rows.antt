-- ===== src/Store/Apps/Rows.antt =====
-- What the writes to apps do to the row of an id, and that they leave the operations alone.
use space_elevator.Base.{
  ℕ, ◌<◌, ◌≡◌, refl, String, some, Bytes, arith, tally, first, first-amend, tally-amend,
  tally_of_first, first_of_tally, Bool-cases, inl, inr,
}
use space_elevator.Store.Rows.{App, Db, ok}
use space_elevator.Store.Operations.{bounded_error}
use space_elevator.Store.Apps.{
  app_id_is, valid_env, update_row, update_app, stored_app, update_app_status_err, with_status_err,
}

abbrev pub HasRow : String → Db → Type 0
HasRow id db = 0 < tally (app_id_is id) db.apps

-- The row of the id is there and has a property.
abbrev pub RowIs : String → (App → Type 0) → Db → Type 0
RowIs id P db = (b : App) × (first (app_id_is id) db.apps ≡ some b) × P b

pub RowIs-of_HasRow : (id : String) (db : Db) → HasRow id db → RowIs id (λ b. Unit {0}) db
RowIs-of_HasRow id db h = let (b, found) = first_of_tally (app_id_is id) db.apps h in (b, found, tt)

pub HasRow-of_RowIs : {P : App → Type 0} (id : String) (db : Db) → RowIs id P db → HasRow id db
HasRow-of_RowIs id db (b, found, p) = (tally_of_first (app_id_is id) db.apps b found).0

module _ (id : String) (f : App → App) (ids : (x : App) → (f x).id ≡ x.id) (db : Db) where
  pub update_row-found :
      HasRow id db
      → ((update_row id f db).0 ≡ ok tt)
        × ((update_row id f db).1.operations ≡ db.operations)
        × HasRow id (update_row id f db).1
  unfolding update_row
  update_row-found h = (
    ground arith,
    refl,
    rw (tally-amend (app_id_is id) (app_id_is id) f (λ x p. rw (ids x)) db.apps) h,
  )

  pub update_row-RowIs :
      {P Q : App → Type 0}
      → ((b : App) → P b → Q (f b))
      → RowIs id P db
      → RowIs id Q (update_row id f db).1
  unfolding update_row
  update_row-RowIs {P} {Q} go (b, found, p) =
      let own = (tally_of_first (app_id_is id) db.apps b found).1 in
      let at = first-amend (app_id_is id) (app_id_is id) f (λ x. rw (ids x)) db.apps b found in
      (f b, rw own at at, go b p)

-- UpdateAppStatusErr on a row that is there.
module _ (now : ℕ) (id status : String) (text : Bytes) (db : Db) where
  abbrev after_status : Db
  after_status = (update_app_status_err now id status text db).1

  abbrev pub SaysStatus : App → Type 0
  SaysStatus b = (b.status ≡ status) × (b.last_error ≡ bounded_error text)

  pub update_app_status_err-found :
      HasRow id db
      → ((update_app_status_err now id status text db).0 ≡ ok tt)
        × (after_status.operations ≡ db.operations)
        × HasRow id after_status
  unfolding update_app_status_err with_status_err
  update_app_status_err-found h = update_row-found id _ (λ x. refl) db h

  pub update_app_status_err-RowIs :
      {P Q : App → Type 0}
      → ((b : App) → P b → Q (with_status_err now status text b))
      → RowIs id P db
      → RowIs id Q after_status
  unfolding update_app_status_err with_status_err
  update_app_status_err-RowIs {P} {Q} go r =
      update_row-RowIs id (with_status_err now status text) (λ x. refl) db {P = P} {Q = Q} go r

-- UpdateApp on a row that is there: it writes the columns, or refuses the environment.
module _ (now : ℕ) (a : App) (db : Db) where
  pub update_app-found :
      HasRow a.id db
      → ((update_app now a db).1.operations ≡ db.operations) × HasRow a.id (update_app now a db).1
  unfolding update_app
  update_app-found h =
      let (answer, same, there) = update_row-found a.id (stored_app now a) (λ x. refl) db h in
      unfold stored_app in (ground arith, ground arith)

  pub update_app-RowIs :
      {Q : App → Type 0}
      → ((b : App) → Q (stored_app now a b))
      → HasRow a.id db
      → (update_app now a db).0 ≡ ok tt
      → RowIs a.id Q (update_app now a db).1
  unfolding update_app
  update_app-RowIs {Q} all h e = elim (Bool-cases (valid_env a.env)) [
    | inl good ↦ rw good (
        unfold stored_app in
        update_row-RowIs a.id (stored_app now a) (λ x. refl) db {P = λ b. Unit {0}} {Q = Q}
          (λ b p. all b) (RowIs-of_HasRow a.id db h))
    | inr bad ↦ absurd (cc (rw (bad, update_app) at e))
  ]
