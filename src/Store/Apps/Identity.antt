-- ===== src/Store/Apps/Identity.antt =====
-- The slug of an app, from which containers, images and routes take their names, never changes.
use space_elevator.Base.{
  first-amend, first-append, ◌≢◌, ◌⊎◌, ℕ, ◌≡◌, refl, ◌∙◌, String, Option, none, some, List, [], ◌∷◌,
  ◌++◌, if◌then◌else◌, first, sift, str_eq, Bytes, arith, eq_iff, inl, inr,
}
use space_elevator.Store.Rows.{App, Operation, Db, ok, err}
use space_elevator.Store.Operations.{
  any_active, interrupted_app, interrupt_job, interrupt_jobs, interrupt_active_operations,
}
use space_elevator.Store.Env.{Env, update_app_env}
use space_elevator.Store.Apps.{
  app_id_is, create_app, new_app_row, update_row, update_app_name, update_app_status,
  update_app_status_err, clear_app_error, stored_app, update_app, scan_app, set_current_release,
  clear_current_release, get_app,
}

-- Every write of internal/store to apps but DeleteApp.
pub data Write : Type 0 where
  create : ℕ → App → Write
  rename : ℕ → String → String → Write
  set_status : ℕ → String → String → Write
  set_status_err : ℕ → String → String → Bytes → Write
  clear_error : String → Write
  store : ℕ → App → Write
  set_env : ℕ → String → Env → Write
  -- with the app that owns the release, if there is such a release
  set_current : ℕ → String → String → Option String → Write
  clear_current : ℕ → String → Write
  interrupt : ℕ → Write

unfoldable pub write : Write → Db → Db
write (create now a) db = (create_app now a db).1
write (rename now id name) db = (update_app_name now id name db).1
write (set_status now id status) db = (update_app_status now id status db).1
write (set_status_err now id status e) db = (update_app_status_err now id status e db).1
write (clear_error id) db = (clear_app_error id db).1
write (store now a) db = (update_app now a db).1
write (set_env now id env) db = (update_app_env now id env db).1
write (set_current now id release owner) db = (set_current_release now id release owner db).1
write (clear_current now id) db = (clear_current_release now id db).1
write (interrupt now) db = interrupt_active_operations now db

unfoldable pub write_all : List Write → Db → Db
unfolding write
write_all [] db = db
write_all (w ∷ ws) db = write_all ws (write w db)

-- The slug that is read for an id.
abbrev pub slug_of : String → Db → Option String
slug_of id db = elim (get_app id db) [ ok a ↦ some a.slug | err e ↦ none ]

-- The columns that hold the identity of an app.
abbrev SameIdentity : App → App → Type 0
SameIdentity a b = (a.id ≡ b.id) × (a.slug ≡ b.slug)

abbrev row_of : String → Db → Option App
row_of id db = first (app_id_is id) db.apps

-- The guarded writes leave the tables alone or do what they are for.
create_app-db :
    (now : ℕ) (b : App) (db : Db)
    → ((create_app now b db).1 ≡ db)
      ⊎ ((create_app now b db).1 ≡ record db { apps = db.apps ++ new_app_row now b ∷ [] })
unfolding create_app
create_app-db now b db = ground arith

update_app_name-db :
    (now : ℕ) (id name : String) (db : Db)
    → ((update_app_name now id name db).1 ≡ db)
      ⊎ ((update_app_name now id name db).1
          ≡ (update_row id (λ a. record a { name = name; updated_at = now }) db).1)
unfolding update_app_name
update_app_name-db now id name db = ground arith

update_app-db :
    (now : ℕ) (b : App) (db : Db)
    → ((update_app now b db).1 ≡ db)
      ⊎ ((update_app now b db).1 ≡ (update_row b.id (stored_app now b) db).1)
unfolding update_app
update_app-db now b db = ground arith

update_app_env-db :
    (now : ℕ) (id : String) (env : Env) (db : Db)
    → ((update_app_env now id env db).1 ≡ db)
      ⊎ ((update_app_env now id env db).1
          ≡ (update_row id (λ a. record a { env = env; updated_at = now }) db).1)
unfolding update_app_env
update_app_env-db now id env db = ground arith

set_current_release-db :
    (now : ℕ) (id release : String) (owner : Option String) (db : Db)
    → ((set_current_release now id release owner db).1 ≡ db)
      ⊎ ((set_current_release now id release owner db).1
          ≡ (update_row id
              (λ a. record a { current_release_id = some release; updated_at = now })
              db).1)
unfolding set_current_release
set_current_release-db now id release none db = inl refl
set_current_release-db now id release (some owner) db = ground arith

-- The row of `id` is there, with the id and the slug of `a`.
abbrev Kept : String → App → Db → Type 0
Kept id a db = (b : App) × (row_of id db ≡ some b) × (b.id ≡ a.id) × (b.slug ≡ a.slug)

module _ (id : String) (db : Db) (a : App) (h : row_of id db ≡ some a) where
  update_row-Kept :
      (i : String) (f : App → App)
      → ((x : App) → (f x).id ≡ x.id)
      → ((x : App) → (f x).slug ≡ x.slug)
      → Kept id a (update_row i f db).1
  unfolding update_row
  update_row-Kept i f ids slugs = (
    if app_id_is i a then f a else a,
    first-amend (app_id_is id) (app_id_is i) f (λ x. rw (ids x)) db.apps a h,
    ground (arith, ids a),
    ground (arith, slugs a),
  )

  either-Kept : {x y z : Db} → (x ≡ y) ⊎ (x ≡ z) → Kept id a y → Kept id a z → Kept id a x
  either-Kept (inl e) k l = rw e k
  either-Kept (inr e) k l = rw e l

  same : Kept id a db
  same = (a, h, refl, refl)

  interrupt_jobs-Kept :
      (now : ℕ) (jobs : List Operation) (db₀ : Db)
      → Kept id a db₀
      → Kept id a (interrupt_jobs now jobs db₀)
  unfolding interrupt_jobs interrupted_app
  interrupt_jobs-Kept now [] db₀ k = k
  interrupt_jobs-Kept now (j ∷ jobs) db₀ (b, found, i, s) =
      interrupt_jobs-Kept now jobs (interrupt_job now j db₀) (
        if str_eq b.id j.app_id then interrupted_app now b else b,
        first-amend (app_id_is id) (λ (x : App). str_eq x.id j.app_id) (interrupted_app now)
            (λ x. refl) db₀.apps b found,
        ground (arith, i),
        ground (arith, s),
      )

  write-Kept : (w : Write) → Kept id a (write w db)
  unfolding write update_app_status update_app_status_err clear_app_error clear_current_release
      interrupt_active_operations
  write-Kept (create now b) =
      either-Kept (create_app-db now b db) same
        (a, first-append (app_id_is id) db.apps (new_app_row now b ∷ []) a h, refl, refl)
  write-Kept (rename now i name) =
      either-Kept (update_app_name-db now i name db) same
        (update_row-Kept i _ (λ x. refl) (λ x. refl))
  write-Kept (set_status now i status) = update_row-Kept i _ (λ x. refl) (λ x. refl)
  write-Kept (set_status_err now i status e) = update_row-Kept i _ (λ x. refl) (λ x. refl)
  write-Kept (clear_error i) = update_row-Kept i _ (λ x. refl) (λ x. refl)
  write-Kept (store now b) =
      either-Kept (update_app-db now b db) same
        (unfold stored_app in update_row-Kept b.id _ (λ x. refl) (λ x. refl))
  write-Kept (set_env now i env) =
      either-Kept (update_app_env-db now i env db) same
        (update_row-Kept i _ (λ x. refl) (λ x. refl))
  write-Kept (set_current now i release owner) =
      either-Kept (set_current_release-db now i release owner db) same
        (update_row-Kept i _ (λ x. refl) (λ x. refl))
  write-Kept (clear_current now i) = update_row-Kept i _ (λ x. refl) (λ x. refl)
  write-Kept (interrupt now) = interrupt_jobs-Kept now (sift any_active db.operations) db same

write_all-Kept :
    (id : String) (ws : List Write) (db : Db) (a : App)
    → row_of id db ≡ some a
    → Kept id a (write_all ws db)
unfolding write_all
write_all-Kept id [] db a h = (a, h, refl, refl)
write_all-Kept id (w ∷ ws) db a h =
    let (b, found, i, s) = write-Kept id db a h w in
    let (c, found', i', s') = write_all-Kept id ws (write w db) b found in
    (c, found', i' ∙ i, s' ∙ s)

-- Whatever the store writes to apps, short of a deletion, an app whose row has a slug is read back
-- with that slug: a rename, a new status, environment, release or source, and a restart leave the
-- runtime identity alone.
pub write_all-slug :
    (id : String) (ws : List Write) (db : Db) (a : App)
    → first (app_id_is id) db.apps ≡ some a
    → a.slug ≢ ""
    → (b : App) × (get_app id (write_all ws db) ≡ ok b) × (b.id ≡ a.id) × (b.slug ≡ a.slug)
unfolding get_app scan_app
write_all-slug id ws db a h full =
    let (b, found, i, s) = write_all-Kept id ws db a h in
    (scan_app b, ground (arith, found), i, ground (arith, s, eq_iff b.slug "", eq_iff a.slug ""))
