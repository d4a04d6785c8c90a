-- ===== src/Store/Operations/Restart.antt =====
-- InterruptActiveOperations: the tables after a restart of the service, row by row.
use mathlib.Core.List.{append_assoc}
use space_elevator.Base.{
  ℕ, ◌≤◌, ◌≡◌, refl, sym, ◌∙◌, String, Bool, false, ◌&&◌, List, [], ◌∷◌, ◌++◌, arith, eq_iff, tally,
  sift, amend, map, All, All-map, str_eq, ltb, tally-append, str_eq_refl, if◌then◌else◌, bytes,
  some,
}
use space_elevator.Store.Rows.{App, Operation, Db}
use space_elevator.Store.Operations.{
  any_active, has_id, active_of, interrupted_row, interrupted_app, interrupt_job, interrupt_jobs,
  interrupt_active_operations, has_any_active_operation,
}
use space_elevator.Store.Operations.Exclusive.{IsValid, interrupted_row-inactive}

-- A loop that updates the rows that each job hits, for an update that hits the same rows again and
-- does nothing more to them: each row is updated if some job hits it.
module _ {A : Type 0} (hit : A → Operation → Bool) (f : A → A) where
  abbrev marked : List Operation → A → A
  marked jobs a = if ltb 0 (tally (hit a) jobs) then f a else a

  map-marked_none : (xs : List A) → map (marked []) xs ≡ xs
  unfolding tally
  map-marked_none [] = refl
  map-marked_none (x ∷ xs) = rw (map-marked_none xs)

  module _ (same : (a : A) (j : Operation) → hit (f a) j ≡ hit a j)
      (idem : (a : A) → f (f a) ≡ f a) where
    marked-step :
        (j : Operation) (jobs : List Operation) (a : A)
        → marked jobs (if hit a j then f a else a) ≡ marked (j ∷ jobs) a
    unfolding tally
    marked-step j jobs a = ground (arith, idem a)

    map-marked-amend :
        (j : Operation) (jobs : List Operation) (xs : List A)
        → map (marked jobs) (amend (λ a. hit a j) f xs) ≡ map (marked (j ∷ jobs)) xs
    unfolding amend
    map-marked-amend j jobs [] = refl
    map-marked-amend j jobs (x ∷ xs) = cc (marked-step j jobs x, map-marked-amend j jobs xs)

abbrev owned_by : App → Operation → Bool
owned_by a j = str_eq a.id j.app_id

abbrev same_id : Operation → Operation → Bool
same_id o j = str_eq o.id j.id

interrupt_jobs-rows :
    (now : ℕ) (jobs : List Operation) (db : Db)
    → (interrupt_jobs now jobs db).operations
      ≡ map (marked same_id (interrupted_row now) jobs) db.operations
unfolding interrupt_jobs interrupted_row
interrupt_jobs-rows now [] db = sym (map-marked_none same_id (interrupted_row now) db.operations)
interrupt_jobs-rows now (j ∷ jobs) db =
    interrupt_jobs-rows now jobs (interrupt_job now j db)
    ∙ map-marked-amend same_id (interrupted_row now) (λ o i. refl) (λ o. refl) j jobs db.operations

interrupt_jobs-apps :
    (now : ℕ) (jobs : List Operation) (db : Db)
    → (interrupt_jobs now jobs db).apps ≡ map (marked owned_by (interrupted_app now) jobs) db.apps
unfolding interrupt_jobs interrupted_app
interrupt_jobs-apps now [] db = sym (map-marked_none owned_by (interrupted_app now) db.apps)
interrupt_jobs-apps now (j ∷ jobs) db =
    interrupt_jobs-apps now jobs (interrupt_job now j db)
    ∙ map-marked-amend owned_by (interrupted_app now) (λ o i. refl) (λ o. refl) j jobs db.apps

tally_flip :
    (id : String) (xs : List Operation) → tally (λ o. str_eq id o.id) xs ≡ tally (has_id id) xs
unfolding tally
tally_flip id [] = refl
tally_flip id (x ∷ xs) = ground (arith, tally_flip id xs, eq_iff id x.id, eq_iff x.id id)

tally-and-le :
    (p q : Operation → Bool) (xs : List Operation) → tally (λ x. p x && q x) xs ≤ tally q xs
unfolding tally
tally-and-le p q [] = omega arith
tally-and-le p q (x ∷ xs) = ground (arith, tally-and-le p q xs)

pub tally-sift :
    (p q : Operation → Bool) (xs : List Operation)
    → tally q (sift p xs) ≡ tally (λ x. p x && q x) xs
unfolding tally sift
tally-sift p q [] = refl
tally-sift p q (x ∷ xs) = ground (arith, tally-sift p q xs)

-- Where ids are unique, a row's id is among those of the active rows when the row is active.
active_by_id :
    (pre xs : List Operation)
    → ((i : String) → tally (has_id i) (pre ++ xs) ≤ 1)
    → All (λ o. ltb 0 (tally (λ x. any_active x && same_id o x) (pre ++ xs)) ≡ any_active o) xs
unfolding tally
active_by_id pre [] u = tt
active_by_id pre (x ∷ xs) u = (
  ground (
    arith,
    u x.id,
    str_eq_refl x.id,
    tally-append (λ y. any_active y && same_id x y) pre (x ∷ xs),
    tally-append (has_id x.id) pre (x ∷ xs),
    tally-and-le any_active (same_id x) pre,
    tally-and-le any_active (same_id x) xs,
    tally_flip x.id pre,
    tally_flip x.id xs,
  ),
  rw (append_assoc pre (x ∷ []) xs) at
      (active_by_id (pre ++ x ∷ []) xs (λ i. rw (append_assoc pre (x ∷ []) xs) (u i))),
)

map_eq {ℓ κ} :
    {A : Type ℓ} {B : Type κ} (f g : A → B) (xs : List A)
    → All (λ x. f x ≡ g x) xs
    → map f xs ≡ map g xs
map_eq f g [] h = refl
map_eq f g (x ∷ xs) h = cc (h.0, map_eq f g xs h.1)

tally-owned :
    (a : App) (xs : List Operation)
    → tally (λ x. any_active x && owned_by a x) xs ≡ tally (active_of a.id) xs
unfolding tally
tally-owned a [] = refl
tally-owned a (x ∷ xs) =
    ground (arith, tally-owned a xs, eq_iff a.id x.app_id, eq_iff x.app_id a.id)

tally-interrupted :
    (now : ℕ) (xs : List Operation)
    → tally any_active (map (λ o. if any_active o then interrupted_row now o else o) xs) ≡ 0
unfolding tally
tally-interrupted now [] = refl
tally-interrupted now (x ∷ xs) =
    ground (arith, tally-interrupted now xs, interrupted_row-inactive now x)

All-apps : (P : App → Type 0) → ((a : App) → P a) → (xs : List App) → All P xs
All-apps P h [] = tt
All-apps P h (x ∷ xs) = (h x, All-apps P h xs)

pub interrupt_active_operations-rows :
    (now : ℕ) (db : Db)
    → IsValid db
    → let db' = interrupt_active_operations now db in
      (db'.operations ≡ map (λ o. if any_active o then interrupted_row now o else o) db.operations)
      × (db'.apps
          ≡ map
              (λ (a : App).
                if ltb 0 (tally (active_of a.id) db.operations) then interrupted_app now a else a)
              db.apps)
      × (has_any_active_operation db' ≡ false)
unfolding interrupt_active_operations has_any_active_operation
interrupt_active_operations-rows now db v =
    let jobs = sift any_active db.operations in
    let rows : (interrupt_jobs now jobs db).operations
        ≡ map (λ o. if any_active o then interrupted_row now o else o) db.operations =
      interrupt_jobs-rows now jobs db
      ∙ map_eq _ _ db.operations (
          All-map (λ o h. ground (arith, h, tally-sift any_active (same_id o) db.operations))
            db.operations (active_by_id [] db.operations v.one_row)) in
    (
      rows,
      interrupt_jobs-apps now jobs db
          ∙ map_eq _ _ db.apps (
              All-apps _
                (λ a. ground (
                  arith,
                  tally-sift any_active (owned_by a) db.operations,
                  tally-owned a db.operations,
                ))
                db.apps),
      rw (rows, tally-interrupted now db.operations),
    )

-- After a restart every operation that was active is "interrupted", with the reason and the time, and
-- every other operation is as it was; every app that owned an active operation is in "error" with
-- the reason and the time, and every other app is as it was, and so are all other columns; and no
-- operation is active, so no app is owned.
pub interrupt_active_operations-lem :
    (now : ℕ) (db : Db)
    → IsValid db
    → let db' = interrupt_active_operations now db in
      let reason = bytes "deployment interrupted by service restart" in
      (db'.operations
        ≡ map
            (λ (o : Operation).
              if any_active o
              then record o { status = "interrupted"; error = reason; completed_at = some now }
              else o)
            db.operations)
      × (db'.apps
          ≡ map
              (λ (a : App).
                if ltb 0 (tally (active_of a.id) db.operations)
                then record a { status = "error"; last_error = reason; updated_at = now }
                else a)
              db.apps)
      × (has_any_active_operation db' ≡ false)
unfolding interrupted_row interrupted_app
interrupt_active_operations-lem now db v = interrupt_active_operations-rows now db v
