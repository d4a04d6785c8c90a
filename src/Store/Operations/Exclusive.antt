-- ===== src/Store/Operations/Exclusive.antt =====
-- At most one active operation for an app, and one row for an operation id.
use space_elevator.Base.{
  ℕ, ◌≤◌, ◌≡◌, refl, String, Bool, true, false, List, [], ◌∷◌, tally, amend, arith, eq_iff,
  tally-append, tally-amend-le,
}
use space_elevator.Store.Rows.{Operation, Db}
use space_elevator.Store.Operations.{
  is_active, has_id, active_of, active_id, insert_claim, update_active, interrupt_job,
  interrupted_row, interrupt_jobs,
}

pub record IsValid (db : Db) : Type 0 where
  pub one_active : (app_id : String) → tally (active_of app_id) db.operations ≤ 1
  pub one_row : (id : String) → tally (has_id id) db.operations ≤ 1

-- An update of one row keeps its app and its id; where the new status is active, the old one was.
pub record IsQuiet (p : Operation → Bool) (f : Operation → Operation) : Type 0 where
  pub id : (o : Operation) → (f o).id ≡ o.id
  pub app : (o : Operation) → (f o).app_id ≡ o.app_id
  pub quiet :
      (o : Operation) → p o ≡ true → is_active (f o).status ≡ true → is_active o.status ≡ true

pub amend-IsValid :
    (p : Operation → Bool) (f : Operation → Operation) (db : Db)
    → IsQuiet p f
    → IsValid db
    → IsValid (record db { operations = amend p f db.operations })
amend-IsValid p f db q v = record {
  one_active = λ a. omega (
    arith,
    v.one_active a,
    tally-amend-le (active_of a) p f (λ o h k. ground (arith, q.app o, q.quiet o)) db.operations,
  );
  one_row = λ i. omega (
    arith,
    v.one_row i,
    tally-amend-le (has_id i) p f (λ o h k. ground (arith, q.id o)) db.operations,
  );
}

active_id-active : (id : String) (o : Operation) → active_id id o ≡ true → is_active o.status ≡ true
active_id-active id o h = ground arith

pub interrupted_row-inactive :
    (now : ℕ) (o : Operation) → is_active (interrupted_row now o).status ≡ false
unfolding interrupted_row is_active
interrupted_row-inactive now o = refl

pub insert_claim-IsValid :
    (row : Operation) (db : Db) → IsValid db → IsValid (insert_claim row db).1
unfolding insert_claim tally
insert_claim-IsValid row db v = record {
  one_active = λ a. ground (
    arith,
    v.one_active a,
    eq_iff row.app_id a,
    tally-append (active_of a) db.operations (row ∷ []),
  );
  one_row = λ i.
      ground
        (arith, v.one_row i, eq_iff row.id i, tally-append (has_id i) db.operations (row ∷ []));
}

module _ (id : String) (f : Operation → Operation) (db : Db) where
  -- What `update_active` changes is active already, so no test on activity is needed of `f`.
  pub update_active-IsValid :
      ((o : Operation) → (f o).id ≡ o.id)
      → ((o : Operation) → (f o).app_id ≡ o.app_id)
      → IsValid db
      → IsValid (update_active id f db)
  unfolding update_active
  update_active-IsValid ids apps =
      amend-IsValid (active_id id) f db
        (record { id = ids; app = apps; quiet = λ o h k. active_id-active id o h })

pub interrupt_jobs-IsValid :
    (now : ℕ) (jobs : List Operation) (db : Db) → IsValid db → IsValid (interrupt_jobs now jobs db)
unfolding interrupt_jobs interrupted_row
interrupt_jobs-IsValid now [] db v = v
interrupt_jobs-IsValid now (job ∷ jobs) db v =
    interrupt_jobs-IsValid now jobs (interrupt_job now job db) (
      let w =
        amend-IsValid (has_id job.id) (interrupted_row now) db
          (record {
            id = λ o. refl;
            app = λ o. refl;
            quiet = λ o h k. cc (interrupted_row-inactive now o);
          })
          v in
      record { one_active = w.one_active; one_row = w.one_row })
