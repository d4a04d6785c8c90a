-- ===== src/Store/Operations/Terminal.antt =====
-- A finished operation stays as it is.
use space_elevator.Base.{
  first-amend, first-append, ℕ, ◌≡◌, ◌≢◌, refl, String, Bool, true, false, some, List, [], ◌∷◌,
  arith, eq_iff, tally, first, sift, amend, All, All-sift, Bool-cases, inl, inr, All-of_tally, ◌≤◌,
}
use space_elevator.Store.Rows.{Operation, Db, ok}
use space_elevator.Store.Operations.{
  is_active, any_active, has_id, active_id, insert_claim, claimed_row, update_active, finished,
  advanced, stepped, set_operation_status, set_operation_step, heartbeat_operation, interrupt_job,
  interrupted_row, interrupt_jobs, interrupt_active_operations, get_operation,
}
use space_elevator.Store.Apps.{delete_app}
use space_elevator.Store.Operations.Exclusive.{IsValid}
use space_elevator.Store.Operations.Commands.{
  Command, claim, finish, set_status, set_step, heartbeat, interrupt, delete, kept_by, execute, run,
  finish-update, execute-IsValid,
}

abbrev Found : String → Operation → Db → Type 0
Found id o db = first (has_id id) db.operations ≡ some o

-- A row that an update does not hit is found as it is.
found-amend :
    (id : String) (p : Operation → Bool) (f : Operation → Operation)
    → ((x : Operation) → (f x).id ≡ x.id)
    → (xs : List Operation) (o : Operation) → p o ≡ false
    → first (has_id id) xs ≡ some o
    → first (has_id id) (amend p f xs) ≡ some o
found-amend id p f ids xs o out h = rw out at (first-amend (has_id id) p f (λ x. rw (ids x)) xs o h)

first-has_id :
    (id : String) (xs : List Operation) (o : Operation) → first (has_id id) xs ≡ some o → o.id ≡ id
unfolding first
first-has_id id [] o h = cc
first-has_id id (x ∷ xs) o h = ground (arith, first-has_id id xs o, eq_iff x.id id)

-- No job of the restart has the id of a finished operation.
jobs_of_others :
    (id : String) (xs : List Operation) (o : Operation)
    → tally (has_id id) xs ≤ 1
    → first (has_id id) xs ≡ some o
    → any_active o ≡ false
    → All (λ j. has_id id j ≡ false) (sift any_active xs)
unfolding first tally sift
jobs_of_others id [] o u h out = tt
jobs_of_others id (x ∷ xs) o u h out = elim (Bool-cases (has_id id x)) [
  | inl e ↦
      let gone : any_active x ≡ false = ground arith in
      rw gone (
        All-sift (λ j. has_id id j ≡ false) any_active xs
          (All-of_tally (has_id id) xs (ground arith)))
  | inr e ↦
      let rest = jobs_of_others id xs o (ground arith) (ground arith) out in
      elim (Bool-cases (any_active x)) [ inl a ↦ rw a (e, rest) | inr a ↦ rw a rest ]
]

interrupt_jobs-Found :
    (now : ℕ) (id : String) (o : Operation) (jobs : List Operation) (db : Db)
    → o.id ≡ id
    → All (λ j. has_id id j ≡ false) jobs
    → Found id o db
    → Found id o (interrupt_jobs now jobs db)
unfolding interrupt_jobs interrupted_row
interrupt_jobs-Found now id o [] db own others h = h
interrupt_jobs-Found now id o (j ∷ jobs) db own others h =
    interrupt_jobs-Found now id o jobs (interrupt_job now j db) own others.1 (
      found-amend id (has_id j.id) (interrupted_row now) (λ x. refl) db.operations o
        (ground (arith, eq_iff o.id j.id, eq_iff j.id id)) h)

-- The command does not delete the app.
abbrev pub Spares : String → Command → Type 0
Spares app_id (delete id) = app_id ≢ id
Spares app_id _ = Unit

first-sift :
    (id : String) (o : Operation) (p : Operation → Bool) (xs : List Operation)
    → p o ≡ true
    → first (has_id id) xs ≡ some o
    → first (has_id id) (sift p xs) ≡ some o
unfolding first sift
first-sift id o p [] k h = cc
first-sift id o p (x ∷ xs) k h = elim (Bool-cases (has_id id x)) [
  | inl e ↦ ground arith
  | inr e ↦ ground (arith, first-sift id o p xs)
]

module _ (id : String) (o : Operation) (out : any_active o ≡ false) where
  update_active-Found :
      (i : String) (f : Operation → Operation) (db : Db)
      → ((x : Operation) → (f x).id ≡ x.id)
      → Found id o db
      → Found id o (update_active i f db)
  unfolding update_active
  update_active-Found i f db ids h =
      found-amend id (active_id i) f ids db.operations o (ground arith) h

  insert_claim-Found :
      (row : Operation) (db : Db) → Found id o db → Found id o (insert_claim row db).1
  unfolding insert_claim
  insert_claim-Found row db h = ground (arith, first-append (has_id id) db.operations (row ∷ []) o)

  execute-Found :
      (c : Command) (db : Db)
      → Spares o.app_id c
      → IsValid db
      → Found id o db
      → Found id o (execute c db)
  unfolding execute set_operation_status set_operation_step heartbeat_operation finished advanced
      stepped interrupt_active_operations delete_app
  execute-Found (claim now fresh attempt op) db spared v h =
      insert_claim-Found (claimed_row now fresh attempt op) db h
  execute-Found (finish now i status message) db spared v h =
      rw finish-update (update_active-Found i _ db (λ x. refl) h)
  execute-Found (set_status now i status) db spared v h = update_active-Found i _ db (λ x. refl) h
  execute-Found (set_step now i step) db spared v h = update_active-Found i _ db (λ x. refl) h
  execute-Found (heartbeat now i) db spared v h = update_active-Found i _ db (λ x. refl) h
  execute-Found (interrupt now) db spared v h =
      interrupt_jobs-Found now id o (sift any_active db.operations) db
        (first-has_id id db.operations o h) (jobs_of_others id db.operations o (v.one_row id) h out)
        h
  execute-Found (delete i) db spared v h =
      first-sift id o (kept_by i) db.operations (ground (arith, spared, eq_iff o.app_id i)) h

  run-Found :
      (cs : List Command) (db : Db)
      → All (Spares o.app_id) cs
      → IsValid db
      → Found id o db
      → Found id o (run cs db)
  unfolding run
  run-Found [] db s v h = h
  run-Found (c ∷ cs) db s v h =
      run-Found cs (execute c db) s.1 (execute-IsValid c db v) (execute-Found c db s.0 v h)

-- An operation whose status is not active is read back unchanged, field for field, after any writes
-- to the table but the deletion of its own app: late status changes, steps, heartbeats, a second
-- finish, new claims, restarts and deletions of other apps.
pub run-terminal :
    (cs : List Command) (db : Db) (id : String) (o : Operation)
    → IsValid db
    → get_operation id db ≡ ok o
    → is_active o.status ≡ false
    → All (Spares o.app_id) cs
    → get_operation id (run cs db) ≡ ok o
unfolding get_operation
run-terminal cs db id o v h out s = ground (arith, run-Found id o out cs db s v)
