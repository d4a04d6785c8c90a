-- ===== src/Deployer/Deploy/Owner.antt =====
-- deployGit in front of its phases: the row that it makes and the operation that owns the deploy.
use space_elevator.Base.{
  ℕ, ◌≡◌, refl, ap, String, str_eq, true, Option, Option-cases, none, some, inl, inr, ◌⊎◌, [], ◌∷◌,
  Bytes, arith, tally, tally-append, first-append_new, eq_iff, str_eq_refl, Bool-cases, ◌+◌,
}
use space_elevator.Store.Rows.{App, Operation, Db, ok, err, Result, Error}
use space_elevator.Store.Operations.{
  get_operation, is_active, insert_claim, claimed_row, claim_operation, max_attempt, has_id,
  claim_id,
}
use space_elevator.Store.Operations.Ownership.{insert_claim-ok}
use space_elevator.Store.Operations.Exclusive.{IsValid, insert_claim-IsValid}
use space_elevator.Store.Apps.{app_id_is, create_app, new_app_row, update_app, update_row}
use space_elevator.Store.Apps.Rows.{HasRow, update_app-found}
use space_elevator.Deployer.Program.{Answer}
use space_elevator.Deployer.Deploy.State.{Site, Answers}
use space_elevator.Deployer.Deploy.Run.{
  row_made, row_write, store_row, own_operation, app_operation, claim_made,
}
use space_elevator.Deployer.Deploy.Ends.{Runs, Runs-same}

-- Nothing but apps and `app` differs.
abbrev pub SameRest : Site → Site → Type 0
SameRest s s' =
    (s'.db.operations ≡ s.db.operations)
    × (s'.secrets ≡ s.secrets)
    × (s'.events ≡ s.events)
    × (s'.snapshot ≡ s.snapshot)

abbrev pub Rowed : Site → App → Answer × Site → Type 0
Rowed s app (none, s') = SameRest s s' × (s'.app ≡ app) × HasRow app.id s'.db
Rowed s app (some e, s') = SameRest s s'

create_app-row :
    (now : ℕ) (app : App) (db : Db)
    → ((create_app now app db).1.operations ≡ db.operations)
      × ((create_app now app db).0 ≡ ok tt → HasRow app.id (create_app now app db).1)
unfolding create_app new_app_row tally
create_app-row now app db = (
  ground arith,
  λ e. ground (
    arith,
    tally-append (app_id_is app.id) db.apps (new_app_row now app ∷ []),
    str_eq_refl app.id,
  ),
)

update_app-row :
    (now : ℕ) (app : App) (db : Db)
    → ((update_app now app db).1.operations ≡ db.operations)
      × ((update_app now app db).0 ≡ ok tt → HasRow app.id db)
unfolding update_app update_row
update_app-row now app db = (ground arith, λ e. ground arith)

row_write-row :
    (a : Answers) (prev : Option App) (app : App) (db : Db)
    → ((row_write a prev app db).1.operations ≡ db.operations)
      × ((row_write a prev app db).0 ≡ ok tt → HasRow app.id (row_write a prev app db).1)
row_write-row a none app db = create_app-row a.now app db
row_write-row a (some p) app db =
    let (same, there) = update_app-row a.now app db in
    (same, λ e. (update_app-found a.now app db (there e)).1)

row_made-Rowed :
    (a : Answers) (p : String) (app : App) (s : Site) (r : Result (Unit {0}) × Db)
    → (r.1.operations ≡ s.db.operations)
    → (r.0 ≡ ok tt → HasRow app.id r.1)
    → Rowed s app (row_made a p app s r)
row_made-Rowed a p app s (ok u, db) same there = ((same, refl, refl, refl), refl, there refl)
row_made-Rowed a p app s (err x, db) same there = (same, refl, refl, refl)

pub store_row-Rowed :
    (a : Answers) (prev : Option App) (app : App) (s : Site) → Rowed s app (store_row a prev app s)
unfolding store_row
store_row-Rowed a prev app s = elim (Option-cases a.store_row) [
  | inr (e, p) ↦ rw (p, store_row) (refl, refl, refl, refl)
  | inl p ↦
      let (same, there) = row_write-row a prev app s.db in
      rw (p, store_row) (row_made-Rowed a _ app s (row_write a prev app s.db) same there)
]

-- The operation that the caller has claimed, if it has, is in the tables and active.
abbrev pub Claimed : Option Operation → Db → Type 0
Claimed none db = Unit {0}
Claimed (some o) db = Runs o db

-- The operation is the claimed one, or a new one.
abbrev pub IsOwner : Answers → Option Operation → Operation → Type 0
IsOwner a none o = o.id ≡ a.operation_id
IsOwner a (some c) o = o ≡ c

abbrev pub Owning : Answers → Option Operation → Site → (Bytes ⊎ Operation) × Site → Type 0
Owning a claimed s (inl e, s') = SameRest s s'
Owning a claimed s (inr o, s') =
    IsOwner a claimed o
    × (o.app_id ≡ s.app.id)
    × Runs o s'.db
    × IsValid s'.db
    × (s'.db.apps ≡ s.db.apps)
    × (s'.app ≡ s.app)
    × (s'.secrets ≡ s.secrets)
    × (s'.events ≡ s.events)
    × (s'.snapshot ≡ s.snapshot)

preflighting : is_active "preflighting" ≡ true
unfolding is_active
preflighting = refl

-- A claim that succeeds puts its row into the tables.
module _ (now : ℕ) (fresh : String) (op : Operation) (db : Db) where
  abbrev answer : Result Operation
  answer = (claim_operation now fresh op db).0

  abbrev rows : Db
  rows = (claim_operation now fresh op db).1

  claim_operation-refused : {x : Error} → answer ≡ err x → rows ≡ db
  unfolding claim_operation insert_claim
  claim_operation-refused e = ground arith

  new_id :
      (row r : Operation) → (insert_claim row db).0 ≡ ok r → tally (has_id row.id) db.operations ≡ 0
  unfolding insert_claim
  new_id row r e = ground arith

  claim_operation-Runs :
      (o : Operation)
      → answer ≡ ok o
      → IsValid db
      → Runs o rows
        × IsValid rows
        × (rows.apps ≡ db.apps)
        × (o.app_id ≡ op.app_id)
        × (o.id ≡ claim_id fresh op)
  unfolding claim_operation claimed_row get_operation
  claim_operation-Runs o e v =
      let row = claimed_row now fresh (max_attempt op.app_id db.operations + 1) op in
      let (same, stored, free) = insert_claim-ok row o db e in
      let there =
        first-append_new (has_id row.id) db.operations row (new_id row o e) (str_eq_refl row.id) in
      (
        (rw (same, stored, there) refl, rw same preflighting),
        insert_claim-IsValid row db v,
        ap (λ d. d.apps) stored,
        ap (λ x. x.app_id) same,
        ap (λ x. x.id) same,
      )

abbrev ClaimFacts : Answers → Site → Operation → Db → Type 0
ClaimFacts a s o db =
    Runs o db × IsValid db × (db.apps ≡ s.db.apps) × (o.app_id ≡ s.app.id) × (o.id ≡ a.operation_id)

own_claim :
    (a : Answers) (s : Site) (r : Result Operation × Db)
    → ((o : Operation) → r.0 ≡ ok o → ClaimFacts a s o r.1)
    → ((x : Error) → r.0 ≡ err x → r.1 ≡ s.db)
    → Owning a none s (claim_made a s r)
own_claim a s (ok o, db) facts refused =
    let (runs, v, apps, app, id) = facts o refl in (id, app, runs, v, apps, refl, refl, refl, refl)
own_claim a s (err x, db) facts refused =
    (ap (λ d. d.operations) (refused x refl), refl, refl, refl)

pub own_operation-Owning :
    (a : Answers) (action : String) (claimed : Option Operation) (s : Site)
    → IsValid s.db
    → Claimed claimed s.db
    → Owning a claimed s (own_operation a action claimed s)
unfolding own_operation
own_operation-Owning a action (some o) s v c = elim (Bool-cases (str_eq o.app_id s.app.id)) [
  | inl e ↦ rw e (refl, (eq_iff o.app_id s.app.id).0 e, c, v, refl, refl, refl, refl, refl)
  | inr e ↦ rw e (refl, refl, refl, refl)
]
own_operation-Owning a action none s v c = elim (Option-cases a.claim) [
  | inr (e, p) ↦ rw (p, own_operation) (refl, refl, refl, refl)
  | inl p ↦
      rw (p, own_operation)
        (own_claim a s _
          (λ o e.
            claim_operation-Runs a.now a.operation_id (app_operation s.app.id action) s.db o e v)
          (λ x e.
            claim_operation-refused a.now a.operation_id (app_operation s.app.id action) s.db
              {x = x} e))
]

pub Claimed-same :
    (claimed : Option Operation) (db db' : Db)
    → db'.operations ≡ db.operations
    → Claimed claimed db
    → Claimed claimed db'
Claimed-same none db db' e c = c
Claimed-same (some o) db db' e c = Runs-same o db db' e c
