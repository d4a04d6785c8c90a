-- ===== src/Deployer/Deploy/Ends.antt =====
-- How a deploy that owns its operation ends: the operation, the row and the secrets behind it.
use space_elevator.Base.{
  ℕ, ◌≡◌, refl, sym, subst, ◌∙◌, String, Bool, true, false, Option, Option-cases, none, some, inl,
  inr, [], ◌∷◌, Bytes, Dict, arith, ◌≤◌, tally,
}
use space_elevator.Store.Rows.{App, Operation, Db, ok}
use space_elevator.Store.Operations.{
  is_active, end_status, finished, finish_operation, get_operation, has_active_operation,
  bounded_error, update_active, active_of, active_id, has_id,
}
use space_elevator.Store.Operations.Exclusive.{IsValid, IsQuiet, amend-IsValid}
use space_elevator.Store.Operations.Release.{finish_operation-releases}
use space_elevator.Store.Apps.{update_app_status_err, with_status_err}
use space_elevator.Store.Apps.Rows.{
  HasRow, RowIs, RowIs-of_HasRow, update_app_status_err-found, update_app_status_err-RowIs,
}
use space_elevator.Deployer.Update.Kept.{Secrets}
use space_elevator.Deployer.Recovery.{redact_all}
use space_elevator.Deployer.Deploy.State.{
  Site, GitRequest, Answers, dropped, events_of, remove, sync_route,
}
use space_elevator.Deployer.Deploy.Run.{
  restore_secrets, fail_deploy, finished_row, conclude, Exit, fail, clean_up,
}
use space_elevator.Deployer.Deploy.Kept.{Owned, up_after}
use space_elevator.Deployer.Deploy.Held.{Left}
use space_elevator.Deployer.Deploy.Live.{Live, Deployed, release_after}
use space_elevator.Deployer.Program.{Answer, Outcome, next, leave}
use space_elevator.Deployer.Program.Rules.{Post}

-- The operation has ended, its app is free, the row of the app has a property, and there is still one
-- row for each operation and one active operation at most for each app.
pub record Ends (now : ℕ) (status : String) (text : Bytes) (o : Operation) (P : App → Type 0)
    (db : Db) : Type 0 where
  pub operation : get_operation o.id db ≡ ok (finished now status text o)
  pub released : has_active_operation o.app_id db ≡ false
  pub row : RowIs o.app_id P db
  pub valid : IsValid db

-- An operation that is in the tables and active.
abbrev pub Runs : Operation → Db → Type 0
Runs o db = (get_operation o.id db ≡ ok o) × (is_active o.status ≡ true)

pub IsValid-same : (db db' : Db) → db'.operations ≡ db.operations → IsValid db → IsValid db'
IsValid-same db db' e v = record {
  one_active = λ a. subst (λ os. tally (active_of a) os ≤ 1) (sym e) (v.one_active a);
  one_row = λ i. subst (λ os. tally (has_id i) os ≤ 1) (sym e) (v.one_row i);
}

pub Runs-same :
    (o : Operation) (db db' : Db) → db'.operations ≡ db.operations → Runs o db → Runs o db'
unfolding get_operation
Runs-same o db db' e (found, live) = (rw e found, live)

finish_operation-apps :
    (now : ℕ) (id status : String) (text : Bytes) (db : Db)
    → (finish_operation now id status text db).1.apps ≡ db.apps
unfolding finish_operation update_active
finish_operation-apps now id status text db = ground arith

finish_operation-IsValid :
    (now : ℕ) (id status : String) (text : Bytes) (db : Db)
    → is_active (end_status status) ≡ false
    → IsValid db
    → IsValid (finish_operation now id status text db).1
unfolding finish_operation update_active finished
finish_operation-IsValid now id status text db ends v =
    let quiet : IsQuiet (active_id id) (finished now status text) = record {
      id = λ o. refl;
      app = λ o. refl;
      quiet = λ o h k. ground arith;
    } in
    IsValid-same _ _ (ground arith)
      (amend-IsValid (active_id id) (finished now status text) db quiet v)

pub finish_operation-Ends :
    (now : ℕ) (status : String) (text : Bytes) (o : Operation) {P : App → Type 0} (db : Db)
    → is_active (end_status status) ≡ false
    → IsValid db
    → Runs o db
    → RowIs o.app_id P db
    → Ends now status text o P (finish_operation now o.id status text db).1
unfolding finished bounded_error
finish_operation-Ends now status text o {P} db ends v (found, live) row =
    let (answer, operation, released, again) =
      finish_operation-releases now o.id status text db o v found live ends in
    record {
      operation = operation;
      released = released;
      row = rw (finish_operation-apps now o.id status text db) row;
      valid = finish_operation-IsValid now o.id status text db ends v;
    }

-- What the row of an app says behind a failure.
abbrev pub SaysError : Bytes → App → Type 0
SaysError text b = (b.status ≡ "error") × (b.last_error ≡ bounded_error text)

restore_secrets-old :
    (a : Answers) (e : Bytes) (old : Dict Bytes) (s : Site)
    → a.restore_secrets ≡ none
    → Secrets old s.snapshot s.secrets
    → ((restore_secrets a e s).1.secrets ≡ old)
      × ((restore_secrets a e s).1.db ≡ s.db)
      × ((restore_secrets a e s).1.app ≡ s.app)
unfolding restore_secrets
restore_secrets-old a e old s r k = elim (Option-cases s.snapshot) [
  | inl n ↦ rw (n, restore_secrets) (subst (λ x. Secrets old x s.secrets) n k, refl, refl)
  | inr (x, n) ↦ rw (n, r, restore_secrets) (subst (λ y. Secrets old y s.secrets) n k, refl, refl)
]

abbrev pub Failed : Answers → Operation → Dict Bytes → Bytes × Site → Type 0
Failed a o old (text, s) = Ends a.now "failed" text o (SaysError text) s.db × (s.secrets ≡ old)

completed-ends : is_active (end_status "completed") ≡ false
unfolding is_active
completed-ends = refl

-- Success, or a failure that is recorded.
abbrev pub Result :
    Answers → Operation → Dict Bytes → Option String → Bool → Option Bytes × Site → Type 0
Result a o old release up (none, s) =
    Ends a.now "completed" [] o (Deployed release) s.db × (up_after up s.events ≡ true)
Result a o old release up (some e, s) = Failed a o old (e, s)

failed-ends : is_active (end_status "failed") ≡ false
unfolding is_active
failed-ends = refl

module _ (a : Answers) (o : Operation) (old : Dict Bytes) (release : Option String) (db : Db)
    (valid : IsValid db) (runs : Runs o db) where
  -- The writes of `fail` behind the secrets.
  ended :
      (text : Bytes) (s : Site)
      → s.db.operations ≡ db.operations
      → HasRow o.app_id s.db
      → let db₁ = (update_app_status_err a.now o.app_id "error" text s.db).1 in
        Ends a.now "failed" text o
          (SaysError text)
          (finish_operation a.now o.id "failed" text db₁).1
  ended text s same row =
      let db₁ = (update_app_status_err a.now o.app_id "error" text s.db).1 in
      let (answer, ops, row') = update_app_status_err-found a.now o.app_id "error" text s.db row in
      let e = ops ∙ same in
      finish_operation-Ends a.now "failed" text o {P = SaysError text} db₁ failed-ends
        (IsValid-same db db₁ e valid) (Runs-same o db db₁ e runs)
        (update_app_status_err-RowIs a.now o.app_id "error" text s.db {P = λ b. Unit {0}}
          {Q = SaysError text} (λ b u. unfold with_status_err in (refl, refl))
          (RowIs-of_HasRow o.app_id s.db row))

  fail_writes :
      (fail_row finish : Answer) (id : String) (text : Bytes) (s : Site)
      → fail_row ≡ none
      → finish ≡ none
      → id ≡ o.app_id
      → s.db.operations ≡ db.operations
      → HasRow o.app_id s.db
      → s.secrets ≡ old
      → let s' = dropped fail_row (update_app_status_err a.now id "error" text) s in
        Failed a o old (text, dropped finish (finished_row a o.id "failed" text) s')
  fail_writes fail_row finish id text s f g i same row secrets =
      rw (f, g, i) (ended text s same row, secrets)

  pub fail_deploy-Failed :
      (req : GitRequest) (e : Bytes) (s : Site)
      → a.finish ≡ none
      → a.fail_row ≡ none
      → a.restore_secrets ≡ none
      → Owned o.app_id db.operations (Secrets old) release s
      → Failed a o old (fail_deploy a req o.id e s)
  unfolding fail_deploy
  fail_deploy-Failed req e s f g r (ops, id, row, k, c) =
      let (secrets, same, app) = restore_secrets-old a e old s r k in
      let s₁ = (restore_secrets a e s).1 in
      let text = redact_all req.secrets ((restore_secrets a e s).0) in
      fail_writes a.fail_row a.finish s.app.id text s₁ g f id
        (subst (λ d. d.operations ≡ db.operations) (sym same) ops)
        (subst (λ d. HasRow o.app_id d) (sym same) row) secrets

  finish_writes :
      (finish : Answer) {P : App → Type 0} (s : Site)
      → finish ≡ none
      → s.db.operations ≡ db.operations
      → RowIs o.app_id P s.db
      → Ends a.now "completed" [] o P (dropped finish (finished_row a o.id "completed" []) s).db
  finish_writes finish {P} s f same row = rw f (
      finish_operation-Ends a.now "completed" [] o {P = P} s.db completed-ends
        (IsValid-same db s.db same valid) (Runs-same o db s.db same runs) row)

  -- How a deploy ends that owns its operation.
  pub conclude-Ends :
      (req : GitRequest) (redeploying up : Bool) (x : Outcome Exit × Site)
      → a.finish ≡ none
      → a.fail_row ≡ none
      → a.restore_secrets ≡ none
      → Post
          (Live o.app_id db.operations old release up redeploying)
          (Left o.app_id db.operations old release)
          x
      → Result a o old (release_after redeploying release) up (conclude a req o.id x)
  unfolding conclude
  conclude-Ends req redeploying up (next, s) f g r ((ops, id, row, k, c), live, u) = (
    finish_writes a.finish {P = Deployed (release_after redeploying release)}
        (record s { snapshot = none }) f ops live,
    ground arith,
  )
  conclude-Ends req redeploying up (leave (fail e), s) f g r h = fail_deploy-Failed req e s f g r h
  conclude-Ends req redeploying up (leave (clean_up e), s) f g r h =
      fail_deploy-Failed req e (events_of (remove ∷ sync_route ∷ []) s) f g r h
