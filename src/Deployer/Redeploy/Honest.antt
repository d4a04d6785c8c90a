-- ===== src/Deployer/Redeploy/Honest.antt =====
-- The operation of a redeploy ends with it, on the direct way and through the whole pipeline.
use space_elevator.Base.{
  ℕ, ◌≤◌, ◌≡◌, refl, subst, ◌∙◌, ap, String, true, false, Bool-cases, Option-cases, Option, none,
  some, inl, inr, List, [], ◌∷◌, Bytes, arith, bytes, ◌++◌, first, tally,
}
use space_elevator.Store.Rows.{App, Operation, Db, ok}
use space_elevator.Store.Operations.{
  is_active, end_status, finished, finish_operation, get_operation, has_active_operation, has_id,
  active_id, update_active, bounded_error,
}
use space_elevator.Store.Operations.Exclusive.{IsValid}
use space_elevator.Store.Operations.Release.{amend-none, finish_operation-releases}
use space_elevator.Store.Apps.Rows.{HasRow}
use space_elevator.Deployer.Program.{Answer, Outcome, next, leave}
use space_elevator.Deployer.Program.Rules.{Post}
use space_elevator.Deployer.Deploy.State.{Site, Answers, dropped, events_of}
use space_elevator.Deployer.Deploy.Run.{deploy_git}
use space_elevator.Deployer.Deploy.Kept.{up_after}
use space_elevator.Deployer.Deploy.Ends.{
  Ends, Runs, Runs-same, IsValid-same, finish_operation-Ends, SaysError,
}
use space_elevator.Deployer.Deploy.Honest.{Verdict, deploy_git-Verdict}
use space_elevator.Deployer.Deploy.Live.{Deployed}
use space_elevator.Deployer.Redeploy.{
  Exit, plain, record_error, clean_up, redeploy_phases, error_row, redeploy_result, finish_redeploy,
  redeploy, needs_pipeline, stored_request,
}
use space_elevator.Deployer.Redeploy.Ended.{
  Kept, Running, Left, Live, redeploy_phases-Live, status-Kept,
}

active-le : (id : String) (xs : List Operation) → tally (active_id id) xs ≤ tally (has_id id) xs
unfolding tally
active-le id [] = omega arith
active-le id (x ∷ xs) = ground (arith, active-le id xs)

-- An operation that has ended is not written again.
tally-ended :
    (id : String) (r : Operation) (xs : List Operation)
    → first (has_id id) xs ≡ some r
    → is_active r.status ≡ false
    → tally (has_id id) xs ≤ 1
    → tally (active_id id) xs ≡ 0
unfolding first tally
tally-ended id r [] f e one = cc
tally-ended id r (x ∷ xs) f e one = ground (arith, active-le id xs, tally-ended id r xs)

finish_operation-twice :
    (now : ℕ) (id status : String) (text : Bytes) (r : Operation) (db : Db)
    → IsValid db
    → get_operation id db ≡ ok r
    → is_active r.status ≡ false
    → (finish_operation now id status text db).1 ≡ db
unfolding finish_operation update_active get_operation
finish_operation-twice now id status text r db v found e =
    let none_active = tally-ended id r db.operations (ground arith) e (v.one_row id) in
    rw (amend-none (active_id id) (finished now status text) db.operations none_active)
      (ground arith)

-- The operation has failed, and the app is free.
abbrev pub Failure : Answers → Operation → Site → Type 0
Failure a o s =
    (text : Bytes) × (get_operation o.id s.db ≡ ok (finished a.now "failed" text o))
    × (has_active_operation o.app_id s.db ≡ false)

abbrev pub Verdict' : Answers → Operation → Option Bytes × Site → Type 0
Verdict' a o (none, s) = Ends a.now "completed" [] o Running s.db × (up_after false s.events ≡ true)
Verdict' a o (some e, s) = Failure a o s

failed-ends : is_active (end_status "failed") ≡ false
unfolding is_active
failed-ends = refl

completed-ends : is_active (end_status "completed") ≡ false
unfolding is_active
completed-ends = refl

ended-status :
    (now : ℕ) (status : String) (text : Bytes) (o : Operation)
    → is_active (end_status status) ≡ false
    → is_active (finished now status text o).status ≡ false
unfolding finished
ended-status now status text o e = e

-- What is left to do behind the body: nothing has ended yet, or all has.
abbrev Open : Operation → List Operation → Option Bytes × Site → Type 0
Open o ops (none, s) = Live o.app_id ops false s
Open o ops (some e, s) = Kept o.app_id ops s

module _ (a : Answers) (app : App) (o : Operation) (finishes : a.finish ≡ none) where
  write_end :
      (finish : Answer) (status : String) (s : Site)
      → finish ≡ none
      → dropped finish (finish_operation a.now o.id status []) s
        ≡ record s { db = (finish_operation a.now o.id status [] s.db).1 }
  write_end finish status s e = rw e

  -- The direct way.
  finish_redeploy-Open :
      (ops : List Operation) (db : Db) (r : Option Bytes × Site)
      → ops ≡ db.operations
      → IsValid db
      → Runs o db
      → Open o ops r
      → Verdict' a o (finish_redeploy a o r)
  unfolding finish_redeploy finished bounded_error
  finish_redeploy-Open ops db (none, s) e v runs ((same, row), live, up) =
      let e' = same ∙ e in
      rw (write_end a.finish "completed" s finishes) (
        finish_operation-Ends a.now "completed" [] o {P = Running} s.db completed-ends
            (IsValid-same db s.db e' v) (Runs-same o db s.db e' runs) live,
        up,
      )
  finish_redeploy-Open ops db (some x, s) e v runs (same, row) =
      let e' = same ∙ e in
      let (answer, operation, released, rest) =
        finish_operation-releases a.now o.id "failed" [] s.db o (IsValid-same db s.db e' v)
          ((Runs-same o db s.db e' runs).0) runs.1 failed-ends in
      rw (write_end a.finish "failed" s finishes) ([], operation, released)

  error_row-Kept :
      (ops : List Operation) (text : Bytes) (s : Site)
      → app.id ≡ o.app_id
      → Kept o.app_id ops s
      → Kept o.app_id ops (error_row a app text s)
  unfolding error_row
  error_row-Kept ops text s i h = elim (Option-cases a.fail_row) [
    | inl e ↦ rw (e, error_row) (status-Kept o.app_id ops false a app "error" text s i h)
    | inr (x, e) ↦ rw (e, error_row) h
  ]

  redeploy_result-Open :
      (ops : List Operation) (x : Outcome Exit × Site)
      → app.id ≡ o.app_id
      → Post (Live o.app_id ops false) (Left o.app_id ops false) x
      → Open o ops (redeploy_result a app x)
  unfolding redeploy_result
  redeploy_result-Open ops (next, s) i h = h
  redeploy_result-Open ops (leave (plain e), s) i h = h
  redeploy_result-Open ops (leave (record_error e), s) i h = error_row-Kept ops e s i h
  redeploy_result-Open ops (leave (clean_up events p e), s) i h =
      error_row-Kept ops (bytes p ++ e) (events_of events s) i h

  -- Through the pipeline, which ends the operation itself or refuses the request.
  settled :
      (status again : String) (text : Bytes) {P : App → Type 0} (s : Site)
      → is_active (end_status status) ≡ false
      → Ends a.now status text o P s.db
      → record s { db = (finish_operation a.now o.id again [] s.db).1 } ≡ s
  settled status again text s ends h =
      ap (λ d. record s { db = d })
        (finish_operation-twice a.now o.id again [] (finished a.now status text o) s.db h.valid
          h.operation (ended-status a.now status text o ends))

  weaken :
      {release : Option String} (db : Db)
      → Ends a.now "completed" [] o (Deployed release) db
      → Ends a.now "completed" [] o Running db
  weaken db h = record {
    operation = h.operation;
    released = h.released;
    row = let (b, found, d) = h.row in (b, found, (d.0, d.1));
    valid = h.valid;
  }

  finish_redeploy-done :
      (id : String) (release : Option String) (s : Site) (r : Option Bytes × Site)
      → IsValid s.db
      → Runs o s.db
      → Verdict a (some o) id release s r
      → Verdict' a o (finish_redeploy a o r)
  unfolding finish_redeploy finished bounded_error
  finish_redeploy-done id release s (none, s') v runs (o', same, app_id, (ends, up)) =
      let ends' = subst (λ x. Ends a.now "completed" [] x (Deployed release) s'.db) same ends in
      rw
        (write_end a.finish "completed" s' finishes
          ∙ settled "completed" "completed" [] s' completed-ends ends')
        (weaken s'.db ends', up)
  finish_redeploy-done id release s (some e, s') v runs (inl (same, secrets, events)) =
      let (answer, operation, released, rest) =
        finish_operation-releases a.now o.id "failed" [] s'.db o (IsValid-same s.db s'.db same v)
          ((Runs-same o s.db s'.db same runs).0) runs.1 failed-ends in
      rw (write_end a.finish "failed" s' finishes) ([], operation, released)
  finish_redeploy-done id release s (some e, s') v runs (inr (o', same, app_id, (ends, secrets))) =
      let ends' = subst (λ x. Ends a.now "failed" e x (SaysError e) s'.db) same ends in
      rw
        (write_end a.finish "failed" s' finishes ∙ settled "failed" "failed" e s' failed-ends ends')
        (e, ends'.operation, ends'.released)

-- A redeploy of an app whose row is there, under an active operation of that app, in which any calls
-- and writes fail but the two writes that record the end and the restore of the secrets, on the
-- direct way and through the whole pipeline: it either succeeds, and then the operation is
-- "completed", the app is free, its row is "running" with no error, and the containers are up; or it
-- fails with an error, and then the operation is "failed" and the app is free.
pub redeploy-Verdict :
    (a : Answers) (app : App) (o : Operation) (s : Site)
    → a.finish ≡ none
    → a.fail_row ≡ none
    → a.restore_secrets ≡ none
    → app.id ≡ o.app_id
    → IsValid s.db
    → Runs o s.db
    → HasRow o.app_id s.db
    → s.snapshot ≡ none
    → Verdict' a o (redeploy a app o s)
unfolding redeploy
redeploy-Verdict a app o s f g r i v runs row fresh = elim (Bool-cases (needs_pipeline a app)) [
  | inl p ↦
      rw (p, redeploy)
        (finish_redeploy-done a app o f _ _ s (deploy_git a true (stored_request app) (some o) s) v
          runs (deploy_git-Verdict a true (stored_request app) (some o) s f g r v runs fresh))
  | inr p ↦
      rw (p, redeploy)
        (finish_redeploy-Open a app o f s.db.operations s.db
          (redeploy_result a app (redeploy_phases a app s)) refl v runs
          (redeploy_result-Open a app o f s.db.operations (redeploy_phases a app s) i
            ((redeploy_phases-Live o.app_id s.db.operations false a app i).at s (refl, row))))
]
