-- ===== src/Deployer/Update/Honest.antt =====
-- How an update ends, whatever call fails.
use space_elevator.Base.{
  ◌≡◌, refl, ap, ◌∙◌, inl, inr, String, str_eq, Bool, true, not, Option, Option-cases, some, none,
  [], Option-cases, Bytes, Dict, arith,
}
use space_elevator.Store.Rows.{App, Operation}
use space_elevator.Store.Operations.{is_active}
use space_elevator.Store.Apps.{with_status_err}
use space_elevator.Deployer.State.{Exit, UpdateRequest, World, Answers, fail, resume, rollback}
use space_elevator.Deployer.Program.{Outcome, next, leave}
use space_elevator.Deployer.Recovery.{finish_update}
use space_elevator.Deployer.Update.{all_phases, claimed_world, take_exit, conclude, update}
use space_elevator.Deployer.Update.Failure.{finish_update-terminal, fail_update-terminal}
use space_elevator.Deployer.Program.Rules.{Post, Ensures-seq}
use space_elevator.Deployer.Update.Prepared.{prepare_phases-Running}
use space_elevator.Deployer.Update.Switched.{switch_phases-Committed}
use space_elevator.Deployer.Update.Kept.{Committed, up_after, Kept, Left}
use space_elevator.Deployer.Update.Settled.{Settled}
use space_elevator.Deployer.Update.Resumed.{resume_previous-Settled}
use space_elevator.Deployer.Update.RolledBack.{rollback_candidate-Settled}

-- The candidate runs, and the rows say so.
pub record Completed (release_id : String) (up : Bool) (w : World) : Type 0 where
  pub status : w.operation.status ≡ "completed"
  pub app_status : w.app.status ≡ "running"
  pub current : w.app.current_release_id ≡ some release_id
  pub containers : up_after up w.calls ≡ true

abbrev pub Verdict : Answers → App → Dict Bytes → Dict String → Bool → Option Bytes × World → Type 0
Verdict a app secrets storage up (none, w) = Completed a.release_id up w
Verdict a app secrets storage up (some e, w) = Settled app secrets storage up w

finish_update-rest :
    (a : Answers) (status : String) (m : Bytes) (w : World)
    → (finish_update a status m w).app ≡ w.app × (finish_update a status m w).calls ≡ w.calls
unfolding finish_update
finish_update-rest a status m w = (ground arith, ground arith)

module _ (a : Answers) (req : UpdateRequest) (app : App) (secrets : Dict Bytes)
    (storage : Dict String) where
  abbrev was_up : Bool
  was_up = not (str_eq a.status_before_is "stopped")

  conclude-Verdict :
      (x : Outcome Exit × World)
      → a.finish ≡ none
      → a.fail_app ≡ none
      → Post (Committed app secrets storage was_up a.release_id) (Left app secrets storage was_up) x
      → Verdict a app secrets storage was_up (conclude a req app x)
  unfolding conclude take_exit
  conclude-Verdict (next, w) f g ((k, o, st, u), s, c) =
      let w' : World = record w { snapshot = none } in
      let m = finish_update-rest a "completed" [] w' in
      record {
        status = finish_update-terminal a "completed" [] w' f k.active;
        app_status = ap (λ x. x.status) m.0 ∙ s;
        current = ap (λ x. x.current_release_id) m.0 ∙ c;
        containers = ap (up_after was_up) m.1 ∙ u;
      }
  conclude-Verdict (leave (fail has_release e), w) f g h =
      inl (fail_update-terminal a req a.restore_secrets has_release e w f h.active)
  conclude-Verdict (leave (resume cause e), w) f g h =
      resume_previous-Settled app secrets storage was_up a req cause e w f g h
  conclude-Verdict (leave (rollback reason), w) f g h =
      rollback_candidate-Settled app secrets storage was_up a req reason w f g h

  -- An update of an app whose operation is active, in which any calls fail but the two writes that
  -- record the end: it either succeeds, and then the operation is "completed", the app is "running"
  -- with the new release as its current one, and the candidate is up; or it fails with the operation
  -- "failed" or "rollback_failed"; or it fails with the operation "rolled_back", and only where the
  -- secrets, the storage rows and the current release are those that it found, the containers are up
  -- if they were and down if not, and the app has the status that fits.
  pub update-Verdict :
      (operation : Operation)
      → a.finish ≡ none
      → a.fail_app ≡ none
      → is_active operation.status ≡ true
      → Verdict a app secrets storage was_up
          (update a req app (claimed_world app operation secrets storage))
  unfolding update all_phases with_status_err up_after
  update-Verdict operation f g h =
      let w = claimed_world app operation secrets storage in
      let w' : World = record w { app = with_status_err a.now "updating" [] w.app } in
      let k : Kept app secrets storage was_up w' = record {
        active = h;
        secrets_kept = refl;
        not_restored = refl;
      } in
      let all =
        Ensures-seq (prepare_phases-Running app secrets storage was_up a req)
          (switch_phases-Committed app secrets storage was_up a refl) in
      elim (Option-cases a.mark_updating) [
        | inr (e, p) ↦ rw (p, update) (inl (inl (finish_update-terminal a "failed" e w f h)))
        | inl p ↦
            rw (p, update)
              (conclude-Verdict (all_phases a req app w') f g
                (all.at w' (k, refl, (refl, refl, refl, refl))))
      ]
