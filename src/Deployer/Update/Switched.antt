-- ===== src/Deployer/Update/Switched.antt =====
-- The phases of update.go that take the app down, start the candidate and commit it.
use space_elevator.Base.{
  ◌≡◌, refl, sym, ap, ◌∙◌, String, str_eq, Bool, true, false, not, if◌then◌else◌, Bytes, Dict,
}
use space_elevator.Store.Rows.{App}
use space_elevator.Store.Operations.{is_active, advanced}
use space_elevator.Store.Apps.{stored_app}
use space_elevator.Deployer.State.{
  World, Answers, Exit, rollback, Call, inspect, stop, activate, call,
}
use space_elevator.Deployer.Program.{Answer, attempt, assign, ◌>>◌}
use space_elevator.Deployer.Phases.{
  stop_app, back_up, cut_over, commit_release, set_status, with_release, rolled, same,
}
use space_elevator.Deployer.Update.{switch_phases}
use space_elevator.Deployer.Update.Rules.{Ensures-call}
use space_elevator.Deployer.Program.Rules.{
  Ensures, Ensures-attempt, Ensures-attempt_partly, Ensures-assign, Ensures-if, Ensures-seq,
}
use space_elevator.Deployer.Update.Kept.{
  up_behind, up_after-append, moved, Running, Stopped, Switching, Activated, Committed, Left,
}

module _ (app : App) (old_secrets : Dict Bytes) (old_rows : Dict String) (up : Bool) where
  abbrev Running' : World → Type 0
  Running' = Running app old_secrets old_rows up

  abbrev Stopped' : World → Type 0
  Stopped' = Stopped app old_secrets old_rows up

  abbrev Switching' : World → Type 0
  Switching' = Switching app old_secrets old_rows up

  -- Inspected, but not stopped yet.
  abbrev Inspected : World → Type 0
  Inspected w = Running' w × w.we_stopped ≡ up

  abbrev Activated' : World → Type 0
  Activated' = Activated app old_secrets old_rows up

  abbrev Committed' : Answers → World → Type 0
  Committed' a = Committed app old_secrets old_rows up a.release_id

  abbrev Left' : Exit → World → Type 0
  Left' = Left app old_secrets old_rows up

  -- The app is stopped: by the update, or as it was found.
  taken_down :
      (a : Answers)
      → up ≡ not (str_eq a.status_before_is "stopped")
      → Ensures Inspected Stopped' Left' (do
        if str_eq a.status_before_is "stopped"
            then assign same
            else do call stop; attempt a.stop (with_release "stop previous runtime: ") same)
  taken_down a found =
      Ensures-if (str_eq a.status_before_is "stopped") _ _
        (λ e. Ensures-assign _ (λ w ((k, (s, o, c, u)), f). (k, s, o, c, f, u ∙ found ∙ ap not e)))
        (λ e.
          Ensures-seq {Q = Stopped'}
            (Ensures-call _
              (λ w ((k, (s, o, c, u)), f). (k, s, o, c, f, up_after-append up w.calls stop)))
            (Ensures-attempt _ _ _ (λ w h. h) (λ w t h. h.0)))

  stop_app-Stopped :
      (a : Answers)
      → up ≡ not (str_eq a.status_before_is "stopped")
      → Ensures Running' Stopped' Left' (stop_app a)
  unfolding stop_app set_status is_active advanced
  stop_app-Stopped a found =
      Ensures-seq {Q = Running'}
        (Ensures-attempt a.set_backing_up (with_release "")
          (λ w. record w { operation = advanced a.now "backing_up" w.operation })
          (λ w (k, f). (moved k refl k.secrets_kept, f)) (λ w t h. h.0))
        (Ensures-seq {Q = Running'}
          (Ensures-call _
            (λ w (k, (s, o, c, u)). (k, (s, o, c, up_after-append up w.calls inspect ∙ u))))
          (Ensures-seq {Q = Inspected}
            (Ensures-attempt _ _ _ (λ w h. (h, sym found)) (λ w t h. h.0)) (taken_down a found)))

  called : (c : Call) → up_behind false c ≡ false → Ensures Stopped' Stopped' Left' (call c)
  called c e = Ensures-call c (λ w (k, s, o, i, f, u).
      (k, s, o, i, f, up_after-append up w.calls c ∙ ap (λ b. up_behind b c) u ∙ e))

  back_up-Stopped : (a : Answers) → Ensures Stopped' Stopped' Left' (back_up a)
  unfolding back_up
  back_up-Stopped a = Ensures-seq {Q = Stopped'} (called _ refl) (
      Ensures-seq {Q = Stopped'} (Ensures-attempt _ _ _ (λ w h. h) (λ w t h. h)) (
        Ensures-seq {Q = Stopped'} (called _ refl) (Ensures-attempt _ _ _ (λ w h. h) (λ w t h. h))))

  -- A step of the cutover once the candidate is up.
  switches :
      (answer : Answer) (p : Bytes → Bytes) (f : World → World)
      → ((w : World) → Activated' w → Activated' (f w))
      → Ensures Activated' Activated' Left' (attempt answer (λ e. rollback (p e)) f)
  switches answer p f go = Ensures-attempt answer _ f go (λ w t (k, o, f, u). (k, o, f))

  calls : (c : Call) → up_behind true c ≡ true → Ensures Activated' Activated' Left' (call c)
  calls c e =
      Ensures-call c
        (λ w (k, o, f, u). (k, o, f, up_after-append up w.calls c ∙ ap (λ b. up_behind b c) u ∙ e))

  switch_status :
      (a : Answers) (answer : Answer) (status : String)
      → is_active status ≡ true
      → Ensures Activated' Activated' Left' (set_status a answer (rolled "") status)
  unfolding set_status advanced
  switch_status a answer status e =
      switches answer _ (λ w. record w { operation = advanced a.now status w.operation })
        (λ w (k, o, f, u). (moved k e k.secrets_kept, o, f, u))

  cut_over-Activated : (a : Answers) → Ensures Stopped' Activated' Left' (cut_over a)
  unfolding cut_over set_status is_active advanced
  cut_over-Activated a =
      Ensures-seq {Q = Switching'}
        (Ensures-attempt a.set_cutting_over (with_release "")
          (λ w. record w { operation = advanced a.now "cutting_over" w.operation })
          (λ w (k, s, o, c, f, u). (moved k refl k.secrets_kept, o, f)) (λ w t h. h.0))
        (Ensures-seq {Q = Switching'} (Ensures-call _ (λ w h. h)) (
          Ensures-seq {Q = Switching'} (Ensures-attempt _ _ _ (λ w h. h) (λ w t h. h)) (
            Ensures-seq {Q = Activated'}
              (Ensures-call _ (λ w (k, o, f). (k, o, f, up_after-append up w.calls activate)))
              (Ensures-seq (switches _ _ _ (λ w h. h)) (
                Ensures-seq (switch_status a _ _ refl)
                  (Ensures-seq (calls _ refl) (switches _ _ _ (λ w h. h))))))))

  commit_release-Committed :
      (a : Answers) → Ensures Activated' (Committed' a) Left' (commit_release a)
  unfolding commit_release stored_app
  commit_release-Committed a = Ensures-seq {Q = Activated'} (calls _ refl) (
      Ensures-seq {Q = Activated'} (switches _ _ _ (λ w h. h)) (
        Ensures-seq {Q = Activated'} (switches _ _ _ (λ w h. h)) (
          Ensures-seq {Q = λ w. Activated' w × w.app.status ≡ "running"}
            (Ensures-attempt _ _ _ (λ w h. (h, refl)) (λ w t (k, o, f, u). (k, o, f)))
            (Ensures-seq {Q = Committed' a}
              (Ensures-attempt _ _ _ (λ w (h, s). (h, s, refl))
                (λ w t ((k, o, f, u), s). (k, o, f)))
              (Ensures-attempt_partly _ _ _ _ (λ w h. h)
                (λ w t ((k, o, f, u), s, c). (k, o, f)))))))

  pub switch_phases-Committed :
      (a : Answers)
      → up ≡ not (str_eq a.status_before_is "stopped")
      → Ensures Running' (Committed' a) Left' (switch_phases a)
  unfolding switch_phases
  switch_phases-Committed a found = Ensures-seq (stop_app-Stopped a found) (
      Ensures-seq (back_up-Stopped a)
        (Ensures-seq (cut_over-Activated a) (commit_release-Committed a)))
