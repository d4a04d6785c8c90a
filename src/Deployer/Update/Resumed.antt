-- ===== src/Deployer/Update/Resumed.antt =====
-- The closure resumePrevious: the app was stopped, and nothing of the candidate was started.
use space_elevator.Base.{
  ◌≡◌, refl, ap, ◌∙◌, inl, inr, String, Bool, true, false, Option-cases, none, if◌then◌else◌,
  Option-cases, Bytes, Dict, arith,
}
use space_elevator.Store.Rows.{App}
use space_elevator.Store.Operations.{is_active, end_status}
use space_elevator.Deployer.State.{UpdateRequest, World, Answers, Recovery, start}
use space_elevator.Deployer.Recovery.{
  restore_secrets, restart_previous, resume_previous, restored_running, left_stopped,
}
use space_elevator.Deployer.Update.Failure.{
  restore_secrets-Framed, restart_previous-operation, fail_update-terminal,
}
use space_elevator.Deployer.Update.Kept.{up_after, up_after-append, Stopped}
use space_elevator.Deployer.Update.Settled.{Ready, Settled, Ready-Restored, restore_secrets-Ready}

restarted :
    (a : Answers) (up : Bool) (w : World)
    → w.we_stopped ≡ up
    → up_after up w.calls ≡ false
    → up_after up ((restart_previous a w).1.calls) ≡ up
unfolding restart_previous
restarted a true w f d = rw f (up_after-append true w.calls start)
restarted a false w f d = rw f d

recovery_of : Bool → Recovery
recovery_of stopped = if stopped then restored_running else left_stopped

recovery_of-lem :
    (b up : Bool)
    → b ≡ up
    → end_status ((recovery_of b).operation_status) ≡ "rolled_back"
      × (recovery_of b).app_status ≡ (if up then "running" else "stopped")
unfolding recovery_of
recovery_of-lem true up e = (refl, rw (← e) refl)
recovery_of-lem false up e = (refl, rw (← e) refl)

module _ (app : App) (old_secrets : Dict Bytes) (old_rows : Dict String) (up : Bool) where
  restart_previous-Ready :
      (a : Answers) (w : World)
      → Ready app old_secrets old_rows w
      → Ready app old_secrets old_rows (restart_previous a w).1
  unfolding restart_previous
  restart_previous-Ready a w h = record {
    active = ground arith;
    secrets = ground arith;
    settles = ground arith;
    storage = ground arith;
    current = ground arith;
  }

  pub resume_previous-Settled :
      (a : Answers) (req : UpdateRequest) (cause e : Bytes) (w : World)
      → a.finish ≡ none
      → a.fail_app ≡ none
      → Stopped app old_secrets old_rows up w
      → Settled app old_secrets old_rows up (resume_previous a req cause e w).1
  unfolding resume_previous recovery_of
  resume_previous-Settled a req cause e w f g (k, s, o, c, st, d) =
      let (secret_error, w₁) = restore_secrets a a.restore_secrets w in
      let (restart_error, w₂) = restart_previous a w₁ in
      let m = restore_secrets-Framed a a.restore_secrets w in
      let active : is_active w₂.operation.status ≡ true =
        ap (λ x. is_active x.status) (restart_previous-operation a w₁ ∙ m.operation) ∙ k.active in
      elim (Option-cases secret_error) [
        | inr (t, p) ↦
            inl (rw (p, resume_previous) (fail_update-terminal a req _ true _ w₂ f active))
        | inl p ↦ elim (Option-cases restart_error) [
          | inr (t, q) ↦
              inl (rw (p, q, resume_previous) (fail_update-terminal a req _ true _ w₂ f active))
          | inl q ↦
              let rec = recovery_of-lem w.we_stopped up st in
              rw (p, q, resume_previous)
                (Ready-Restored app old_secrets old_rows up a req _ (recovery_of w.we_stopped) w₂ f
                  g
                  (restart_previous-Ready a w₁
                    (restore_secrets-Ready app old_secrets old_rows up a w k s c p))
                  (restarted a up w₁ (m.we_stopped ∙ st) (ap (up_after up) m.calls ∙ d)) rec.0
                  rec.1)
        ]
      ]
