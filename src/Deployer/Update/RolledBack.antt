-- ===== src/Deployer/Update/RolledBack.antt =====
-- The closure rollbackCandidate: the candidate may run, and its rows may be written.
use space_elevator.Base.{
  ◌≡◌, refl, sym, subst, ap, ◌∙◌, inl, inr, String, Bool, true, false, Option-cases, some, none,
  ◌++◌, Option-cases, Bool-cases, Bytes, bytes, Dict, arith,
}
use space_elevator.Store.Rows.{App}
use space_elevator.Store.Operations.{is_active}
use space_elevator.Store.Apps.{stored_app}
use space_elevator.Deployer.State.{
  UpdateRequest, World, Answers, made, redeploy, remove, inspect, sync_route, stop,
}
use space_elevator.Deployer.Recovery.{
  restore_secrets, fail_update, rollback_update, restore_storage, restore_app, settle_rollback,
  rollback_candidate, restored_running, left_stopped,
}
use space_elevator.Deployer.Update.Failure.{
  restore_secrets-Framed, settled, restore_secrets-lem, fail_update-terminal,
}
use space_elevator.Deployer.Update.Kept.{up_after, up_after-append, Switching}
use space_elevator.Deployer.Update.Settled.{Ready, Settled, Ready-Restored}

-- After a rollback that worked the previous release runs.
rolled-up :
    (a : Answers) (up : Bool) (w : World)
    → (rollback_update a w).0 ≡ none
    → up_after up ((rollback_update a w).1.calls) ≡ true
unfolding rollback_update
rolled-up a up w e =
    let w' = made redeploy (made remove w) in
    let h = up_after-append up w'.calls inspect in
    let i = up_after-append up ((made remove w).calls) redeploy in ground arith

routed-up :
    (a : Answers) (app : App) (up : Bool) (w : World)
    → (restore_app a app w).0 ≡ none
    → up_after up w.calls ≡ true
    → up_after up ((restore_app a app w).1.calls) ≡ true
unfolding restore_app
routed-up a app up w e h = let i = up_after-append up w.calls sync_route in ground arith

rollback-same :
    (a : Answers) (app : App) (w : World)
    → (restore_app a app (restore_storage a (rollback_update a w).1).1).1.operation ≡ w.operation
      × (restore_app a app (restore_storage a (rollback_update a w).1).1).1.we_stopped
        ≡ w.we_stopped
unfolding rollback_update restore_storage restore_app
rollback-same a app w = (ground arith, ground arith)

restore_storage-calls : (a : Answers) (w : World) → (restore_storage a w).1.calls ≡ w.calls
unfolding restore_storage
restore_storage-calls a w = ground arith

module _ (a : Answers) (req : UpdateRequest) (reason : Bytes) where
  settle-running :
      (w : World)
      → w.we_stopped ≡ true
      → settle_rollback a req reason w
        ≡ fail_update a req a.restore_secrets_again true
            (reason ++ restored_running.suffix)
            (some restored_running)
            w
  unfolding settle_rollback
  settle-running w e = ground arith

  settle-unstopped :
      (t : Bytes) (w : World)
      → w.we_stopped ≡ false
      → a.stop_again ≡ some t
      → settle_rollback a req reason w
        ≡ fail_update a req a.restore_secrets_again true
            (reason ++ (bytes "; re-stop previous release: " ++ t))
            none
            (made stop w)
  unfolding settle_rollback
  settle-unstopped t w e p = ground arith

  settle-stopped :
      (w : World)
      → w.we_stopped ≡ false
      → a.stop_again ≡ none
      → settle_rollback a req reason w
        ≡ fail_update a req a.restore_secrets_again true
            (reason ++ left_stopped.suffix)
            (some left_stopped)
            (made stop w)
  unfolding settle_rollback
  settle-stopped w e p = ground arith

module _ (app : App) (old_secrets : Dict Bytes) (old_rows : Dict String) (up : Bool) where
  rollback-Ready :
      (a : Answers) (w : World)
      → is_active w.operation.status ≡ true
      → w.secrets ≡ old_secrets
      → settled w.snapshot w.secrets_restored ≡ true
      → w.old_storage ≡ old_rows
      → (restore_storage a (rollback_update a w).1).0 ≡ none
      → (restore_app a app (restore_storage a (rollback_update a w).1).1).0 ≡ none
      → Ready app old_secrets old_rows
          (restore_app a app (restore_storage a (rollback_update a w).1).1).1
  unfolding rollback_update restore_storage restore_app stored_app
  rollback-Ready a w h i j k l m = record {
    active = ground arith;
    secrets = ground arith;
    settles = ground arith;
    storage = ground arith;
    current = ground arith;
  }

  settle_rollback-Settled :
      (a : Answers) (req : UpdateRequest) (reason : Bytes) (w : World)
      → a.finish ≡ none
      → a.fail_app ≡ none
      → Ready app old_secrets old_rows w
      → w.we_stopped ≡ up
      → up_after up w.calls ≡ true
      → Settled app old_secrets old_rows up (settle_rollback a req reason w).1
  settle_rollback-Settled a req reason w f g h s u =
      let w' = made stop w in
      let h' : Ready app old_secrets old_rows w' = record {
        active = h.active;
        secrets = h.secrets;
        settles = h.settles;
        storage = h.storage;
        current = h.current;
      } in
      elim (Bool-cases up) [
        | inl e ↦
            subst (λ x. Settled app old_secrets old_rows up x.1)
              (sym (settle-running a req reason w (s ∙ e)))
              (Ready-Restored app old_secrets old_rows up a req _ restored_running w f g h
                (u ∙ sym e) refl (rw e refl))
        | inr e ↦ elim (Option-cases a.stop_again) [
          | inr (t, p) ↦
              subst (λ x. Settled app old_secrets old_rows up x.1)
                (sym (settle-unstopped a req reason t w (s ∙ e) p))
                (inl (fail_update-terminal a req _ true _ w' f h.active))
          | inl p ↦
              subst (λ x. Settled app old_secrets old_rows up x.1)
                (sym (settle-stopped a req reason w (s ∙ e) p))
                (Ready-Restored app old_secrets old_rows up a req _ left_stopped w' f g h'
                  (up_after-append up w.calls stop ∙ sym e) refl (rw e refl))
        ]
      ]

  pub rollback_candidate-Settled :
      (a : Answers) (req : UpdateRequest) (reason : Bytes) (w : World)
      → a.finish ≡ none
      → a.fail_app ≡ none
      → Switching app old_secrets old_rows up w
      → Settled app old_secrets old_rows up (rollback_candidate a req app reason w).1
  unfolding rollback_candidate
  rollback_candidate-Settled a req reason w f g (k, o, st) =
      let (secret_error, w₁) = restore_secrets a a.restore_secrets w in
      let (rollback_error, w₂) = rollback_update a w₁ in
      let (state_error, w₃) = restore_storage a w₂ in
      let (app_error, w₄) = restore_app a app w₃ in
      let m = restore_secrets-Framed a a.restore_secrets w in
      let m' = rollback-same a app w₁ in
      let active₁ : is_active w₁.operation.status ≡ true =
        ap (λ x. is_active x.status) m.operation ∙ k.active in
      let active : is_active w₄.operation.status ≡ true =
        ap (λ x. is_active x.status) m'.0 ∙ active₁ in
      let give_up =
        λ (e : Bytes). fail_update-terminal a req a.restore_secrets_again true e w₄ f active in
      elim (Option-cases secret_error) [
        | inr (t, p) ↦ inl (rw (p, rollback_candidate) (give_up _))
        | inl p ↦ elim (Option-cases rollback_error) [
          | inr (t, q) ↦ inl (rw (p, q, rollback_candidate) (give_up _))
          | inl q ↦ elim (Option-cases state_error) [
            | inr (t, r) ↦ inl (rw (p, q, r, rollback_candidate) (give_up _))
            | inl r ↦ elim (Option-cases app_error) [
              | inr (t, v) ↦ inl (rw (p, q, r, v, rollback_candidate) (give_up _))
              | inl v ↦
                  let l =
                    restore_secrets-lem app old_secrets old_rows up a a.restore_secrets w k p in
                  rw (p, q, r, v, rollback_candidate)
                    (settle_rollback-Settled a req reason w₄ f g
                      (rollback-Ready a w₁ active₁ l.0 l.1 (m.old_storage ∙ o) r v)
                      (m'.1 ∙ m.we_stopped ∙ st)
                      (routed-up a app up w₃ v
                        (ap (up_after up) (restore_storage-calls a w₂) ∙ rolled-up a up w₁ q)))
            ]
          ]
        ]
      ]
