-- ===== src/Deployer/Update/Failure.antt =====
-- What a failed update writes: failUpdate, updateFailure and the parts of the two recoveries.
use space_elevator.Base.{
  ◌≡◌, refl, ap, ◌∙◌, ◌⊎◌, inl, inr, String, Bool, true, Option, Option-cases, some, none, Bytes,
  Dict, arith,
}
use space_elevator.Store.Rows.{App}
use space_elevator.Store.Operations.{is_active, finished, end_status}
use space_elevator.Store.Apps.{with_status_err}
use space_elevator.Deployer.State.{UpdateRequest, World, Answers, Recovery}
use space_elevator.Deployer.Program.{Answer}
use space_elevator.Deployer.Recovery.{
  restore_secrets, finish_update, failure_status, write_failure, update_failure, fail_update,
  restart_previous, rollback_update, restore_storage, restore_app,
}
use space_elevator.Deployer.Update.Kept.{Secrets, Kept}

pub finish_update-terminal :
    (a : Answers) (status : String) (m : Bytes) (w : World)
    → a.finish ≡ none
    → is_active w.operation.status ≡ true
    → (finish_update a status m w).operation.status ≡ end_status status
unfolding finish_update finished
finish_update-terminal a status m w f h = ground arith

write_failure-operation :
    (a : Answers) (r : Bool) (t : Bytes) (s : String) (e : Bytes) (w : World)
    → (write_failure a r t s e w).operation ≡ w.operation
unfolding write_failure
write_failure-operation a r t s e w = ground arith

pub restore_secrets-operation :
    (a : Answers) (ans : Answer) (w : World) → (restore_secrets a ans w).1.operation ≡ w.operation
unfolding restore_secrets
restore_secrets-operation a ans w = ground arith

pub rollback_update-operation :
    (a : Answers) (w : World) → (rollback_update a w).1.operation ≡ w.operation
unfolding rollback_update
rollback_update-operation a w = ground arith

pub restore_storage-operation :
    (a : Answers) (w : World) → (restore_storage a w).1.operation ≡ w.operation
unfolding restore_storage
restore_storage-operation a w = ground arith

pub restore_app-operation :
    (a : Answers) (app : App) (w : World) → (restore_app a app w).1.operation ≡ w.operation
unfolding restore_app
restore_app-operation a app w = ground arith

pub restart_previous-operation :
    (a : Answers) (w : World) → (restart_previous a w).1.operation ≡ w.operation
unfolding restart_previous
restart_previous-operation a w = ground arith

failure_status-is :
    (t : Bytes)
    → (failure_status none t).0 ≡ "failed" ⊎ (failure_status none t).0 ≡ "rollback_failed"
unfolding failure_status
failure_status-is t = ground arith

-- A restore of the secrets changes nothing else.
pub record Framed (w w' : World) : Type 0 where
  pub operation : w'.operation ≡ w.operation
  pub storage : w'.storage ≡ w.storage
  pub old_storage : w'.old_storage ≡ w.old_storage
  pub app : w'.app ≡ w.app
  pub we_stopped : w'.we_stopped ≡ w.we_stopped
  pub calls : w'.calls ≡ w.calls

pub restore_secrets-Framed :
    (a : Answers) (ans : Answer) (w : World) → Framed w (restore_secrets a ans w).1
unfolding restore_secrets
restore_secrets-Framed a ans w = record {
  operation = ground arith;
  storage = ground arith;
  old_storage = ground arith;
  app = ground arith;
  we_stopped = ground arith;
  calls = ground arith;
}

-- The secrets need no more putting back.
unfoldable pub settled : Option (Dict Bytes) → Bool → Bool
settled none restored = true
settled (some s) restored = restored

restore_secrets-settled :
    (a : Answers) (ans : Answer) (w : World)
    → settled w.snapshot w.secrets_restored ≡ true
    → restore_secrets a ans w ≡ (none, w)
unfolding restore_secrets settled
restore_secrets-settled a ans w h = ground arith

Secrets-cases :
    (old now : Dict Bytes) (s : Option (Dict Bytes))
    → Secrets old s now
    → (s ≡ none × now ≡ old) ⊎ (s ≡ some old)
Secrets-cases old now none h = inl (refl, h)
Secrets-cases old now (some x) h = inr (ap some h)

module _ (app : App) (old_secrets : Dict Bytes) (old_rows : Dict String) (up : Bool) where
  pub restore_secrets-lem :
      (a : Answers) (ans : Answer) (w : World)
      → Kept app old_secrets old_rows up w
      → (restore_secrets a ans w).0 ≡ none
      → (restore_secrets a ans w).1.secrets ≡ old_secrets
        × settled
            ((restore_secrets a ans w).1.snapshot)
            ((restore_secrets a ans w).1.secrets_restored)
          ≡ true
  unfolding restore_secrets settled
  restore_secrets-lem a ans w k e =
      let c = Secrets-cases old_secrets w.secrets w.snapshot k.secrets_kept in
      let r = k.not_restored in ground arith

update_failure-terminal :
    (a : Answers) (b : Bool) (t : Bytes) (w : World)
    → a.finish ≡ none
    → is_active w.operation.status ≡ true
    → (update_failure a b t none w).operation.status ≡ "failed"
      ⊎ (update_failure a b t none w).operation.status ≡ "rollback_failed"
unfolding update_failure
update_failure-terminal a b t w f h =
    let (status, app_status, app_error) = failure_status none t in
    let e =
      finish_update-terminal a status t (write_failure a b t app_status app_error w) f
        (ap (λ o. is_active o.status) (write_failure-operation a b t app_status app_error w) ∙ h) in
    elim (failure_status-is t) [
      | inl p ↦ inl (e ∙ ap end_status p)
      | inr p ↦ inr (e ∙ ap end_status p)
    ]

pub fail_update-terminal :
    (a : Answers) (req : UpdateRequest) (ans : Answer) (b : Bool) (e : Bytes) (w : World)
    → a.finish ≡ none
    → is_active w.operation.status ≡ true
    → (fail_update a req ans b e none w).1.operation.status ≡ "failed"
      ⊎ (fail_update a req ans b e none w).1.operation.status ≡ "rollback_failed"
unfolding fail_update
fail_update-terminal a req ans b e w f h =
    let (failed, w') = restore_secrets a ans w in
    let t = λ (x : Bytes).
      update_failure-terminal a b x w' f
        (ap (λ o. is_active o.status) (restore_secrets-operation a ans w) ∙ h) in
    elim (Option-cases (restore_secrets a ans w).0) [
      | inl p ↦ rw (p, fail_update) (t _)
      | inr (m, p) ↦ rw (p, fail_update) (t _)
    ]

-- What a settled recovery leaves of the world.
pub record Recovered (r : Recovery) (w w' : World) : Type 0 where
  pub status : w'.operation.status ≡ end_status r.operation_status
  pub app_status : w'.app.status ≡ r.app_status
  pub secrets : w'.secrets ≡ w.secrets
  pub storage : w'.storage ≡ w.storage
  pub current : w'.app.current_release_id ≡ w.app.current_release_id
  pub calls : w'.calls ≡ w.calls

pub fail_update-Recovered :
    (a : Answers) (req : UpdateRequest) (ans : Answer) (b : Bool) (e : Bytes) (r : Recovery)
    (w : World)
    → a.finish ≡ none
    → a.fail_app ≡ none
    → is_active w.operation.status ≡ true
    → settled w.snapshot w.secrets_restored ≡ true
    → Recovered r w (fail_update a req ans b e (some r) w).1
unfolding fail_update restore_secrets settled update_failure failure_status finish_update
    write_failure finished with_status_err
fail_update-Recovered a req ans b e r w f g h s = record {
  status = ground arith;
  app_status = ground arith;
  secrets = ground arith;
  storage = ground arith;
  current = ground arith;
  calls = ground arith;
}
