-- ===== src/Deployer/Update/Settled.antt =====
-- What a failed update is to leave behind, and the last step to it.
use space_elevator.Base.{
  ◌≡◌, ap, ◌∙◌, ◌⊎◌, inr, String, Bool, true, some, none, if◌then◌else◌, Bytes, Dict,
}
use space_elevator.Store.Rows.{App}
use space_elevator.Store.Operations.{is_active, end_status}
use space_elevator.Deployer.State.{UpdateRequest, World, Answers, Recovery}
use space_elevator.Deployer.Recovery.{restore_secrets, fail_update}
use space_elevator.Deployer.Update.Failure.{
  restore_secrets-Framed, settled, restore_secrets-lem, fail_update-Recovered,
}
use space_elevator.Deployer.Update.Kept.{up_after, Kept}

-- Everything is as the update found it, and the rows say so.
pub record Restored (app : App) (old_secrets : Dict Bytes) (old_rows : Dict String) (up : Bool)
    (w : World) : Type 0 where
  pub status : w.operation.status ≡ "rolled_back"
  pub app_status : w.app.status ≡ (if up then "running" else "stopped")
  pub secrets : w.secrets ≡ old_secrets
  pub storage : w.storage ≡ old_rows
  pub current : w.app.current_release_id ≡ app.current_release_id
  pub containers : up_after up w.calls ≡ up

abbrev pub GaveUp : World → Type 0
GaveUp w = w.operation.status ≡ "failed" ⊎ w.operation.status ≡ "rollback_failed"

-- Nothing is left to do but to record the end.
pub record Ready (app : App) (old_secrets : Dict Bytes) (old_rows : Dict String) (w : World)
    : Type 0 where
  pub active : is_active w.operation.status ≡ true
  pub secrets : w.secrets ≡ old_secrets
  pub settles : settled w.snapshot w.secrets_restored ≡ true
  pub storage : w.storage ≡ old_rows
  pub current : w.app.current_release_id ≡ app.current_release_id

module _ (app : App) (old_secrets : Dict Bytes) (old_rows : Dict String) (up : Bool) where
  abbrev pub Settled : World → Type 0
  Settled w = GaveUp w ⊎ Restored app old_secrets old_rows up w

  pub Ready-Restored :
      (a : Answers) (req : UpdateRequest) (e : Bytes) (r : Recovery) (w : World)
      → a.finish ≡ none
      → a.fail_app ≡ none
      → Ready app old_secrets old_rows w
      → up_after up w.calls ≡ up
      → end_status r.operation_status ≡ "rolled_back"
      → r.app_status ≡ (if up then "running" else "stopped")
      → Settled (fail_update a req a.restore_secrets_again true e (some r) w).1
  Ready-Restored a req e r w f g h u st ap_st =
      let k =
        fail_update-Recovered a req a.restore_secrets_again true e r w f g h.active h.settles in
      inr (record {
        status = k.status ∙ st;
        app_status = k.app_status ∙ ap_st;
        secrets = k.secrets ∙ h.secrets;
        storage = k.storage ∙ h.storage;
        current = k.current ∙ h.current;
        containers = ap (up_after up) k.calls ∙ u;
      })

  pub restore_secrets-Ready :
      (a : Answers) (w : World)
      → Kept app old_secrets old_rows up w
      → w.storage ≡ old_rows
      → w.app.current_release_id ≡ app.current_release_id
      → (restore_secrets a a.restore_secrets w).0 ≡ none
      → Ready app old_secrets old_rows (restore_secrets a a.restore_secrets w).1
  restore_secrets-Ready a w k s c e =
      let l = restore_secrets-lem app old_secrets old_rows up a a.restore_secrets w k e in
      let m = restore_secrets-Framed a a.restore_secrets w in
      record {
        active = ap is_active (ap (λ o. o.status) m.operation) ∙ k.active;
        secrets = l.0;
        settles = l.1;
        storage = m.storage ∙ s;
        current = ap (λ r. r.current_release_id) m.app ∙ c;
      }
