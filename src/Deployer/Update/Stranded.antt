-- ===== src/Deployer/Update/Stranded.antt =====
-- A status that cannot be written between the backup and the cutover.
use space_elevator.Base.{
  ◌≡◌, refl, sym, ap, ◌∙◌, ◌++◌, subst, str_eq, false, [], ◌∷◌, Option, some, none, Bool, true,
  Bytes, arith,
}
use space_elevator.Store.Rows.{App}
use space_elevator.Store.Apps.{with_status_err}
use space_elevator.Deployer.State.{
  UpdateRequest, World, Answers, Recovery, Exit, fail, prepare, inspect, stop, backup, migrate,
}
use space_elevator.Deployer.Program.{Answer, Outcome, attempt, next, leave}
use space_elevator.Deployer.Recovery.{
  fail_update, restore_secrets, update_failure, write_failure, finish_update, failure_status,
}
use space_elevator.Deployer.Phases.{stop_app, back_up, cut_over, set_status}
use space_elevator.Deployer.Update.{
  prepare_phases, switch_phases, all_phases, conclude, take_exit, update,
}
use space_elevator.Deployer.Update.Order.{
  taken, prepare_phases-order, stop_app-order, back_up-order,
}
use space_elevator.Deployer.Program.Rules.{Post}

fail_update-calls :
    (a : Answers) (req : UpdateRequest) (ans : Answer) (b : Bool) (e : Bytes) (r : Option Recovery)
    (w : World)
    → (fail_update a req ans b e r w).1.calls ≡ w.calls
unfolding fail_update restore_secrets update_failure write_failure finish_update
fail_update-calls a req ans b e r w = ground arith

cut_over-refused :
    (a : Answers) (e : Bytes) (w : World)
    → a.set_cutting_over ≡ some e
    → cut_over a w ≡ (leave (fail true e), w)
unfolding cut_over set_status attempt
cut_over-refused a e w h = ground arith

fail_update-error :
    (a : Answers) (req : UpdateRequest) (ans : Answer) (b : Bool) (e : Bytes) (w : World)
    → a.fail_app ≡ none
    → (fail_update a req ans b e none w).1.app.status ≡ "error"
unfolding fail_update restore_secrets update_failure write_failure finish_update failure_status
    with_status_err
fail_update-error a req ans b e w h = ground arith

module _ (a : Answers) (req : UpdateRequest) (app : App) (e : Bytes) (w : World)
    (refused : a.set_cutting_over ≡ some e) (written : a.fail_app ≡ none) where
  conclude-stranded :
      (conclude a req app (cut_over a w)).1.calls ≡ w.calls
      × (conclude a req app (cut_over a w)).1.app.status ≡ "error"
  unfolding conclude take_exit
  conclude-stranded = rw (cut_over-refused a e w refused) (
    fail_update-calls a req a.restore_secrets true e none w,
    fail_update-error a req a.restore_secrets true e w written,
  )

-- The body of an update that comes to the end of the backup.
all_phases-cut_over :
    (a : Answers) (req : UpdateRequest) (app : App) (w w₁ w₂ w₃ : World) (e : Bytes)
    → prepare_phases a req app w ≡ (next, w₁)
    → stop_app a w₁ ≡ (next, w₂)
    → back_up a w₂ ≡ (next, w₃)
    → a.set_cutting_over ≡ some e
    → all_phases a req app w ≡ cut_over a w₃
unfolding all_phases switch_phases
all_phases-cut_over a req app w w₁ w₂ w₃ e p s b refused =
    rw (p, s, b, cut_over-refused a e w₃ refused) refl

update-marked :
    (a : Answers) (req : UpdateRequest) (app : App) (w : World)
    → a.mark_updating ≡ none
    → update a req app w
      ≡ conclude a req app
          (all_phases a req app (record w { app = with_status_err a.now "updating" [] w.app }))
unfolding update
update-marked a req app w h = ground arith

post-next :
    (P : World → Type 0) (Q : Exit → World → Type 0) (x : Outcome Exit × World) (w : World)
    → x ≡ (next, w)
    → Post P Q x
    → P w
post-next P Q x w e h = subst (λ y. Post P Q y) e h

-- An update of a running app in which everything works up to the end of the backup, the status
-- "cutting_over" cannot be written and the status of the app can: it fails, the calls that it has made
-- are prepare, inspect, stop, backup and migrate, so that nothing has started the app again, and the
-- app is left in "error".
pub cut_over-strands :
    (a : Answers) (req : UpdateRequest) (app : App) (e : Bytes) (w w₁ w₂ w₃ : World)
    → w.calls ≡ []
    → a.mark_updating ≡ none
    → prepare_phases a req app (record w { app = with_status_err a.now "updating" [] w.app })
      ≡ (next, w₁)
    → stop_app a w₁ ≡ (next, w₂)
    → back_up a w₂ ≡ (next, w₃)
    → str_eq a.status_before_is "stopped" ≡ false
    → a.set_cutting_over ≡ some e
    → a.fail_app ≡ none
    → ((update a req app w).1.calls ≡ prepare ∷ inspect ∷ stop ∷ backup ∷ migrate ∷ [])
      × ((update a req app w).1.app.status ≡ "error")
cut_over-strands a req app e w w₁ w₂ w₃ none_made marked p s b ran refused written =
    let start : World = record w { app = with_status_err a.now "updating" [] w.app } in
    let c₁ = post-next _ _ _ w₁ p ((prepare_phases-order a req app).at start none_made) in
    let c₂ = post-next _ _ _ w₂ s ((stop_app-order a).at w₁ c₁) in
    let c₃ = post-next _ _ _ w₃ b ((back_up-order a).at w₂ c₂) in
    let (calls, status) = conclude-stranded a req app e w₃ refused written in
    let body = all_phases-cut_over a req app start w₁ w₂ w₃ e p s b refused in
    let same = update-marked a req app w marked ∙ ap (λ x. conclude a req app x) body in
    let made = ap (λ x. taken x ++ backup ∷ migrate ∷ []) ran in
    subst
      (λ x.
        (x.1.calls ≡ prepare ∷ inspect ∷ stop ∷ backup ∷ migrate ∷ []) × (x.1.app.status ≡ "error"))
      (sym same) (calls ∙ c₃ ∙ made, status)
