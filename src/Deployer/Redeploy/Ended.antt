-- ===== src/Deployer/Redeploy/Ended.antt =====
-- How a redeploy ends, whatever call fails.
use space_elevator.Base.{◌≡◌, refl, ◌∙◌, String, Bool, true, List, [], ◌∷◌, Bytes, trim_space}
use space_elevator.Store.Rows.{App, Operation}
use space_elevator.Store.Operations.{bounded_error}
use space_elevator.Store.Apps.{update_app_status_err, with_status_err}
use space_elevator.Store.Apps.Rows.{
  HasRow, RowIs, RowIs-of_HasRow, update_app_status_err-found, update_app_status_err-RowIs,
}
use space_elevator.Deployer.Program.{Answer, attempt}
use space_elevator.Deployer.Program.Rules.{
  Ensures, Ensures-attempt, Ensures-attempt_partly, Ensures-assign, Ensures-seq,
}
use space_elevator.Deployer.Deploy.State.{Site, Answers, deploy, inspect, stage, publish_route}
use space_elevator.Deployer.Deploy.Kept.{up_after, up_after-append, Ensures-write}
use space_elevator.Deployer.Redeploy.{
  Exit, inspect_source, regenerate, replace_containers, go_live, redeploy_phases, same,
}

-- The operations are those at the start, and the row of the app is there.
abbrev pub Kept : String → List Operation → Site → Type 0
Kept id ops s = (s.db.operations ≡ ops) × HasRow id s.db

abbrev pub Running : App → Type 0
Running b = (b.status ≡ "running") × (b.last_error ≡ [])

module _ (id : String) (ops : List Operation) (up : Bool) where
  abbrev Here : Site → Type 0
  Here = Kept id ops

  abbrev pub Left : Exit → Site → Type 0
  Left e = Here

  abbrev Up : Site → Type 0
  Up s = Here s × (up_after up s.events ≡ true)

  abbrev pub Live : Site → Type 0
  Live s = Here s × RowIs id Running s.db × (up_after up s.events ≡ true)

  passes :
      (answer : Answer) (exit : Bytes → Exit) → Ensures Here Here Left (attempt answer exit same)
  passes answer exit = Ensures-attempt answer exit same (λ s h. h) (λ s t h. h)

  inspect_source-Here : (a : Answers) → Ensures Here Here Left (inspect_source a)
  unfolding inspect_source
  inspect_source-Here a =
      Ensures-seq (passes _ _) (
        Ensures-seq (passes _ _) (Ensures-seq (passes _ _) (Ensures-seq (passes _ _) (passes _ _))))

  regenerate-Here : (a : Answers) (app : App) → Ensures Here Here Left (regenerate a app)
  unfolding regenerate
  regenerate-Here a app =
      Ensures-seq (passes _ _) (
        Ensures-seq (passes _ _) (Ensures-seq (passes _ _) (Ensures-seq (passes _ _) (passes _ _))))

  replace_containers-Up : (a : Answers) → Ensures Here Up Left (replace_containers a)
  unfolding replace_containers up_after
  replace_containers-Up a = Ensures-seq {Q = Here} (Ensures-assign _ (λ s h. h)) (
      Ensures-seq (passes _ _) (
        Ensures-seq {Q = Up}
          (Ensures-assign _
            (λ s h. (h, up_after-append up s.events (stage "deploy" ∷ deploy ∷ []))))
          (Ensures-seq {Q = Up} (Ensures-attempt _ _ _ (λ s h. h) (λ s t h. h.0)) (
            Ensures-seq {Q = Up}
              (Ensures-assign _
                (λ s (h, u). (h, up_after-append up s.events (stage "verify" ∷ inspect ∷ []) ∙ u)))
              (Ensures-seq {Q = Up} (Ensures-attempt _ _ _ (λ s h. h) (λ s t h. h.0))
                (Ensures-attempt_partly _ _ _ _ (λ s h. h) (λ s t h. h.0)))))))

  -- A status is written to the row.
  pub status-Kept :
      (a : Answers) (app : App) (status : String) (text : Bytes) (s : Site)
      → app.id ≡ id
      → Here s
      → Here (record s { db = (update_app_status_err a.now app.id status text s.db).1 })
  status-Kept a app status text s i (o, r) =
      rw i
        (let (e, o', r') = update_app_status_err-found a.now id status text s.db r in (o' ∙ o, r'))

  says :
      (a : Answers) (app : App) (status : String) (text : Bytes) (s : Site)
      → app.id ≡ id
      → Here s
      → RowIs id
          (λ b. (b.status ≡ status) × (b.last_error ≡ bounded_error text))
          (update_app_status_err a.now app.id status text s.db).1
  says a app status text s i (o, r) = rw i (
      update_app_status_err-RowIs a.now id status text s.db {P = λ b. Unit {0}}
        {Q = λ b. (b.status ≡ status) × (b.last_error ≡ bounded_error text)}
        (λ b u. unfold with_status_err in (refl, refl)) (RowIs-of_HasRow id s.db r))

  go_live-Live : (a : Answers) (app : App) → app.id ≡ id → Ensures Up Live Left (go_live a app)
  unfolding go_live up_after bounded_error trim_space
  go_live-Live a app i =
      Ensures-seq {Q = Live}
        (Ensures-write a.mark_running a.error_text _
          (λ s. update_app_status_err a.now app.id "running" [])
          (λ s (h, u) e. (status-Kept a app "running" [] s i h, says a app "running" [] s i h, u))
          (λ s t h. h.0) (λ s t h. status-Kept a app "running" [] s i h.0))
        (Ensures-seq {Q = Live}
          (Ensures-assign _ (λ s (h, r, u).
            (h, r, up_after-append up s.events (stage "route" ∷ publish_route ∷ []) ∙ u)))
          (Ensures-attempt _ _ _ (λ s h. h) (λ s t h. h.0)))

  pub redeploy_phases-Live :
      (a : Answers) (app : App) → app.id ≡ id → Ensures Here Live Left (redeploy_phases a app)
  unfolding redeploy_phases
  redeploy_phases-Live a app i =
      Ensures-seq {Q = Here}
        (Ensures-write a.mark_pending a.error_text _
          (λ s. update_app_status_err a.now app.id "pending" [])
          (λ s h e. status-Kept a app "pending" [] s i h) (λ s t h. h)
          (λ s t h. status-Kept a app "pending" [] s i h))
        (Ensures-seq (inspect_source-Here a) (
          Ensures-seq (regenerate-Here a app)
            (Ensures-seq (replace_containers-Up a) (go_live-Live a app i))))
