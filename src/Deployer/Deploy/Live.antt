-- ===== src/Deployer/Deploy/Live.antt =====
-- The phases of deployGit from the tear-down to the route: what holds when a deploy gets to its end.
use space_elevator.Base.{
  arith, subst, sym, ◌≡◌, refl, ◌∙◌, String, Bool, true, false, Option, none, some, List, [], ◌∷◌,
  Bytes, Dict, Option-cases, trim_space,
}
use space_elevator.Store.Rows.{App, Operation}
use space_elevator.Store.Operations.{bounded_error}
use space_elevator.Store.Apps.{with_status_err, clear_current_release, update_app_status_err}
use space_elevator.Store.Apps.Rows.{
  RowIs, update_row-found, update_row-RowIs, update_app_status_err-found,
  update_app_status_err-RowIs,
}
use space_elevator.Deployer.Program.Rules.{
  Ensures, Ensures-attempt, Ensures-attempt_partly, Ensures-assign, Ensures-if, Ensures-seq,
}
use space_elevator.Deployer.Update.Kept.{Secrets}
use space_elevator.Deployer.Deploy.State.{
  write_row, Site, GitRequest, Answers, deploy, inspect, publish_route, stage,
}
use space_elevator.Deployer.Deploy.Request.{prev_release}
use space_elevator.Deployer.Deploy.Run.{
  Exit, is_stale, tear_down, start_containers, mark_running, publish, deploy_phases,
}
use space_elevator.Deployer.Deploy.Kept.{
  Owned, Ensures-write, Untouched, Untouched-Secrets, up_after, up_after-append,
}
use space_elevator.Deployer.Deploy.Held.{
  Left, Ready, fetch_source-Here, read_compose-Stored, set_secrets-Ready,
}

-- The release that a row points at behind the deploy.
abbrev pub release_after : Bool → Option String → Option String
release_after true release = none
release_after false release = release

pub no_error : bounded_error [] ≡ []
unfolding bounded_error trim_space
no_error = refl

-- What the row of a deployed app says.
abbrev pub Deployed : Option String → App → Type 0
Deployed release b = (b.status ≡ "running") × (b.last_error ≡ []) × (b.current_release_id ≡ release)

module _ (id : String) (ops : List Operation) (old : Dict Bytes) (release : Option String)
    (up : Bool) where
  abbrev Here : Site → Type 0
  Here = Owned id ops (Secrets old) release

  abbrev Up : Site → Type 0
  Up s = Ready id ops old release s × (up_after up s.events ≡ true)

  abbrev Cleared : Bool → Site → Type 0
  Cleared redeploying s =
      Here s
      × RowIs id (λ b. b.current_release_id ≡ release_after redeploying release) s.db
      × (up_after up s.events ≡ true)

  abbrev pub Live : Bool → Site → Type 0
  Live redeploying s =
      Here s
      × RowIs id (Deployed (release_after redeploying release)) s.db
      × (up_after up s.events ≡ true)

  tear_down-Ready :
      (a : Answers) (prev : Option App)
      → Ensures
          (Ready id ops old release)
          (Ready id ops old release)
          (Left id ops old release)
          (tear_down a prev)
  unfolding tear_down
  tear_down-Ready a none = Ensures-assign _ (λ s h. h)
  tear_down-Ready a (some p) =
      Ensures-seq {Q = Ready id ops old release} (Ensures-assign _ (λ s h. h))
        (Ensures-attempt _ _ _ (λ s h. h) (λ s t h. h.0))

  start_containers-Up :
      (a : Answers)
      → Ensures (Ready id ops old release) Up (Left id ops old release) (start_containers a)
  unfolding start_containers up_after
  start_containers-Up a =
      Ensures-seq {Q = Up}
        (Ensures-assign _ (λ s h. (h, up_after-append up s.events (stage "deploy" ∷ deploy ∷ []))))
        (Ensures-seq {Q = Up} (Ensures-attempt _ _ _ (λ s h. h) (λ s t h. h.0.0)) (
          Ensures-seq {Q = Up}
            (Ensures-assign _
              (λ s (h, u). (h, up_after-append up s.events (stage "verify" ∷ inspect ∷ []) ∙ u)))
            (Ensures-seq {Q = Up} (Ensures-attempt _ _ _ (λ s h. h) (λ s t h. h.0.0))
              (Ensures-attempt_partly _ _ _ _ (λ s h. h) (λ s t h. h.0.0)))))

  mark-Live :
      (a : Answers) (redeploying : Bool) (exit : Bytes → Exit)
      → Ensures (Cleared redeploying) (Live redeploying) (Left id ops old release) (λ s.
        write_row a.mark_running a.error_text exit
          (update_app_status_err a.now s.app.id "running" [])
          s)
  mark-Live a redeploying exit =
      Ensures-write a.mark_running a.error_text exit
        (λ s. update_app_status_err a.now s.app.id "running" [])
        (λ s h e. (kept s h, said s h, h.2)) (λ s t h. h.0) (λ s t h. kept s h)
    where
      kept :
          (s : Site)
          → Cleared redeploying s
          → Here (record s { db = (update_app_status_err a.now s.app.id "running" [] s.db).1 })
      kept s ((o, i, r, k, c), p, u) = rw i (
          let (e, o', r') = update_app_status_err-found a.now id "running" [] s.db r in
          (o' ∙ o, refl, r', k, c))

      said :
          (s : Site)
          → Cleared redeploying s
          → RowIs id
              (Deployed (release_after redeploying release))
              (update_app_status_err a.now s.app.id "running" [] s.db).1
      said s ((o, i, r, k, c), p, u) = rw i (
          update_app_status_err-RowIs a.now id "running" [] s.db
            {P = λ b. b.current_release_id ≡ release_after redeploying release}
            {Q = Deployed (release_after redeploying release)}
            (λ b e. unfold with_status_err in (refl, no_error, e)) p)

  clear-Cleared :
      (a : Answers) (exit : Bytes → Exit)
      → Ensures Up (Cleared true) (Left id ops old release) (λ s.
        write_row a.clear_release a.error_text exit (clear_current_release a.now s.app.id) s)
  unfolding clear_current_release
  clear-Cleared a exit =
      Ensures-write a.clear_release a.error_text exit (λ s. clear_current_release a.now s.app.id)
        (λ s h e. (kept s h, gone s h, h.1)) (λ s t h. h.0.0) (λ s t h. kept s h)
    where
      cleared : App → App
      cleared b = record b { current_release_id = none; updated_at = a.now }

      kept :
          (s : Site) → Up s → Here (record s { db = (clear_current_release a.now s.app.id s.db).1 })
      kept s (((o, i, r, k, c), p), u) = rw i (
          let (e, o', r') = update_row-found id cleared (λ x. refl) s.db r in
          (o' ∙ o, refl, r', k, c))

      gone :
          (s : Site)
          → Up s
          → RowIs id
              (λ b. b.current_release_id ≡ none)
              (clear_current_release a.now s.app.id s.db).1
      gone s (((o, i, r, k, c), p), u) = rw i (
          update_row-RowIs id cleared (λ x. refl) s.db {P = λ b. b.current_release_id ≡ release}
            {Q = λ b. b.current_release_id ≡ none} (λ b e. refl) p)

  publish-Live :
      (a : Answers) (redeploying : Bool)
      → Ensures (Live redeploying) (Live redeploying) (Left id ops old release) (publish a)
  unfolding publish up_after
  publish-Live a redeploying =
      Ensures-seq {Q = Live redeploying}
        (Ensures-assign _ (λ s (h, r, u).
          (h, r, up_after-append up s.events (stage "route" ∷ publish_route ∷ []) ∙ u)))
        (Ensures-attempt_partly _ _ _ _ (λ s h. h) (λ s t h. h.0))

module _ (id : String) (ops : List Operation) (old : Dict Bytes) (up : Bool)
    (prev : Option App) where
  abbrev found : Option String
  found = prev_release prev

  not_stale :
      (redeploying : Bool)
      → is_stale redeploying prev ≡ false
      → release_after redeploying found ≡ found
  not_stale false e = refl
  not_stale true e = ground (arith, Option-cases found)

  stale : (redeploying : Bool) → is_stale redeploying prev ≡ true → redeploying ≡ true
  stale redeploying e = ground arith

  mark_running-Live :
      (a : Answers) (redeploying : Bool)
      → Ensures
          (Up id ops old found up)
          (Live id ops old found up redeploying)
          (Left id ops old found)
          (mark_running a redeploying prev)
  unfolding mark_running
  mark_running-Live a redeploying =
      Ensures-seq {Q = Cleared id ops old found up redeploying}
        (Ensures-if (is_stale redeploying prev) _ _
          (λ e. rw (stale redeploying e) (clear-Cleared id ops old found up a _))
          (λ e. Ensures-assign _ (λ s ((h, p), u). (
            h,
            subst (λ x. RowIs id (λ b. b.current_release_id ≡ x) s.db)
                (sym (not_stale redeploying e)) p,
            u,
          ))))
        (mark-Live id ops old found up a redeploying _)

  -- A deploy that gets to its end has the row of a deployed app, and its containers up.
  pub deploy_phases-Live :
      (a : Answers) (redeploying : Bool) (req : GitRequest)
      → Ensures
          (Owned id ops (Untouched old) found)
          (Live id ops old found up redeploying)
          (Left id ops old found)
          (deploy_phases a redeploying req prev)
  unfolding deploy_phases
  deploy_phases-Live a redeploying req =
      let weaken = Untouched-Secrets old in
      Ensures-seq (fetch_source-Here id ops old found (Untouched old) weaken a) (
        Ensures-seq (read_compose-Stored id ops old found (Untouched old) weaken a) (
          Ensures-seq (set_secrets-Ready id ops old found a req) (
            Ensures-seq (tear_down-Ready id ops old found up a prev) (
              Ensures-seq (start_containers-Up id ops old found up a) (
                Ensures-seq (mark_running-Live a redeploying)
                  (publish-Live id ops old found up a redeploying))))))
