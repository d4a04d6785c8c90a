-- ===== src/Deployer/Deploy/Honest.antt =====
-- How deployGit ends, whatever call fails.
use space_elevator.Base.{
  tally, ◌<◌, ◌≡◌, refl, sym, subst, ◌∙◌, ap, String, Bool, false, Option, Option-cases, none, some,
  inl, inr, ◌⊎◌, Bytes, arith,
}
use space_elevator.Store.Rows.{App, Operation}
use space_elevator.Store.Operations.Exclusive.{IsValid}
use space_elevator.Store.Apps.{app_id_is}
use space_elevator.Store.Apps.Rows.{HasRow}
use space_elevator.Deployer.Program.{Answer}
use space_elevator.Deployer.Deploy.State.{Site, GitRequest, Answers}
use space_elevator.Deployer.Deploy.Request.{previous, refusal, new_app, prev_release, build_columns}
use space_elevator.Deployer.Deploy.Run.{
  deploy_phases, store_row, own_operation, run_owned, after_row, action_of, deploy_git, conclude,
}
use space_elevator.Deployer.Deploy.Kept.{Owned, Untouched}
use space_elevator.Deployer.Deploy.Live.{release_after, deploy_phases-Live}
use space_elevator.Deployer.Deploy.Ends.{Runs, IsValid-same, Result, conclude-Ends}
use space_elevator.Deployer.Deploy.Owner.{
  SameRest, Rowed, store_row-Rowed, Claimed, IsOwner, Owning, own_operation-Owning, Claimed-same,
}

new_app-release :
    (a : Answers) (req : GitRequest) (prev : Option App)
    → (new_app a req prev).current_release_id ≡ prev_release prev
unfolding new_app build_columns
new_app-release a req prev = ground arith

-- Nothing is claimed or called, and no secret is written.
abbrev Refused : Site → Site → Type 0
Refused s s' =
    (s'.db.operations ≡ s.db.operations) × (s'.secrets ≡ s.secrets) × (s'.events ≡ s.events)

-- An operation of the app owns the run, and ends with it.
abbrev Owns :
    Answers → Option Operation → String → Option String → Site → Option Bytes × Site → Type 0
Owns a claimed id release s r =
    (o : Operation) × IsOwner a claimed o × (o.app_id ≡ id) × Result a o s.secrets release false r

abbrev pub Verdict :
    Answers → Option Operation → String → Option String → Site → Option Bytes × Site → Type 0
Verdict a claimed id release s (none, s') = Owns a claimed id release s (none, s')
Verdict a claimed id release s (some e, s') =
    Refused s s' ⊎ Owns a claimed id release s (some e, s')

Owns-Verdict :
    (a : Answers) (claimed : Option Operation) (id : String) (release : Option String) (s : Site)
    (r : Option Bytes × Site)
    → Owns a claimed id release s r
    → Verdict a claimed id release s r
Owns-Verdict a claimed id release s (none, s') h = h
Owns-Verdict a claimed id release s (some e, s') h = inr h

module _ (a : Answers) (redeploying : Bool) (req : GitRequest) (claimed : Option Operation)
    (s₀ : Site) (finishes : a.finish ≡ none) (fails : a.fail_row ≡ none)
    (restores : a.restore_secrets ≡ none) where
  abbrev prev : Option App
  prev = previous a req s₀.db

  abbrev app : App
  app = new_app a req prev

  abbrev release : Option String
  release = release_after redeploying (prev_release prev)

  abbrev Verdict₀ : Option Bytes × Site → Type 0
  Verdict₀ = Verdict a claimed app.id release s₀

  -- The run behind the claim.
  owned :
      (o : Operation) (s : Site)
      → IsOwner a claimed o
      → o.app_id ≡ app.id
      → Runs o s.db
      → IsValid s.db
      → s.app ≡ app
      → HasRow app.id s.db
      → (s.snapshot ≡ none) × (s.secrets ≡ s₀.secrets)
      → Verdict₀ (conclude a req o.id (deploy_phases a redeploying req prev s))
  owned o s owner id runs valid same row untouched =
      let start : Owned o.app_id s.db.operations (Untouched s₀.secrets) (prev_release prev) s = (
        refl,
        ap (λ x. x.id) same ∙ sym id,
        subst (λ i. HasRow i s.db) (sym id) row,
        untouched,
        ap (λ x. x.current_release_id) same ∙ new_app-release a req prev,
      ) in
      let live =
        deploy_phases-Live o.app_id s.db.operations s₀.secrets false prev a redeploying req in
      Owns-Verdict a claimed app.id release s₀ _ (
        o,
        owner,
        id,
        conclude-Ends a o s₀.secrets (prev_release prev) s.db valid runs req redeploying false
            (deploy_phases a redeploying req prev s) finishes fails restores (live.at s start),
      )

  run_owned-Verdict :
      (s : Site) (x : (Bytes ⊎ Operation) × Site)
      → SameRest s₀ s
      → s₀.snapshot ≡ none
      → s.app ≡ app
      → HasRow app.id s.db
      → Owning a claimed s x
      → Verdict₀ (run_owned a redeploying req prev x)
  unfolding run_owned
  run_owned-Verdict s (inl e, s') (o, k, v, n) fresh same row (o', k', v', n') =
      inl (o' ∙ o, k' ∙ k, v' ∙ v)
  run_owned-Verdict s (inr c, s') (o, k, v, n) fresh same row
        (owner, id, runs, valid, apps, same', k', v', n') =
      owned c s' owner (id ∙ ap (λ x. x.id) same) runs valid (same' ∙ same)
        (subst (λ rows. 0 < tally (app_id_is app.id) rows) (sym apps) row)
        (n' ∙ (n ∙ fresh), k' ∙ k)

  after_row-Verdict :
      (x : Answer × Site)
      → IsValid s₀.db
      → Claimed claimed s₀.db
      → s₀.snapshot ≡ none
      → Rowed s₀ app x
      → Verdict₀ (after_row a redeploying req prev claimed x)
  unfolding after_row
  after_row-Verdict (some e, s) valid runs fresh (o, k, v, n) = inl (o, k, v)
  after_row-Verdict (none, s) valid runs fresh ((o, k, v, n), same, row) =
      run_owned-Verdict s (own_operation a (action_of redeploying) claimed s) (o, k, v, n) fresh
        same row
        (own_operation-Owning a (action_of redeploying) claimed s (IsValid-same s₀.db s.db o valid)
          (Claimed-same claimed s₀.db s.db o runs))

  -- A deploy or a redeploy from git, in which any calls and writes fail but the two writes that record
  -- the end and the restore of the secrets, whether the caller has claimed the app or not: if it
  -- succeeds, an operation of the app (the claimed one, or a new one) is "completed", the app is free
  -- again, its row is "running" with no error and, behind a redeploy, with no current release, and
  -- the containers are up. If it fails, then either nothing was claimed or called and no secret was
  -- written; or the operation is "failed" with the error that is returned, the app is free again, its
  -- row is in "error" with that error, and the secrets are those that were found.
  pub deploy_git-Verdict :
      IsValid s₀.db
      → Claimed claimed s₀.db
      → s₀.snapshot ≡ none
      → Verdict₀ (deploy_git a redeploying req claimed s₀)
  unfolding deploy_git
  deploy_git-Verdict valid runs fresh = elim (Option-cases (refusal a redeploying req prev)) [
    | inr (e, p) ↦ rw (p, deploy_git) (inl (refl, refl, refl))
    | inl p ↦
        rw (p, deploy_git)
          (after_row-Verdict (store_row a prev app s₀) valid runs fresh
            (store_row-Rowed a prev app s₀))
  ]
