-- ===== src/Deployer/Deploy/Run.antt =====
-- deployer.go: deployGit from the row of the app to its result.
use space_elevator.Base.{
  String, str_eq, Bool, true, false, not, ◌&&◌, Option, none, some, List, [], ◌∷◌, ◌++◌,
  if◌then◌else◌, Bytes, bytes, insert, ◌⊎◌, inl, inr,
}
use space_elevator.Store.Rows.{App, Operation, Db, ok, err, Result}
use space_elevator.Store.Operations.{claim_operation, finish_operation}
use space_elevator.Store.Apps.{create_app, update_app, update_app_status_err, clear_current_release}
use space_elevator.Deployer.Program.{
  Answer, Outcome, next, leave, Program, ◌>>◌, attempt, attempt_partly, assign, verify_runtime,
}
use space_elevator.Deployer.Recovery.{redact_all}
use space_elevator.Deployer.Phases.{is_nil}
use space_elevator.Deployer.Deploy.State.{
  GitRequest, stage, clone, remove, deploy, inspect, sync_route, publish_route, remove_route, Site,
  Answers, happened, events_of, dropped, write_row,
}
use space_elevator.Deployer.Deploy.Request.{previous, refusal, new_app, prev_release}

-- How deployGit is left behind its claim.
pub data Exit : Type 0 where
  -- `return fail(err)`
  fail : Bytes → Exit
  -- the same, with the candidate removed and the route synced first
  clean_up : Bytes → Exit

abbrev pub Phase : Type 0
Phase = Program Site Exit

abbrev pub failing : String → Bytes → Exit
failing p e = fail (bytes p ++ e)

abbrev pub cleaning : String → Bytes → Exit
cleaning p e = clean_up (bytes p ++ e)

abbrev pub same : Site → Site
same s = s

unfoldable pub fetch_source : Answers → Phase
fetch_source a = do
  assign (happened (stage "clone"))
  attempt a.make_source_dir (failing "create source dir: ") same
  attempt a.clear_source_dir (failing "clear source dir: ") same
  assign (happened clone)
  attempt a.clone (failing "git clone: ") same

-- resolveCompose makes an app with a compose file of its own a "compose" app, functions excepted.
abbrev pub resolved : Answers → App → App
resolved a app =
    if a.has_compose && not (str_eq app.kind "function")
    then record app { build_mode = "compose" }
    else app

unfoldable pub read_compose : Answers → Phase
read_compose a = do
  assign (happened (stage "compose"))
  attempt a.resolve_compose (failing "") (λ s. record s { app = resolved a s.app })
  attempt a.parse (failing "compose parse: ") same
  attempt a.plan_storage (failing "storage preflight: ") same
  assign (λ s. record s { app = record (s.app) { compose_yaml = a.resolved_compose } })
  (λ s.
      write_row a.store_compose a.error_text (failing "persist compose: ") (update_app a.now s.app)
        s)

-- the loop of SetSecret
unfoldable pub store_secrets : Answers → List (String × Bytes) → Phase
store_secrets a [] = assign same
store_secrets a ((k, v) ∷ secrets) = do
  attempt (a.set_secret k) (λ e. fail (bytes "store secret " ++ (bytes k ++ (bytes ": " ++ e))))
      (λ s. record s { secrets = insert k v s.secrets })
  store_secrets a secrets

-- the snapshot, if there is a secret to write, and the secrets
unfoldable pub save_secrets : Answers → List (String × Bytes) → Phase
unfolding store_secrets
save_secrets a secrets = do
  if is_nil secrets
      then assign same
      else attempt a.get_secrets (failing "") (λ s. record s { snapshot = some s.secrets })
  store_secrets a secrets

unfoldable pub set_secrets : Answers → GitRequest → Phase
unfolding save_secrets
set_secrets a req = do save_secrets a req.secrets; attempt a.load_env (failing "load env: ") same

unfoldable pub tear_down : Answers → Option App → Phase
tear_down a none = assign same
tear_down a (some p) = do
  assign (happened remove)
  attempt a.remove_previous (failing "remove previous deployment: ") same

-- `action == audit.ActionAppRedeploy && prev != nil && prev.CurrentReleaseID != ""`
abbrev pub is_stale : Bool → Option App → Bool
is_stale redeploying prev = redeploying && elim (prev_release prev) [ none ↦ false | some r ↦ true ]

unfoldable pub start_containers : Answers → Phase
start_containers a = do
  assign (events_of (stage "deploy" ∷ deploy ∷ []))
  attempt a.deploy (cleaning "deploy failed: ") same
  assign (events_of (stage "verify" ∷ inspect ∷ []))
  attempt (verify_runtime a.status a.status_is) (cleaning "verify release: ") same
  attempt_partly a.persist_storage (cleaning "persist storage: ")
      (λ s. record s { storage = a.storage_planned }) (λ s. record s { storage = a.storage_partly })

unfoldable pub mark_running : Answers → Bool → Option App → Phase
mark_running a redeploying prev = do
  if is_stale redeploying prev
      then (λ s.
          write_row a.clear_release a.error_text (cleaning "clear stale current release: ")
            (clear_current_release a.now s.app.id) s)
      else assign same
  (λ s.
      write_row a.mark_running a.error_text (cleaning "persist app status: ")
        (update_app_status_err a.now s.app.id "running" []) s)

-- applyRoute: a route that cannot be published is removed
unfoldable pub publish : Answers → Phase
publish a = do
  assign (events_of (stage "route" ∷ publish_route ∷ []))
  attempt_partly a.apply_route (failing "publish route: ") same (happened remove_route)

unfoldable pub deploy_phases : Answers → Bool → GitRequest → Option App → Phase
deploy_phases a redeploying req prev = do
  fetch_source a
  read_compose a
  set_secrets a req
  tear_down a prev
  start_containers a
  mark_running a redeploying prev
  publish a

-- restoreDeploySecrets, with what its failure adds to the error
unfoldable pub restore_secrets : Answers → Bytes → Site → Bytes × Site
restore_secrets a e s = elim s.snapshot [
  | none ↦ (e, s)
  | some old ↦ elim a.restore_secrets [
    | none ↦ (e, record s { secrets = old })
    | some x ↦ (
      e ++ (bytes " (secret rollback failed: " ++ (x ++ bytes ")")),
      record s { secrets = a.secrets_after_failure },
    )
  ]
]

abbrev pub finished_row : Answers → String → String → Bytes → Db → Result (Unit {0}) × Db
finished_row a id status text = finish_operation a.now id status text

-- `fail`
unfoldable pub fail_deploy : Answers → GitRequest → String → Bytes → Site → Bytes × Site
unfolding restore_secrets
fail_deploy a req operation_id e s =
    let (e', s₁) = restore_secrets a e s in
    let text = redact_all req.secrets e' in
    let s₂ = dropped a.fail_row (update_app_status_err a.now s.app.id "error" text) s₁ in
    (text, dropped a.finish (finished_row a operation_id "failed" text) s₂)

abbrev failed_with : Bytes × Site → Option Bytes × Site
failed_with (e, s) = (some e, s)

unfoldable pub conclude : Answers → GitRequest → String → Outcome Exit × Site → Option Bytes × Site
unfolding fail_deploy
conclude a req operation_id (next, s) = (
  none,
  dropped a.finish (finished_row a operation_id "completed" []) (record s { snapshot = none }),
)
conclude a req operation_id (leave (fail e), s) = failed_with (fail_deploy a req operation_id e s)
conclude a req operation_id (leave (clean_up e), s) =
    failed_with (fail_deploy a req operation_id e (events_of (remove ∷ sync_route ∷ []) s))

abbrev pub row_made : Answers → String → App → Site → Result (Unit {0}) × Db → Answer × Site
row_made a p app s (ok u, db) = (none, record s { db = db; app = app })
row_made a p app s (err x, db) = (some (bytes p ++ a.error_text x), record s { db = db })

abbrev pub row_write : Answers → Option App → App → Db → Result (Unit {0}) × Db
row_write a none app = create_app a.now app
row_write a (some p) app = update_app a.now app

abbrev pub row_prefix : Option App → String
row_prefix none = "create app row: "
row_prefix (some p) = "update app row: "

-- the row of the app is made, or made anew
unfoldable pub store_row : Answers → Option App → App → Site → Answer × Site
store_row a prev app s = elim a.store_row [
  | some e ↦ (some (bytes (row_prefix prev) ++ e), s)
  | none ↦ row_made a (row_prefix prev) app s (row_write a prev app s.db)
]

-- ClaimAppOperation
abbrev pub app_operation : String → String → Operation
app_operation app_id action = record {
  id = "";
  app_id = app_id;
  operation_type = action;
  status = "";
  current_step = "";
  attempt = 0;
  previous_release_id = "";
  candidate_release_id = "";
  heartbeat_at = none;
  error = [];
  created_at = 0;
  started_at = none;
  completed_at = none;
}

abbrev pub claim_made : Answers → Site → Result Operation × Db → (Bytes ⊎ Operation) × Site
claim_made a s (ok o, db) = (inr o, record s { db = db })
claim_made a s (err x, db) = (inl (a.error_text x), record s { db = db })

-- The operation that owns the deploy: the one that the caller has claimed, or a new one.
unfoldable pub own_operation :
    Answers → String → Option Operation → Site → (Bytes ⊎ Operation) × Site
own_operation a action (some o) s =
    if str_eq o.app_id s.app.id
    then (inr o, s)
    else (inl (bytes "deploy operation belongs to another app"), s)
own_operation a action none s = elim a.claim [
  | some e ↦ (inl e, s)
  | none ↦
      claim_made a s (claim_operation a.now a.operation_id (app_operation s.app.id action) s.db)
]

abbrev pub action_of : Bool → String
action_of redeploying = if redeploying then "app.redeploy" else "app.deploy"

unfoldable pub run_owned :
    Answers → Bool → GitRequest → Option App → (Bytes ⊎ Operation) × Site → Option Bytes × Site
unfolding conclude
run_owned a redeploying req prev (inl e, s) = (some e, s)
run_owned a redeploying req prev (inr o, s) =
    conclude a req o.id (deploy_phases a redeploying req prev s)

unfoldable pub after_row :
    Answers
    → Bool
    → GitRequest
    → Option App
    → Option Operation
    → Answer × Site
    → Option Bytes × Site
unfolding run_owned
after_row a redeploying req prev claimed (some e, s) = (some e, s)
after_row a redeploying req prev claimed (none, s) =
    run_owned a redeploying req prev (own_operation a (action_of redeploying) claimed s)

-- deployGit: `none` is success, else the error that it returns.
unfoldable pub deploy_git :
    Answers → Bool → GitRequest → Option Operation → Site → Option Bytes × Site
unfolding after_row
deploy_git a redeploying req claimed s =
    let prev = previous a req s.db in
    elim (refusal a redeploying req prev) [
      | some e ↦ (some e, s)
      | none ↦ after_row a redeploying req prev claimed (store_row a prev (new_app a req prev) s)
    ]
