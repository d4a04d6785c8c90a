-- ===== src/Store/Tests.antt =====
-- The tables of internal/store on concrete rows.
use space_elevator.Base.{
  ℕ, ◌+◌, ◌<◌, str_eq, inl, inr, Bool-cases, sift, ◌≡◌, ◌≢◌, refl, ◌↔◌, String, true, false, some,
  none, List, [], ◌∷◌, ◌++◌, map, Bytes, bytes, arith, eq_iff, Dict, lookup, tally, take, drop,
  length, All, first, ltb, trim_space, if◌then◌else◌,
}
use space_elevator.Store.Rows.{App, Operation, DeployLog, Db, ok, err, conflict, Error}
use space_elevator.Store.Operations.{
  is_active, any_active, has_id, active_of, claim_operation, claimed_row, finish_operation,
  end_status, get_operation, active_operation, has_active_operation, has_any_active_operation,
  max_attempt, interrupt_active_operations,
}
use space_elevator.Store.Operations.Exclusive
use space_elevator.Store.Operations.Commands.{
  Command, claim, finish, set_status, interrupt, delete, run, run-IsValid,
}
use space_elevator.Store.Operations.Terminal.{run-terminal}
use space_elevator.Store.Operations.Ownership.{claim_operation_iff, claim_operation-owns, app_rows}
use space_elevator.Store.Operations.Release.{cut_error, finish_operation-releases}
use space_elevator.Store.Operations.Restart.{interrupt_active_operations-lem}
use space_elevator.Store.Secrets.{
  SecretTable, app_there, get_secrets, replace_secrets, load_runtime_env,
}
use space_elevator.Store.Secrets.Merge.{load_runtime_env-secrets}
use space_elevator.Store.Secrets.Replace
use space_elevator.Store.Logs.{append_deploy_log, list_deploy_logs, page_limit}
use space_elevator.Store.Logs.Paging
use space_elevator.Store.Apps.{app_id_is, get_app, valid_env_key, has_nul}
use space_elevator.Store.Apps.Identity.{
  Write, create, rename, set_env, set_current, set_status as app_status, write_all, write_all-slug,
}

abbrev blog : App
blog = record {
  id = "a1";
  name = "blog";
  slug = "blog";
  source_type = "git";
  source_ref = [];
  git_ref = [];
  drop_kind = "";
  compose_yaml = [];
  env = [];
  current_release_id = none;
  status = "running";
  last_error = [];
  build_mode = "compose";
  builder_image = "";
  build_command = "";
  run_command = "";
  serve_path = "";
  listen_port = 0;
  kind = "web";
  runtime = "";
  runtime_version = "";
  entrypoint = "";
  scale_to_zero = false;
  idle_timeout = 0;
  last_invoked_at = 0;
  created_at = 1;
  updated_at = 1;
}

abbrev operation : String → String → Operation
operation id status = record {
  id = id;
  app_id = "a1";
  operation_type = "update";
  status = status;
  current_step = "";
  attempt = 1;
  previous_release_id = "";
  candidate_release_id = "";
  heartbeat_at = some 5;
  error = [];
  created_at = 5;
  started_at = none;
  completed_at = none;
}

abbrev idle : Db
idle = record { apps = blog ∷ []; operations = []; steps = []; logs = [] }

abbrev busy : Db
busy = record idle { operations = operation "o1" "building" ∷ [] }

abbrev over : Db
over = record idle { operations = operation "o1" "completed" ∷ [] }

idle-IsValid : Exclusive.IsValid idle
unfolding tally
idle-IsValid = record { one_active = λ a. ground arith; one_row = λ i. ground arith }

busy-IsValid : Exclusive.IsValid busy
unfolding tally
busy-IsValid = record { one_active = λ a. ground arith; one_row = λ i. ground arith }

over-IsValid : Exclusive.IsValid over
unfolding tally
over-IsValid = record { one_active = λ a. ground arith; one_row = λ i. ground arith }

abbrev two_claims : List Command
two_claims =
    claim 7 "o2" 2 (operation "" "") ∷ claim 8 "o3" 2 (operation "" "") ∷ finish 9 "o2" "" [] ∷ []

run-IsValid_example : Exclusive.IsValid (run two_claims idle)
run-IsValid_example = run-IsValid two_claims idle idle-IsValid

abbrev late_writes : List Command
late_writes =
    finish 9 "o1" "failed" []
    ∷ set_status 10 "o1" "building"
    ∷ interrupt 11
    ∷ claim 12 "o2" 2 (operation "" "")
    ∷ delete "a2"
    ∷ []

found-over : get_operation "o1" over ≡ ok (operation "o1" "completed")
unfolding get_operation first
found-over = refl

completed-inactive : is_active "completed" ≡ false
unfolding is_active
completed-inactive = refl

run-terminal_example : get_operation "o1" (run late_writes over) ≡ ok (operation "o1" "completed")
run-terminal_example =
    run-terminal late_writes over "o1" (operation "o1" "completed") over-IsValid found-over
      completed-inactive (tt, (tt, (tt, (tt, (λ e. cc ((eq_iff "a1" "a2").1 e), tt)))))

claim_operation_iff_example :
    (((row : Operation) × ((claim_operation 7 "o2" (operation "" "") busy).0 ≡ ok row)) ↔ (
      (0 < app_rows "a1" busy)
      × (has_active_operation "a1" busy ≡ false)
      × (tally (has_id "o2") busy.operations ≡ 0)))
    × ((e : Error)
        → (claim_operation 7 "o2" (operation "" "") busy).0 ≡ err e
        → (claim_operation 7 "o2" (operation "" "") busy).1 ≡ busy)
claim_operation_iff_example = claim_operation_iff 7 "o2" (operation "" "") busy

abbrev claimed : Operation
claimed = claimed_row 7 "o2" 2 (operation "" "")

claimed-over : (claim_operation 7 "o2" (operation "" "") over).0 ≡ ok claimed
unfolding claim_operation max_attempt tally is_active
claimed-over = refl

claim_operation-owns_example :
    let db' = (claim_operation 7 "o2" (operation "" "") over).1 in
    (active_operation "a1" db' ≡ ok claimed)
    × (claimed.status ≡ "preflighting")
    × All (λ o. o.app_id ≡ "a1" → o.attempt < claimed.attempt) over.operations
    × ((later : ℕ) (other : String) (op' : Operation)
        → op'.app_id ≡ "a1"
        → claim_operation later other op' db' ≡ (err conflict, db'))
claim_operation-owns_example =
    claim_operation-owns 7 "o2" (operation "" "") over claimed claimed-over

found-busy : get_operation "o1" busy ≡ ok (operation "o1" "building")
unfolding get_operation first
found-busy = refl

building-active : is_active "building" ≡ true
unfolding is_active
building-active = refl

failed-ends : is_active (end_status "failed") ≡ false
unfolding is_active
failed-ends = refl

finish_operation-releases_example :
    let (answer, db') = finish_operation 9 "o1" "failed" [] busy in
    (answer ≡ ok tt)
    × (get_operation "o1" db'
        ≡ ok (record (operation "o1" "building") {
          status = "failed";
          error = cut_error (trim_space []);
          completed_at = some 9;
        }))
    × (has_active_operation "a1" db' ≡ false)
    × ((later : ℕ) (status' : String) (message' : Bytes)
        → finish_operation later "o1" status' message' db' ≡ (ok tt, db'))
finish_operation-releases_example =
    finish_operation-releases 9 "o1" "failed" [] busy (operation "o1" "building") busy-IsValid
      found-busy building-active failed-ends

interrupt_active_operations-lem_example :
    let db' = interrupt_active_operations 11 busy in
    let reason = bytes "deployment interrupted by service restart" in
    (db'.operations
      ≡ map
          (λ (o : Operation).
            if any_active o
            then record o { status = "interrupted"; error = reason; completed_at = some 11 }
            else o)
          busy.operations)
    × (db'.apps
        ≡ map
            (λ (a : App).
              if ltb 0 (tally (active_of a.id) busy.operations)
              then record a { status = "error"; last_error = reason; updated_at = 11 }
              else a)
            busy.apps)
    × (has_any_active_operation db' ≡ false)
interrupt_active_operations-lem_example = interrupt_active_operations-lem 11 busy busy-IsValid

abbrev line : ℕ → DeployLog
line sequence = record {
  operation_id = "o1";
  sequence = sequence;
  step = "build";
  level = "info";
  message = bytes "ok";
  created_at = 6;
}

abbrev logged : Db
logged = record busy { logs = line 1 ∷ line 2 ∷ line 3 ∷ [] }

logged-IsValid : Paging.IsValid logged
unfolding sift
logged-IsValid = record {
  numbered = λ i. elim (Bool-cases (str_eq "o1" i)) [
    | inl e ↦ rw e (refl, (refl, (refl, tt)))
    | inr e ↦ rw e tt
  ];
}

append_deploy_log-IsValid_example :
    Paging.IsValid (append_deploy_log 8 "o1" "build" "info" (bytes "more") logged).1
append_deploy_log-IsValid_example =
    Paging.append_deploy_log-IsValid 8 "o1" "build" "info" (bytes "more") logged logged-IsValid

list_deploy_logs-slice_example : list_deploy_logs "o1" 1 1 logged ≡ (
  take (page_limit 1) (drop 1 (Paging.log_lines "o1" logged)),
  length (Paging.log_lines "o1" logged),
)
list_deploy_logs-slice_example = Paging.list_deploy_logs-slice "o1" 1 1 logged logged-IsValid

three_lines : length (Paging.log_lines "o1" logged) ≡ 3
unfolding sift
three_lines = refl

poll_complete_example :
    let (lines, latest) = list_deploy_logs "o1" 1 0 logged in
    (take 1 (Paging.log_lines "o1" logged) ++ lines ≡ Paging.log_lines "o1" logged)
    × (latest ≡ length (Paging.log_lines "o1" logged))
poll_complete_example =
    Paging.poll_complete "o1" 1 0 logged logged-IsValid (omega (arith, three_lines))

poll-loses_example :
    let (lines, latest) = list_deploy_logs "o1" 1 1 logged in
    ((list_deploy_logs "o1" latest 1 logged).0 ≡ [])
    × (1 + length lines < length (Paging.log_lines "o1" logged))
poll-loses_example = Paging.poll-loses "o1" 1 1 logged logged-IsValid (omega (arith, three_lines))

abbrev writes : List Write
writes =
    rename 8 "a1" "diary"
    ∷ app_status 9 "a1" "stopped"
    ∷ set_env 9 "a1" ((bytes "PORT", bytes "80") ∷ [])
    ∷ set_current 9 "a1" "r1" (some "a1")
    ∷ create 10 (record blog { id = "a2" })
    ∷ []

found-blog : first (app_id_is "a1") idle.apps ≡ some blog
unfolding first
found-blog = refl

blog-slug : blog.slug ≢ ""
blog-slug e = cc ((eq_iff "blog" "").1 e)

write_all-slug_example :
    (b : App) × (get_app "a1" (write_all writes idle) ≡ ok b) × (b.id ≡ "a1") × (b.slug ≡ "blog")
write_all-slug_example = write_all-slug "a1" writes idle blog found-blog blog-slug

abbrev vault : SecretTable
vault = record {
  rows =
      record { app_id = "a1"; key = "TOKEN"; value = bytes "new" }
      ∷ record { app_id = "a1"; key = "EXTRA"; value = bytes "x" }
      ∷ record { app_id = "a2"; key = "TOKEN"; value = bytes "other" }
      ∷ [];
  apps = "a1" ∷ "a2" ∷ [];
}

abbrev snapshot : Dict Bytes
snapshot = ("TOKEN", bytes "old") ∷ []

vault-there : app_there "a1" vault ≡ true
unfolding tally
vault-there = refl

snapshot-IsStorable : Replace.IsStorable ("TOKEN", bytes "old")
unfolding valid_env_key has_nul
snapshot-IsStorable = (refl, refl)

snapshot-IsMap : Replace.IsMap snapshot
unfolding lookup
snapshot-IsMap = (refl, tt)

replace_secrets-restores_example :
    let (answer, t') = replace_secrets "a1" snapshot vault in
    (answer ≡ ok tt)
    × ((k : String) → lookup k (get_secrets "a1" t') ≡ lookup k snapshot)
    × ((a k : String) → a ≢ "a1" → lookup k (get_secrets a t') ≡ lookup k (get_secrets a vault))
replace_secrets-restores_example =
    Replace.replace_secrets-restores "a1" snapshot vault vault-there (snapshot-IsStorable, tt)
      snapshot-IsMap

abbrev plain : Dict Bytes
plain = ("TOKEN", bytes "plain") ∷ ("MODE", bytes "prod") ∷ []

plain-IsMap : Replace.IsMap plain
unfolding lookup
plain-IsMap = (refl, (refl, tt))

load_runtime_env-secrets_example :
    lookup "TOKEN" (load_runtime_env "a1" plain vault)
    ≡ Replace.or_else (lookup "TOKEN" (get_secrets "a1" vault)) (lookup "TOKEN" plain)
load_runtime_env-secrets_example = load_runtime_env-secrets "a1" "TOKEN" plain vault plain-IsMap
