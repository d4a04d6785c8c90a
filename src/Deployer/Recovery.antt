-- ===== src/Deployer/Recovery.antt =====
-- update.go: the closures through which a failed update is left, and updateFailure.
use mathlib.Core.Option
use space_elevator.Base.{
  ℕ, zero, suc, ◌-◌, String, str_eq, Bool, true, not, Option, none, some, List, [], ◌∷◌, ◌++◌,
  if◌then◌else◌, length, Bytes, bytes, is_empty, has_prefix, has_part,
}
use space_elevator.Store.Rows.{App}
use space_elevator.Store.Operations.{is_active, finished, bounded_error}
use space_elevator.Store.Apps.{stored_app, with_status_err}
use space_elevator.Deployer.State.{
  UpdateRequest, AppRelease, Recovery, World, Answers, start, stop, remove, redeploy, inspect,
  sync_route, made,
}
use space_elevator.Deployer.Program.{prefixed, Answer}

-- strings.ReplaceAll with a non-empty `value`; `skip` bytes of an occurrence are left to pass over.
replace_from : Bytes → Bytes → ℕ → Bytes → Bytes
replace_from value new skip [] = []
replace_from value new (suc skip) (c ∷ s) = replace_from value new skip s
replace_from value new zero (c ∷ s) =
    let hit = new ++ replace_from value new (length value - 1) s in
    let miss = c ∷ replace_from value new zero s in if has_prefix value (c ∷ s) then hit else miss

-- redactErrorValue
unfoldable pub redact : Bytes → Bytes → Bytes
unfolding replace_from
redact value text = if is_empty value then text else replace_from value (bytes "[redacted]") 0 text

unfoldable pub redact_all : List (String × Bytes) → Bytes → Bytes
unfolding redact
redact_all [] text = text
redact_all ((k, v) ∷ secrets) text = redact_all secrets (redact v text)

-- restoreSecretsForRollback; a failed restore leaves secrets of which nothing is known
unfoldable pub restore_secrets : Answers → Answer → World → Answer × World
restore_secrets a answer w = elim w.snapshot [
  | none ↦ (none, w)
  | some snapshot ↦ if w.secrets_restored then (none, w) else elim answer [
    | none ↦ (none, record w { secrets = snapshot; secrets_restored = true })
    | some e ↦ (some e, record w { secrets = a.secrets_after_failure })
  ]
]

-- FinishOperation through the closure `finish`: a failed write is only logged.
unfoldable pub finish_update : Answers → String → Bytes → World → World
finish_update a status message w = elim a.finish [
  | none ↦
      if is_active w.operation.status
      then record w { operation = finished a.now status message w.operation }
      else w
  | some e ↦ w
]

unfoldable pub failed_release : Answers → Bytes → AppRelease → AppRelease
failed_release a text r = record r {
  status = "failed";
  last_error = bounded_error text;
  completed_at = some a.now;
}

abbrev pub rollback_failed : Bytes
rollback_failed = bytes "rollback failed"

-- the `switch` of updateFailure
unfoldable pub failure_status : Option Recovery → Bytes → String × String × Bytes
failure_status (some r) text = (r.operation_status, r.app_status, [])
failure_status none text =
    (if has_part rollback_failed text then "rollback_failed" else "failed", "error", text)

-- the writes to the release and to the app ignore their errors
unfoldable pub write_failure : Answers → Bool → Bytes → String → Bytes → World → World
unfolding failed_release
write_failure a has_release text app_status app_error w =
    let w' : World = elim a.fail_release [
      | none ↦
          if has_release
          then record w { release = Option.map (failed_release a text) w.release }
          else w
      | some e ↦ w
    ] in
    elim a.fail_app [
      | none ↦ record w' { app = with_status_err a.now app_status app_error w'.app }
      | some e ↦ w'
    ]

unfoldable pub update_failure : Answers → Bool → Bytes → Option Recovery → World → World
unfolding failure_status write_failure finish_update
update_failure a has_release text recovered w =
    let (operation_status, app_status, app_error) = failure_status recovered text in
    finish_update a operation_status text (write_failure a has_release text app_status app_error w)

-- failUpdate: the error is redacted, the secrets are put back if nobody has yet, and a failure of
-- that takes the recovery back. The result is the error that Update returns.
unfoldable pub fail_update :
    Answers → UpdateRequest → Answer → Bool → Bytes → Option Recovery → World → Bytes × World
unfolding redact_all restore_secrets update_failure
fail_update a req answer has_release error recovered w =
    let text = redact_all req.secrets error in
    let (failed, w') = restore_secrets a answer w in
    elim failed [
      | none ↦ (text, update_failure a has_release text recovered w')
      | some e ↦
          let text' = text ++ (bytes " (secret rollback failed: " ++ (e ++ bytes ")")) in
          (text', update_failure a has_release text' none w')
    ]

abbrev pub restored_running : Recovery
restored_running = record {
  operation_status = "rolled_back";
  app_status = "running";
  suffix = bytes " (previous release restored)";
}

abbrev pub left_stopped : Recovery
left_stopped = record {
  operation_status = "rolled_back";
  app_status = "stopped";
  suffix = bytes " (app left stopped as found)";
}

-- The call of `restartPrevious`, made only by an update that stopped the app.
unfoldable pub restart_previous : Answers → World → Answer × World
restart_previous a w = if w.we_stopped then (a.restart, made start w) else (none, w)

unfoldable pub resume_previous : Answers → UpdateRequest → Bytes → Bytes → World → Bytes × World
unfolding fail_update restore_secrets restart_previous
resume_previous a req cause error w =
    let (secret_error, w₁) = restore_secrets a a.restore_secrets w in
    let (restart_error, w₂) = restart_previous a w₁ in
    let give_up = λ (marker e : Bytes).
      fail_update a req a.restore_secrets_again true
        (cause ++ (bytes ": " ++ (error ++ (marker ++ e)))) none w₂ in
    let recovered = if w.we_stopped then restored_running else left_stopped in
    elim secret_error [
      | some e ↦ give_up (bytes "; secret rollback failed: ") e
      | none ↦ elim restart_error [
        | some e ↦ give_up (bytes "; restart previous: ") e
        | none ↦
            fail_update a req a.restore_secrets_again true
              (cause ++ (bytes ": " ++ (error ++ recovered.suffix))) (some recovered) w₂
      ]
    ]

-- rollbackUpdate
abbrev running_or : Answer → String → Bytes → Bytes → Answer
running_or (some e) status before behind = some e
running_or none status before behind =
    if str_eq status "running" then none else some (before ++ (bytes status ++ behind))

unfoldable pub rollback_update : Answers → World → Answer × World
rollback_update a w =
    let w₁ = made remove w in
    let w₂ = made redeploy w₁ in
    let w₃ = made inspect w₂ in
    if not a.old_available
    then (some (bytes "previous release source is unavailable"), w)
    else elim a.rollback_remove [
      | some e ↦ (some (bytes "remove candidate containers: " ++ e), w₁)
      | none ↦ elim a.rollback_env [
        | some e ↦ (some e, w₁)
        | none ↦ elim a.rollback_deploy [
          | some e ↦ (some e, w₂)
          | none ↦ (
            running_or a.rollback_status a.rollback_status_is (bytes "previous release is ")
                (bytes " after rollback"),
            w₃,
          )
        ]
      ]
    ]

-- restoreStorageState
unfoldable pub restore_storage : Answers → World → Answer × World
restore_storage a w = elim a.restore_storage [
  | none ↦ (none, record w { storage = w.old_storage })
  | some e ↦ (some e, record w { storage = a.storage_after_failure })
]

-- restoreAppState, and SyncRoute where it succeeds; `app` is the row as the update read it
unfoldable pub restore_app : Answers → App → World → Answer × World
restore_app a app w =
    let w₁ = record w { app = stored_app a.now app w.app } in
    let w₂ = record w₁ { app = record (w₁.app) { current_release_id = app.current_release_id } } in
    elim a.restore_app [
      | some e ↦ (some e, w)
      | none ↦ elim a.restore_current [
        | some e ↦ (some e, w₁)
        | none ↦ (prefixed "restore route: " a.sync_route, made sync_route w₂)
      ]
    ]

-- firstError
abbrev first_error : Answer → Answer → Answer
first_error (some e) f = some e
first_error none f = f

-- rollbackCandidate, once the previous release is up again
unfoldable pub settle_rollback : Answers → UpdateRequest → Bytes → World → Bytes × World
unfolding fail_update
settle_rollback a req reason w =
    let w' = made stop w in
    let give_back = λ (r : Recovery) (v : World).
      fail_update a req a.restore_secrets_again true (reason ++ r.suffix) (some r) v in
    if w.we_stopped then give_back restored_running w else elim a.stop_again [
      | none ↦ give_back left_stopped w'
      | some e ↦
          fail_update a req a.restore_secrets_again true
            (reason ++ (bytes "; re-stop previous release: " ++ e)) none w'
    ]

unfoldable pub rollback_candidate : Answers → UpdateRequest → App → Bytes → World → Bytes × World
unfolding fail_update restore_secrets rollback_update restore_storage restore_app settle_rollback
rollback_candidate a req app reason w =
    let (secret_error, w₁) = restore_secrets a a.restore_secrets w in
    let (rollback_error, w₂) = rollback_update a w₁ in
    let (state_error, w₃) = restore_storage a w₂ in
    let (app_error, w₄) = restore_app a app w₃ in
    let give_up = λ (marker e : Bytes).
      fail_update a req a.restore_secrets_again true (reason ++ (marker ++ e)) none w₄ in
    elim secret_error [
      | some e ↦ give_up (bytes "; secret rollback failed: ") e
      | none ↦ elim rollback_error [
        | some e ↦ give_up (bytes "; rollback failed: ") e
        | none ↦ elim (first_error state_error app_error) [
          | some e ↦ give_up (bytes "; state restore failed: ") e
          | none ↦ settle_rollback a req reason w₄
        ]
      ]
    ]
