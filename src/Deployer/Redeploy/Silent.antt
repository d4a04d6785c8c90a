-- ===== src/Deployer/Redeploy/Silent.antt =====
-- A redeploy that cannot make its files again.
use space_elevator.Base.{
  ◌≡◌, refl, subst, str_eq, false, not, none, some, [], Bytes, arith, bytes, ◌++◌,
}
use space_elevator.Store.Rows.{App, Operation, Db, Error, Result, ok, err}
use space_elevator.Store.Operations.{is_active, end_status}
use space_elevator.Store.Operations.Exclusive.{IsValid}
use space_elevator.Store.Apps.{update_app_status_err, with_status_err}
use space_elevator.Store.Apps.Rows.{
  HasRow, RowIs, RowIs-of_HasRow, update_app_status_err-found, update_app_status_err-RowIs,
}
use space_elevator.Deployer.Program.{Answer, next, leave, attempt, prefixed}
use space_elevator.Deployer.Deploy.State.{Site, Answers, write_row, written}
use space_elevator.Deployer.Deploy.Live.{no_error}
use space_elevator.Deployer.Deploy.Ends.{Ends, Runs, Runs-same, IsValid-same, finish_operation-Ends}
use space_elevator.Deployer.Redeploy.{
  Exit, plain, inspect_source, regenerate, redeploy_phases, redeploy_result, finish_redeploy,
  redeploy, needs_pipeline, is_static_drop, only_if, same,
}

-- The first of two errors.
abbrev or_else : Answer → Answer → Answer
or_else (some e) f = some e
or_else none f = f

-- The error of the files that are made again, and of the environment.
abbrev pub files_error : Answers → App → Answer
files_error a app =
    or_else
      (prefixed "regenerate static files: " (only_if (is_static_drop app) a.write_static_files))
      (or_else
        (prefixed "static build settings invalid: "
          (only_if (str_eq app.build_mode "static") a.write_static_build))
        (or_else
          (prefixed "function build settings invalid: "
            (only_if (str_eq app.kind "function") a.write_function_build))
          (or_else
            (prefixed "custom build settings invalid: "
              (only_if (str_eq app.build_mode "custom") a.write_custom_build))
            (prefixed "load env: " a.load_env))))

regenerate-error :
    (a : Answers) (app : App) (e : Bytes) (s : Site)
    → files_error a app ≡ some e
    → regenerate a app s ≡ (leave (plain e), s)
unfolding regenerate attempt
regenerate-error a app e s h = ground arith

-- The error of the source, of the stored compose file or of the storage plan.
abbrev pub source_error : Answers → Answer
source_error a = or_else a.current_source (
    or_else a.stat_source
      (or_else (only_if (not a.is_directory) (some [])) (or_else a.parse_stored a.plan_storage)))

inspect_source-next :
    (a : Answers) (s : Site) → source_error a ≡ none → inspect_source a s ≡ (next, s)
unfolding inspect_source attempt
inspect_source-next a s h = ground arith

written-ok :
    (r : Result (Unit {0}) × Db) (text : Error → Bytes) (exit : Bytes → Exit) (s : Site)
    → r.0 ≡ ok tt
    → written r text exit s ≡ (next, record s { db = r.1 })
written-ok (ok u, db) text exit s h = refl
written-ok (err x, db) text exit s h = cc

write_row-ok :
    (answer : Answer) (text : Error → Bytes) (exit : Bytes → Exit) (f : Db → Result (Unit {0}) × Db)
    (s : Site)
    → answer ≡ none
    → (f s.db).0 ≡ ok tt
    → write_row answer text exit f s ≡ (next, record s { db = (f s.db).1 })
unfolding write_row
write_row-ok answer text exit f s h k = rw h (written-ok (f s.db) text exit s k)

module _ (a : Answers) (app : App) (s : Site) (e : Bytes) (mark : a.mark_pending ≡ none)
    (source : source_error a ≡ none) (files : files_error a app ≡ some e)
    (row : HasRow app.id s.db) where
  abbrev pending : Db
  pending = (update_app_status_err a.now app.id "pending" [] s.db).1

  abbrev pending_site : Site
  pending_site = record s { db = pending }

  redeploy_phases-plain : redeploy_phases a app s ≡ (leave (plain e), pending_site)
  unfolding redeploy_phases
  redeploy_phases-plain = rw (
    write_row-ok a.mark_pending a.error_text (λ t. plain (bytes "" ++ t))
        (update_app_status_err a.now app.id "pending" []) s mark
        (update_app_status_err-found a.now app.id "pending" [] s.db row).0,
    inspect_source-next a pending_site source,
    regenerate-error a app e pending_site files,
  )

-- What the row of an app says that is being deployed.
abbrev pub Pending : App → Type 0
Pending b = (b.status ≡ "pending") × (b.last_error ≡ [])

failed-ends : is_active (end_status "failed") ≡ false
unfolding is_active
failed-ends = refl

-- A direct redeploy in which a file cannot be made again, or the environment not be read: the error is
-- returned, but the row of the app stays "pending" with no error, and the operation is "failed" with
-- an empty error text.
pub redeploy-silent :
    (a : Answers) (app : App) (o : Operation) (s : Site) (e : Bytes)
    → a.finish ≡ none
    → needs_pipeline a app ≡ false
    → a.mark_pending ≡ none
    → source_error a ≡ none
    → files_error a app ≡ some e
    → app.id ≡ o.app_id
    → IsValid s.db
    → Runs o s.db
    → HasRow app.id s.db
    → ((redeploy a app o s).0 ≡ some e) × Ends a.now "failed" [] o Pending (redeploy a app o s).1.db
unfolding redeploy redeploy_result finish_redeploy
redeploy-silent a app o s e f direct mark source files i v runs row =
    let s₁ = pending_site a app s e mark source files row in
    let (answer, same, there) = update_app_status_err-found a.now app.id "pending" [] s.db row in
    rw (direct, redeploy_phases-plain a app s e mark source files row, f)
      (
        refl,
        finish_operation-Ends a.now "failed" [] o {P = Pending} s₁.db failed-ends
            (IsValid-same s.db s₁.db same v) (Runs-same o s.db s₁.db same runs)
            (subst (λ x. RowIs x Pending s₁.db) i
              (update_app_status_err-RowIs a.now app.id "pending" [] s.db {P = λ b. Unit {0}}
                {Q = Pending} (λ b u. unfold with_status_err in (refl, no_error))
                (RowIs-of_HasRow app.id s.db row))),
      )
