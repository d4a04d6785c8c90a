-- ===== src/Web/Progress/Stages.antt =====
-- What a stage makes of every step of the checklist, in terms of the code.
use space_elevator.Base.{
  ℕ, ◌≡◌, refl, sym, subst, String, str_eq, Bool, true, false, ◌||◌, inl, inr, some, List, [], ◌∷◌,
  ◌++◌, take, if◌then◌else◌, Bytes, bytes, first, first-amend, arith, eq_iff, Bool-cases,
}
use space_elevator.Store.Rows.{App, Operation, DeployStep, Db}
use space_elevator.Store.Operations.{set_operation_step, update_active}
use space_elevator.Store.Logs.{append_deploy_log}
use space_elevator.Store.Steps.{step_is, updated_step, update_deploy_step}
use space_elevator.Web.Progress.{
  DeployStepSpec, deployment_plan, DeployProgress, index, mark, mark_current, passed_status,
  mark_passed, has_release, enter_step, append, step_key, stage,
}

-- The step `k` of the operation is there with the status `s`.
abbrev pub Status : String → String → String → Db → Type 0
Status id k s db = (r : DeployStep) × (first (step_is id k) db.steps ≡ some r) × (r.status ≡ s)

first-holds :
    (p : DeployStep → Bool) (xs : List DeployStep) (r : DeployStep)
    → first p xs ≡ some r
    → p r ≡ true
unfolding first
first-holds p [] r h = cc
first-holds p (x ∷ xs) r h = ground (arith, first-holds p xs r)

abbrev pub among : String → List DeployStepSpec → Bool
among k [] = false
among k (s ∷ specs) = str_eq s.key k || among k specs

module _ (id k : String) where
  pub mark-Status :
      (now : ℕ) (key st : String) (m : Bytes) (s : String) (db : Db)
      → Status id k s db
      → Status id k (if str_eq key k then st else s) (mark now id key st m db)
  unfolding update_deploy_step updated_step
  mark-Status now key st m s db (r, found, e) =
      let own = first-holds (step_is id k) db.steps r found in
      (
        if step_is id key r then updated_step now st m r else r,
        first-amend (step_is id k) (step_is id key) (updated_step now st m) (λ x. refl) db.steps r
            found,
        ground (arith, eq_iff r.key k, eq_iff r.key key, eq_iff key k),
      )

  mark_passed-Status :
      (now : ℕ) (released : Bool) (current : String) (specs : List DeployStepSpec) (s : String)
      (db : Db)
      → Status id k s db
      → Status id k
          (if among k specs then passed_status released current k else s)
          (mark_passed now id released current specs db)
  unfolding mark_passed
  mark_passed-Status now released current [] s db h = h
  mark_passed-Status now released current (x ∷ specs) s db h =
      let st = passed_status released current x.key in
      let h' =
        mark_passed-Status now released current specs (if str_eq x.key k then st else s)
          (mark now id x.key st [] db) (mark-Status now x.key st [] s db h) in
      subst
        (λ t.
          Status id k t (mark_passed now id released current specs (mark now id x.key st [] db)))
        (same x specs) h'
    where
      same :
          (x : DeployStepSpec) (specs : List DeployStepSpec)
          → (if among k specs
              then passed_status released current k
              else if str_eq x.key k
              then passed_status released current x.key
              else s)
            ≡ (if among k (x ∷ specs) then passed_status released current k else s)
      same x specs = ground (arith, eq_iff x.key k)

  mark_current-Status :
      (now : ℕ) (current : String) (s : String) (db : Db)
      → Status id k s db
      → Status id k
          (if str_eq current "" then s else if str_eq current k then "succeeded" else s)
          (mark_current now id current "succeeded" [] db)
  mark_current-Status now current s db h = elim (Bool-cases (str_eq current "")) [
    | inl e ↦ rw e h
    | inr e ↦ rw e (mark-Status now current "succeeded" [] s db h)
  ]

pub append-steps :
    (now : ℕ) (id step level : String) (m : Bytes) (db : Db)
    → (append now id step level m db).steps ≡ db.steps
unfolding append append_deploy_log
append-steps now id step level m db = ground arith

pub Status-steps :
    (id k s : String) (db db' : Db) → db'.steps ≡ db.steps → Status id k s db → Status id k s db'
Status-steps id k s db db' e (r, found, st) = (r, rw e found, st)

-- The status in terms of the code: `key` stands in the plan behind `target` steps.
unfoldable pub entered_by : App → String → String → ℕ → String → String → String
entered_by app current key target k s =
    if str_eq key k
    then "running"
    else if among k (take target deployment_plan)
    then passed_status (has_release app) current k
    else if str_eq current ""
    then s
    else if str_eq current k
    then "succeeded"
    else s

enter_step-Status :
    (now : ℕ) (id : String) (app : App) (current key : String) (target : ℕ) (label k s : String)
    (db : Db)
    → Status id k s db
    → Status id k
        (entered_by app current key target k s)
        (enter_step now id app current key target label db)
unfolding enter_step entered_by set_operation_step update_active
enter_step-Status now id app current key target label k s db h =
    let db₁ = mark_current now id current "succeeded" [] db in
    let h₁ = mark_current-Status id k now current s db h in
    let specs = take target deployment_plan in
    let db₂ = mark_passed now id (has_release app) current specs db₁ in
    let h₂ = mark_passed-Status id k now (has_release app) current specs _ db₁ h₁ in
    let db₃ = (set_operation_step now id key db₂).1 in
    let h₃ = Status-steps id k _ db₂ db₃ refl h₂ in
    let db₄ = mark now id key "running" [] db₃ in
    let text = bytes "step: " ++ bytes label in
    Status-steps id k _ db₄ (append now id key "info" text db₄)
      (append-steps now id key "info" text db₄) (mark-Status id k now key "running" [] _ db₃ h₃)

stage-enters :
    (now : ℕ) (name : String) (p : DeployProgress) (o : Operation) (target : ℕ) (label : String)
    (db : Db)
    → p.op ≡ some o
    → index (step_key name) ≡ some (target, label)
    → str_eq p.step (step_key name) ≡ false
    → stage now name p db ≡ (
      record p { step = step_key name },
      enter_step now o.id p.app p.step (step_key name) target label db,
    )
unfolding stage
stage-enters now name p o target label db own place fresh = ground arith

pub stage-by :
    (now : ℕ) (name : String) (p : DeployProgress) (o : Operation) (target : ℕ) (label k s : String)
    (db : Db)
    → p.op ≡ some o
    → index (step_key name) ≡ some (target, label)
    → str_eq p.step (step_key name) ≡ false
    → Status o.id k s db
    → let (p', db') = stage now name p db in
      (p'.step ≡ step_key name)
      × Status o.id k (entered_by p.app p.step (step_key name) target k s) db'
stage-by now name p o target label k s db own place fresh h =
    subst
      (λ x.
        (x.0.step ≡ step_key name)
        × Status o.id k (entered_by p.app p.step (step_key name) target k s) x.1)
      (sym (stage-enters now name p o target label db own place fresh))
      (refl, enter_step-Status now o.id p.app p.step (step_key name) target label k s db h)
