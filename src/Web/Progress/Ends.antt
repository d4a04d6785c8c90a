-- ===== src/Web/Progress/Ends.antt =====
-- What the end of a deployment makes of every step of the checklist.
use space_elevator.Base.{
  ℕ, ◌≡◌, refl, sym, subst, String, str_eq, Bool, true, false, inl, inr, some, [], if◌then◌else◌,
  Bytes, bytes, Bool-cases, arith,
}
use space_elevator.Store.Rows.{Operation, Db}
use space_elevator.Store.Operations.{get_operation, set_operation_step, update_active}
use space_elevator.Web.Progress.{
  DeployProgress, mark, mark_current, append, success, failure, is_rolled_back,
}
use space_elevator.Web.Progress.Stages.{Status, mark-Status, append-steps, Status-steps}

-- The status of `k` once the current step has been given `st`.
abbrev pub current_status : String → String → String → String → String
current_status current st k s = if str_eq current "" then s else if str_eq current k then st else s

current-Status :
    (id k : String) (now : ℕ) (current st : String) (m : Bytes) (s : String) (db : Db)
    → Status id k s db
    → Status id k (current_status current st k s) (mark_current now id current st m db)
current-Status id k now current st m s db h = elim (Bool-cases (str_eq current "")) [
  | inl e ↦ rw e h
  | inr e ↦ rw e (mark-Status id k now current st m s db h)
]

module _ (now : ℕ) (text : Bytes) (p : DeployProgress) (o : Operation) (db : Db)
    (own : p.op ≡ some o) where
  failure-eq :
      (b : Bool)
      → is_rolled_back (get_operation o.id db) ≡ b
      → failure now text p db
        ≡ append now o.id p.step (if b then "warn" else "error") text (
            mark_current now o.id p.step
              (if b then "rolled_back" else "failed")
              (if b then [] else text)
              db)
  unfolding failure
  failure-eq true e = ground arith
  failure-eq false e = ground arith

  success-eq : success now p db ≡ (
    record p { step = "commit" },
    append now o.id "commit" "info" (bytes "deployment completed") (
        (set_operation_step now o.id "commit" (
          mark now o.id "commit" "succeeded" []
            (mark_current now o.id p.step "succeeded" [] db))).1),
  )
  unfolding success
  success-eq = ground arith

-- A deployment that fails, its operation being read as rolled back or not, marks the current step
-- "rolled_back" or "failed", and leaves the status of every other step of the operation as it was.
pub failure-Status :
    (now : ℕ) (text : Bytes) (p : DeployProgress) (o : Operation) (k s : String) (db : Db)
    → p.op ≡ some o
    → Status o.id k s db
    → Status o.id k
        (current_status p.step
          (if is_rolled_back (get_operation o.id db) then "rolled_back" else "failed")
          k
          s)
        (failure now text p db)
failure-Status now text p o k s db own h =
    let b = is_rolled_back (get_operation o.id db) in
    let st = if b then "rolled_back" else "failed" in
    let db₁ = mark_current now o.id p.step st (if b then [] else text) db in
    let level = if b then "warn" else "error" in
    subst (Status o.id k (current_status p.step st k s))
      (sym (failure-eq now text p o db own b refl))
      (Status-steps o.id k (current_status p.step st k s) db₁
        (append now o.id p.step level text db₁) (append-steps now o.id p.step level text db₁)
        (current-Status o.id k now p.step st (if b then [] else text) s db h))

-- A deployment that succeeds marks "commit" and the step that was current as succeeded, makes
-- "commit" the current step, and leaves the status of every other step of the operation as it was.
pub success-Status :
    (now : ℕ) (p : DeployProgress) (o : Operation) (k s : String) (db : Db)
    → p.op ≡ some o
    → Status o.id k s db
    → let (p', db') = success now p db in
      (p'.step ≡ "commit")
      × Status o.id k
          (if str_eq "commit" k then "succeeded" else current_status p.step "succeeded" k s)
          db'
unfolding set_operation_step update_active
success-Status now p o k s db own h =
    let db₁ = mark_current now o.id p.step "succeeded" [] db in
    let db₂ = mark now o.id "commit" "succeeded" [] db₁ in
    let db₃ = (set_operation_step now o.id "commit" db₂).1 in
    let st = current_status p.step "succeeded" k s in
    let st' = if str_eq "commit" k then "succeeded" else st in
    subst (λ x. (x.0.step ≡ "commit") × Status o.id k st' x.1) (sym (success-eq now [] p o db own))
      (
        refl,
        Status-steps o.id k st' db₃
            (append now o.id "commit" "info" (bytes "deployment completed") db₃)
            (append-steps now o.id "commit" "info" (bytes "deployment completed") db₃)
            (mark-Status o.id k now "commit" "succeeded" [] st db₁
              (current-Status o.id k now p.step "succeeded" [] s db h)),
      )
