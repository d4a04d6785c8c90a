-- ===== src/Web/Progress/Steps.antt =====
-- What a stage makes of every step of the checklist, and what the statuses of an operation mean.
use space_elevator.Base.{
  ℕ, suc, ◌+◌, ◌≡◌, refl, subst, ap, ◌∙◌, not, Option, none, lookup, String, str_eq, Bool, true,
  false, ◌||◌, inl, inr, some, List, [], ◌∷◌, take, if◌then◌else◌, arith, eq_iff, Bool-cases,
}
use space_elevator.Store.Rows.{App, Operation, Db}
use space_elevator.Store.Operations.{is_active}
use space_elevator.Web.Progress.{
  DeployStepSpec, deployment_plan, DeployProgress, index, passed_status, has_release, index_from,
  step_key, stage, operation_is_active, operation_can_retry,
}
use space_elevator.Web.Progress.Expected.{
  step_order, step_of, is_one_of, stands_before, is_none, is_skipped, entered_status,
}
use space_elevator.Web.Progress.Stages.{Status, among, entered_by, stage-by}

keys_of : List DeployStepSpec → List String
keys_of [] = []
keys_of (s ∷ specs) = s.key ∷ keys_of specs

-- A key that the plan finds stands behind as many steps as its place says.
index_from-place :
    (key k : String) (i : ℕ) (specs : List DeployStepSpec) (t : ℕ) (l : String)
    → index_from i key specs ≡ some (t, l)
    → (d : ℕ) × (t ≡ i + d) × (among k (take d specs) ≡ stands_before k key (keys_of specs))
unfolding index_from keys_of
index_from-place key k i [] t l h = absurd cc
index_from-place key k i (s ∷ specs) t l h = elim (Bool-cases (str_eq s.key key)) [
  | inl e ↦ (0, ground arith, rw e refl)
  | inr e ↦
      let (d, at, same) = index_from-place key k (i + 1) specs t l (rw e at h) in
      (suc d, omega (arith, at), rw e (ap (λ x. str_eq s.key k || x) same))
]

index_from-there :
    (key : String) (i : ℕ) (specs : List DeployStepSpec)
    → is_one_of key (keys_of specs) ≡ true
    → (t : ℕ) × (l : String) × (index_from i key specs ≡ some (t, l))
unfolding index_from keys_of
index_from-there key i [] h = absurd cc
index_from-there key i (s ∷ specs) h = elim (Bool-cases (str_eq s.key key)) [
  | inl e ↦ (i, s.label, rw e refl)
  | inr e ↦ let (t, l, found) = index_from-there key (i + 1) specs (rw e at h) in (t, l, rw e found)
]

has_release_iff : (app : App) → has_release app ≡ not (is_none app.current_release_id)
has_release_iff app = go app.current_release_id
  where
    go : (r : Option String) → elim r [ none ↦ false | some id ↦ true ] ≡ not (is_none r)
    go none = refl
    go (some id) = refl

passed_status-skipped :
    (app : App) (current k : String)
    → passed_status (has_release app) current k
      ≡ (if is_skipped app current k then "skipped" else "succeeded")
unfolding passed_status
passed_status-skipped app current k = ground (
  arith,
  has_release_iff app,
  eq_iff k "rollback",
  eq_iff "rollback" k,
  eq_iff k "stop",
  eq_iff "stop" k,
  eq_iff k "backup",
  eq_iff "backup" k,
)

step_key-of : (name : String) → step_key name ≡ step_of name
unfolding step_key step_of lookup
step_key-of name = ground (
  arith,
  eq_iff name "preflight",
  eq_iff "preflight" name,
  eq_iff name "clone",
  eq_iff "clone" name,
  eq_iff name "deploy",
  eq_iff "deploy" name,
)

entered_by-status :
    (app : App) (current key : String) (target : ℕ) (k s : String)
    → among k (take target deployment_plan) ≡ stands_before k key step_order
    → entered_by app current key target k s ≡ entered_status app current key k s
unfolding entered_by entered_status
entered_by-status app current key target k s h =
    ground (arith, h, passed_status-skipped app current k)

-- When the deployer reports a stage, whose step is one of the eleven and not the current one, that
-- step becomes the current one; and every step of the operation that is in the checklist is still
-- there, with the status that it is meant to have: "running" for the new one; for those in front of it
-- "skipped" where there was nothing to do (the backup, the stop and the rollback of an app that had no
-- release, and a rollback that was not the current step) and else "succeeded"; "succeeded" for the one
-- that was current; and its old status for any other.
pub stage-Status :
    (now : ℕ) (name : String) (p : DeployProgress) (o : Operation) (k s : String) (db : Db)
    → p.op ≡ some o
    → is_one_of (step_of name) step_order ≡ true
    → str_eq p.step (step_of name) ≡ false
    → Status o.id k s db
    → let (p', db') = stage now name p db in
      (p'.step ≡ step_of name) × Status o.id k (entered_status p.app p.step (step_of name) k s) db'
unfolding index keys_of
stage-Status now name p o k s db own there fresh h =
    let (t, l, found) = index_from-there (step_of name) 0 deployment_plan there in
    let (d, at, same) = index_from-place (step_of name) k 0 deployment_plan t l found in
    let key = step_key-of name in
    let target : t ≡ d = omega (arith, at) in
    let before = ap (λ x. among k (take x deployment_plan)) target ∙ same in
    let (moved, kept) = stage-by now name p o t l k s db own (rw key found) (rw key fresh) h in
    (
      moved ∙ key,
      subst (λ x. Status o.id k x (stage now name p db).1)
          (ap (λ x. entered_by p.app p.step x t k s) key
            ∙ entered_by-status p.app p.step (step_of name) t k s before)
          kept,
    )

-- A candidate that cannot be started is rolled back, and the stage "rollback" is reported from the step
-- "activate": the checklist then says that "activate" succeeded.
pub rollback-hides :
    (now : ℕ) (p : DeployProgress) (o : Operation) (s : String) (db : Db)
    → p.op ≡ some o
    → p.step ≡ "activate"
    → Status o.id "activate" s db
    → Status o.id "activate" "succeeded" (stage now "rollback" p db).1
unfolding entered_status step_of lookup
rollback-hides now p o s db own current h =
    let e = stage-Status now "rollback" p o "activate" s db own refl (rw current refl) h in
    subst (λ t. Status o.id "activate" t (stage now "rollback" p db).1) (rw current refl) e.1

one_of-inactive :
    (s t : String) (rest : Bool)
    → is_active t ≡ false
    → (rest ≡ true → is_active s ≡ false)
    → rest || str_eq s t ≡ true
    → is_active s ≡ false
one_of-inactive s t rest out next h = elim (Bool-cases (str_eq s t)) [
  | inl e ↦ rw ((eq_iff s t).0 e) out
  | inr e ↦ next (ground arith)
]

can_retry-inactive :
    (s : String)
    → str_eq s "failed"
        || str_eq s "rolled_back"
        || str_eq s "rollback_failed"
        || str_eq s "interrupted"
      ≡ true
    → is_active s ≡ false
unfolding is_active
can_retry-inactive s = one_of-inactive s "interrupted" _ refl (
    one_of-inactive s "rollback_failed" _ refl
      (one_of-inactive s "rolled_back" _ refl (λ e. rw ((eq_iff s "failed").0 e) refl)))

-- The dashboard's test for an active operation is that of the store, and no operation that it offers
-- to retry is active.
pub operation_is_active-store :
    (o : Operation)
    → (operation_is_active (some o) ≡ is_active o.status)
      × (operation_can_retry (some o) ≡ true → is_active o.status ≡ false)
unfolding operation_is_active operation_can_retry is_active
operation_is_active-store o = (refl, can_retry-inactive o.status)
