-- ===== src/Web/Reconcile/Dark.antt =====
-- After a restart no app shows what an interrupted operation has left.
use space_elevator.Base.{
  ℕ, ◌<◌, ◌≡◌, ◌≢◌, refl, ap, ◌∙◌, String, Bool, true, false, ◌&&◌, ◌==◌, Option, none, some, List,
  [], ◌∷◌, arith, All, All-append, map, tally, ltb, str_eq, eq_iff, if◌then◌else◌, Bool-cases, inl,
  inr,
}
use space_elevator.Store.Rows.{App, Operation, Db}
use space_elevator.Store.Operations.{
  any_active, active_of, list_operations, interrupted_row, interrupted_app,
  interrupt_active_operations,
}
use space_elevator.Store.Operations.Exclusive.{IsValid}
use space_elevator.Store.Operations.Restart.{interrupt_active_operations-rows}
use space_elevator.Store.Operations.Newest.{list_operations-interrupted, list_operations-owns}
use space_elevator.Store.Apps.{update_row, update_app_status}
use space_elevator.Web.Reconcile.{
  RouteCall, remove_route, start_app, sync_route, Found, failed_status,
  last_operation_failed_unrecovered, revived, routed, reconcile_app, reconcile_routes,
}

-- A call that starts an app, or publishes its route.
abbrev pub shows : String → RouteCall → Bool
shows id (remove_route a name) = false
shows id (start_app a) = str_eq a id
shows id (sync_route a) = str_eq a id

-- The app is known not to have recovered, by its row and its history.
record Hidden (id : String) (a : App) (db : Db) : Type 0 where
  in_error : str_eq a.id id ≡ true → str_eq a.status "error" ≡ true
  unrecovered : failed_status (list_operations id db) ≡ true

module _ (id : String) where
  abbrev Quiet : Db → List RouteCall × Db → Type 0
  Quiet db r = All (λ c. shows id c ≡ false) r.0 × (r.1.operations ≡ db.operations)

  revived-Quiet :
      (found : Found) (now : ℕ) (a : App) (status : String) (db : Db)
      → str_eq a.id id ≡ false
      → Quiet db (revived found now a status db)
  unfolding update_app_status update_row
  revived-Quiet found now a status db n =
      elim (Bool-cases (str_eq status "stopped" && str_eq a.status "running")) [
        | inl e ↦ elim (Bool-cases found.starts) [
          | inl s ↦ rw (e, s) ((n, tt), refl)
          | inr s ↦ rw (e, s) ((n, tt), refl)
        ]
        | inr e ↦ rw e (tt, refl)
      ]

  routed-Quiet :
      (found : Found) (now : ℕ) (a : App) (db : Db) (answer : Option (String × ℕ))
      → str_eq a.id id ≡ false
      → Quiet db (routed found now a db answer)
  routed-Quiet found now a db none n = (tt, refl)
  routed-Quiet found now a db (some (status, services)) n = elim (Bool-cases (services == 0)) [
    | inl e ↦ rw e ((refl, tt), refl)
    | inr e ↦
        let (calls, rows) = revived-Quiet found now a status db n in
        rw e (
          All-append (λ c. shows id c ≡ false) (revived found now a status db).0
              (sync_route a.id ∷ []) calls (n, tt),
          rows,
        )
  ]

  reconcile_app-Quiet :
      (found : Found) (now : ℕ) (a : App) (db : Db)
      → Hidden id a db
      → Quiet db (reconcile_app found now a db)
  unfolding reconcile_app last_operation_failed_unrecovered
  reconcile_app-Quiet found now a db h = elim (Bool-cases found.parses) [
    | inr p ↦ rw p ((refl, tt), refl)
    | inl p ↦ elim (Bool-cases (str_eq a.id id)) [
      | inl e ↦
          let same = ap (λ i. failed_status (list_operations i db)) ((eq_iff a.id id).0 e) in
          let bad = same ∙ h.unrecovered in rw (p, h.in_error e, bad) ((refl, tt), refl)
      | inr n ↦
          elim (Bool-cases (str_eq a.status "error" && failed_status (list_operations a.id db))) [
            | inl e ↦ rw (p, e) ((refl, tt), refl)
            | inr e ↦ rw (p, e) (routed-Quiet found now a db found.status n)
          ]
    ]
  ]

  same-history :
      (db db' : Db)
      → db'.operations ≡ db.operations
      → failed_status (list_operations id db) ≡ true
      → failed_status (list_operations id db') ≡ true
  unfolding list_operations
  same-history db db' e h = rw e h

  reconcile_routes-Quiet :
      (found : App → Found) (now : ℕ) (apps : List App) (db : Db)
      → All (λ (a : App). str_eq a.id id ≡ true → str_eq a.status "error" ≡ true) apps
      → failed_status (list_operations id db) ≡ true
      → All (λ c. shows id c ≡ false) (reconcile_routes found now apps db).0
  unfolding reconcile_routes
  reconcile_routes-Quiet found now [] db h u = tt
  reconcile_routes-Quiet found now (a ∷ apps) db h u =
      let one = reconcile_app (found a) now a db in
      let (calls, rows) =
        reconcile_app-Quiet (found a) now a db (record { in_error = h.0; unrecovered = u }) in
      All-append (λ c. shows id c ≡ false) one.0 (reconcile_routes found now apps one.1).0 calls
        (reconcile_routes-Quiet found now apps one.1 h.1 (same-history db one.1 rows u))

  owned-clash :
      (y : String) (ops : List Operation)
      → ltb 0 (tally (active_of y) ops) ≡ false
      → 0 < tally (active_of id) ops
      → y ≢ id
  owned-clash y ops e h i =
      let same = ap (λ z. tally (active_of z) ops) i in ground (arith, e, h, same)

  error-rows :
      (now : ℕ) (ops : List Operation) (xs : List App)
      → 0 < tally (active_of id) ops
      → All
          (λ (a : App). str_eq a.id id ≡ true → str_eq a.status "error" ≡ true)
          (map
            (λ (a : App). if ltb 0 (tally (active_of a.id) ops) then interrupted_app now a else a)
            xs)
  unfolding interrupted_app
  error-rows now ops [] h = tt
  error-rows now ops (x ∷ xs) h = (
    elim (Bool-cases (ltb 0 (tally (active_of x.id) ops))) [
      | inl e ↦ rw e (λ i. refl)
      | inr e ↦ rw e (λ i. absurd (owned-clash x.id ops e h ((eq_iff x.id id).0 i)))
    ],
    error-rows now ops xs h,
  )

  interrupted-unrecovered :
      (now : ℕ) (db : Db) (o : Operation) (os : List Operation)
      → IsValid db
      → list_operations id db ≡ o ∷ os
      → any_active o ≡ true
      → failed_status (list_operations id (interrupt_active_operations now db)) ≡ true
  unfolding interrupted_row
  interrupted-unrecovered now db o os v e h =
      rw (list_operations-interrupted now id db v, e, h) refl

-- Where a valid database has an active operation as the newest one of an app, a restart of the
-- service (the operations are interrupted, then the routes are reconciled) neither starts that app
-- nor publishes its route, whatever podman answers for any app.
pub reconcile_routes-dark :
    (found : App → Found) (now later : ℕ) (id : String) (db : Db) (o : Operation)
    (os : List Operation)
    → IsValid db
    → list_operations id db ≡ o ∷ os
    → any_active o ≡ true
    → let db' = interrupt_active_operations now db in
      All (λ c. shows id c ≡ false) (reconcile_routes found later db'.apps db').0
reconcile_routes-dark found now later id db o os v e h =
    let db' = interrupt_active_operations now db in
    let rows = (interrupt_active_operations-rows now db v).1 in
    reconcile_routes-Quiet id found later db'.apps db'
      (rw rows (error-rows id now db.operations db.apps (list_operations-owns id db o os e h)))
      (interrupted-unrecovered id now db o os v e h)
