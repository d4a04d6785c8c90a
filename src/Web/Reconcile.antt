-- ===== src/Web/Reconcile.antt =====
-- reconcile.go: what a start of the service does with the routes. The answers of podman for an app
-- are a record; the file writer of the proxy is there, the context is not cancelled, and
-- nothing else writes meanwhile.
pub mod Dark
mod Tests
use space_elevator.Base.{
  ℕ, Bool, true, false, not, ◌&&◌, ◌||◌, ◌==◌, Option, none, some, List, [], ◌∷◌, ◌++◌,
  if◌then◌else◌, String, str_eq,
}
use space_elevator.Store.Rows.{App, Operation, Db}
use space_elevator.Store.Operations.{list_operations}
use space_elevator.Store.Apps.{update_app_status}

-- What is done to the outside, each with the identifier of the app.
pub data RouteCall : Type 0 where
  -- with the name of the file
  remove_route : String → String → RouteCall
  start_app : String → RouteCall
  sync_route : String → RouteCall

-- Whether the compose text parses; the status and the number of services, unless the call fails;
-- whether the app starts.
pub record Found : Type 0 where
  pub parses : Bool
  pub status : Option (String × ℕ)
  pub starts : Bool

abbrev pub app_route_name : App → String
app_route_name a = if str_eq a.slug "" then a.name else a.slug

abbrev pub failed_status : List Operation → Bool
failed_status [] = false
failed_status (o ∷ os) =
    str_eq o.status "failed" || str_eq o.status "interrupted" || str_eq o.status "rollback_failed"

unfoldable pub last_operation_failed_unrecovered : String → Db → Bool
last_operation_failed_unrecovered id db = failed_status (list_operations id db)

abbrev pub removed : App → Db → List RouteCall × Db
removed a db = (remove_route a.id (app_route_name a) ∷ [], db)

-- A stopped app that should run is started, and the row is written if that works.
abbrev pub revived : Found → ℕ → App → String → Db → List RouteCall × Db
revived found now a status db =
    if str_eq status "stopped" && str_eq a.status "running"
    then (
      start_app a.id ∷ [],
      if found.starts then (update_app_status now a.id "running" db).1 else db,
    )
    else ([], db)

abbrev pub routed : Found → ℕ → App → Db → Option (String × ℕ) → List RouteCall × Db
routed found now a db none = ([], db)
routed found now a db (some (status, services)) =
    if services == 0
    then removed a db
    else (let (calls, db') = revived found now a status db in (calls ++ sync_route a.id ∷ [], db'))

unfoldable pub reconcile_app : Found → ℕ → App → Db → List RouteCall × Db
unfolding last_operation_failed_unrecovered
reconcile_app found now a db =
    if not found.parses
    then removed a db
    else if str_eq a.status "error" && last_operation_failed_unrecovered a.id db
    then removed a db
    else routed found now a db found.status

-- The rows are read once, before the loop.
unfoldable pub reconcile_routes : (App → Found) → ℕ → List App → Db → List RouteCall × Db
unfolding reconcile_app
reconcile_routes found now [] db = ([], db)
reconcile_routes found now (a ∷ apps) db =
    let (calls, db') = reconcile_app (found a) now a db in
    let (more, end) = reconcile_routes found now apps db' in (calls ++ more, end)
