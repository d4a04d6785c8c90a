-- ===== src/Web/Reconcile/Tests.antt =====
-- A start of the service while an update was running, and after one that was done.
use space_elevator.Base.{
  ℕ, ◌≡◌, ◌≢◌, refl, sym, ◌∙◌, eq_iff, true, false, some, none, String, [], ◌∷◌, All, arith, tally,
  sift,
}
use space_elevator.Store.Rows.{App, Operation, Db}
use space_elevator.Store.Operations.{
  interrupt_active_operations, list_operations, newest_first, insert_newest, is_active,
}
use space_elevator.Store.Operations.Exclusive
use space_elevator.Web.Reconcile.{
  Found, start_app, sync_route, reconcile_app, reconcile_routes, last_operation_failed_unrecovered,
}
use space_elevator.Web.Reconcile.Dark.{shows, reconcile_routes-dark}

abbrev shop : App
shop = record {
  id = "a1";
  name = "shop";
  slug = "shop";
  source_type = "git";
  source_ref = [];
  git_ref = [];
  drop_kind = "";
  compose_yaml = [];
  env = [];
  current_release_id = none;
  status = "running";
  last_error = [];
  build_mode = "compose";
  builder_image = "";
  build_command = "";
  run_command = "";
  serve_path = "";
  listen_port = 0;
  kind = "web";
  runtime = "";
  runtime_version = "";
  entrypoint = "";
  scale_to_zero = false;
  idle_timeout = 0;
  last_invoked_at = 0;
  created_at = 1;
  updated_at = 1;
}

abbrev update : String → ℕ → String → Operation
update id time status = record {
  id = id;
  app_id = "a1";
  operation_type = "update";
  status = status;
  current_step = "";
  attempt = 1;
  previous_release_id = "";
  candidate_release_id = "";
  heartbeat_at = some 5;
  error = [];
  created_at = time;
  started_at = none;
  completed_at = none;
}

abbrev tables : String → Db
tables status = record {
  apps = shop ∷ [];
  operations = update "o1" 3 "completed" ∷ update "o2" 5 status ∷ [];
  steps = [];
  logs = [];
}

abbrev stopped : App → Found
stopped a = record { parses = true; status = some ("stopped", 2); starts = true }

-- A stopped app that should run is started, then routed.
revived_shop :
    (reconcile_routes stopped 9 (shop ∷ []) (tables "completed")).0
    ≡ start_app "a1" ∷ sync_route "a1" ∷ []
unfolding reconcile_routes reconcile_app last_operation_failed_unrecovered
revived_shop = refl

two_names : (i : String) → "o1" ≡ i → "o2" ≢ i
two_names i e f = o1_o2 (e ∙ sym f)
  where
    o1_o2 : ◌≢◌ {A = String} "o1" "o2"
    o1_o2 h = let same : false ≡ true = (eq_iff "o1" "o2").1 h in cc

tables-IsValid : Exclusive.IsValid (tables "building")
unfolding tally is_active
tables-IsValid = record {
  one_active = λ a. ground arith;
  one_row = λ i. ground (arith, eq_iff "o1" i, eq_iff "o2" i, two_names i);
}

history :
    list_operations "a1" (tables "building")
    ≡ update "o2" 5 "building" ∷ update "o1" 3 "completed" ∷ []
unfolding list_operations newest_first insert_newest sift
history = refl

reconcile_routes-dark_example :
    let db' = interrupt_active_operations 7 (tables "building") in
    All (λ c. shows "a1" c ≡ false) (reconcile_routes stopped 9 db'.apps db').0
unfolding is_active
reconcile_routes-dark_example =
    reconcile_routes-dark stopped 7 9 "a1" (tables "building") (update "o2" 5 "building")
      (update "o1" 3 "completed" ∷ []) tables-IsValid history refl
