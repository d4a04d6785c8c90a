-- ===== src/Deployer/Update/Order.antt =====
-- The order in which an update touches the containers, the volumes and the routes.
use mathlib.Core.List.{append-nil}
use space_elevator.Base.{
  ◌≡◌, refl, ap, ◌∙◌, String, str_eq, Bool, true, false, List, [], ◌∷◌, ◌++◌, if◌then◌else◌, Bytes,
}
use space_elevator.Store.Rows.{App}
use space_elevator.Deployer.State.{
  UpdateRequest, World, Answers, Exit, Call, prepare, inspect, stop, remove, activate, backup,
  migrate, publish_route, call,
}
use space_elevator.Deployer.Program.{Answer, Outcome, next, leave, attempt}
use space_elevator.Deployer.Phases.{
  begin_candidate, create_release, build_release, stop_app, back_up, cut_over, commit_release,
  set_status,
}
use space_elevator.Deployer.Update.{prepare_phases, switch_phases, all_phases}
use space_elevator.Deployer.Update.Rules.{Ensures-call}
use space_elevator.Deployer.Program.Rules.{
  Post, Ensures, Ensures-attempt_partly, Ensures-assign, Ensures-if, Ensures-seq,
}
use space_elevator.Deployer.Update.Sequence.{
  plan, IsPrefix, tries, status, calls, steady_source, steady_plan, steady_replace,
  steady_directories,
}

-- What is done before each call that the app's state does not decide, and what is left then.
abbrev pub taken : Bool → List Call
taken stopped = prepare ∷ inspect ∷ (if stopped then [] else stop ∷ [])

abbrev left_from_backup : List Call
left_from_backup = backup ∷ migrate ∷ remove ∷ activate ∷ inspect ∷ publish_route ∷ []

whole :
    (b : Bool) (xs ys : List Call) → xs ++ ys ≡ left_from_backup → (taken b ++ xs) ++ ys ≡ plan b
whole true xs ys h = ap (λ x. prepare ∷ inspect ∷ x) h
whole false xs ys h = ap (λ x. prepare ∷ inspect ∷ stop ∷ x) h

more :
    (b : Bool) (xs : List Call) (c : Call) → (taken b ++ xs) ++ c ∷ [] ≡ taken b ++ (xs ++ c ∷ [])
more true xs c = refl
more false xs c = refl

taken_stopped : (b : Bool) → b ≡ true → prepare ∷ inspect ∷ [] ≡ taken b ++ []
taken_stopped true e = refl
taken_stopped false e = absurd cc

taken_running : (b : Bool) → b ≡ false → prepare ∷ inspect ∷ stop ∷ [] ≡ taken b ++ []
taken_running true e = absurd cc
taken_running false e = refl

module _ (a : Answers) where
  abbrev stopped : Bool
  stopped = str_eq a.status_before_is "stopped"

  abbrev Later : List Call → World → Type 0
  Later xs w = w.calls ≡ taken stopped ++ xs

  abbrev OutOf : Exit → World → Type 0
  OutOf e w = IsPrefix w.calls (plan stopped)

  pub prepare_phases-order :
      (req : UpdateRequest) (app : App)
      → Ensures (λ w. w.calls ≡ []) (λ w. w.calls ≡ prepare ∷ []) OutOf (prepare_phases a req app)
  unfolding prepare_phases begin_candidate create_release build_release
  prepare_phases-order req app =
      let full = plan stopped in
      Ensures-seq (steady_directories full [] full refl a req app) (
        Ensures-seq (Ensures-assign _ (λ w h. h)) (
          Ensures-seq (steady_source full [] full refl a req app) (
            Ensures-seq (steady_plan full [] full refl a req app) (
              Ensures-seq (tries full [] full refl _ _ _ (λ w h. h)) (
                Ensures-seq (steady_replace full [] full refl a req app) (
                  Ensures-seq (status full [] full refl a _ _ _) (
                    Ensures-seq (tries full [] full refl _ _ _ (λ w h. h)) (
                      Ensures-seq (calls full [] full refl prepare) (
                        Ensures-seq (tries full (prepare ∷ []) _ refl _ _ _ (λ w h. h))
                          (tries full (prepare ∷ []) _ refl _ _ _ (λ w h. h)))))))))))

  -- A call behind the stop, and one that may fail.
  next_call : (xs : List Call) (c : Call) → Ensures (Later xs) (Later (xs ++ c ∷ [])) OutOf (call c)
  next_call xs c = Ensures-call c (λ w h. ap (λ x. x ++ c ∷ []) h ∙ more stopped xs c)

  next_try :
      (xs ys : List Call)
      → xs ++ ys ≡ left_from_backup
      → (answer : Answer) (exit : Bytes → Exit) (f : World → World)
      → ((w : World) → Later xs w → Later xs (f w))
      → Ensures (Later xs) (Later xs) OutOf (attempt answer exit f)
  next_try xs ys h = tries (plan stopped) (taken stopped ++ xs) ys (whole stopped xs ys h)

  next_status :
      (xs ys : List Call)
      → xs ++ ys ≡ left_from_backup
      → (answer : Answer) (exit : Bytes → Exit) (s : String)
      → Ensures (Later xs) (Later xs) OutOf (set_status a answer exit s)
  next_status xs ys h = status (plan stopped) (taken stopped ++ xs) ys (whole stopped xs ys h) a

  pub stop_app-order : Ensures (λ w. w.calls ≡ prepare ∷ []) (Later []) OutOf (stop_app a)
  unfolding stop_app
  stop_app-order =
      let full = plan stopped in
      let before = prepare ∷ inspect ∷ [] in
      Ensures-seq (status full (prepare ∷ []) _ refl a _ _ _) (
        Ensures-seq (calls full (prepare ∷ []) _ refl inspect) (
          Ensures-seq (tries full before _ refl _ _ _ (λ w h. h)) (
            Ensures-if stopped _ _ (λ e. Ensures-assign _ (λ w h. h ∙ taken_stopped stopped e))
              (λ e.
                Ensures-seq
                  (Ensures-call stop (λ w h. ap (λ x. x ++ stop ∷ []) h ∙ taken_running stopped e))
                  (next_try [] _ refl _ _ _ (λ w h. h))))))

  pub back_up-order : Ensures (Later []) (Later (backup ∷ migrate ∷ [])) OutOf (back_up a)
  unfolding back_up
  back_up-order = Ensures-seq (next_call [] backup) (
      Ensures-seq (next_try (backup ∷ []) _ refl _ _ _ (λ w h. h)) (
        Ensures-seq (next_call (backup ∷ []) migrate)
          (next_try (backup ∷ migrate ∷ []) _ refl _ _ _ (λ w h. h))))

  abbrev up_to_start : List Call
  up_to_start = backup ∷ migrate ∷ remove ∷ activate ∷ []

  cut_over-order :
      Ensures
        (Later (backup ∷ migrate ∷ []))
        (Later (up_to_start ++ inspect ∷ []))
        OutOf
        (cut_over a)
  unfolding cut_over
  cut_over-order = Ensures-seq (next_status (backup ∷ migrate ∷ []) _ refl _ _ _) (
      Ensures-seq (next_call (backup ∷ migrate ∷ []) remove) (
        Ensures-seq (next_try (backup ∷ migrate ∷ remove ∷ []) _ refl _ _ _ (λ w h. h)) (
          Ensures-seq (next_call (backup ∷ migrate ∷ remove ∷ []) activate) (
            Ensures-seq (next_try up_to_start _ refl _ _ _ (λ w h. h)) (
              Ensures-seq (next_status up_to_start _ refl _ _ _) (
                Ensures-seq (next_call up_to_start inspect)
                  (next_try (up_to_start ++ inspect ∷ []) _ refl _ _ _ (λ w h. h))))))))

  commit_release-order :
      Ensures
        (Later (up_to_start ++ inspect ∷ []))
        (Later left_from_backup)
        OutOf
        (commit_release a)
  unfolding commit_release
  commit_release-order =
      let done = next_try left_from_backup [] refl in
      Ensures-seq (next_call (up_to_start ++ inspect ∷ []) publish_route) (
        Ensures-seq (done _ _ _ (λ w h. h)) (
          Ensures-seq (done _ _ _ (λ w h. h)) (
            Ensures-seq (done _ _ _ (λ w h. h)) (
              Ensures-seq (done _ _ _ (λ w h. h)) (
                Ensures-attempt_partly _ _ _ _ (λ w h. h)
                  (λ w t h. ([], ap (λ x. x ++ []) h ∙ whole stopped left_from_backup [] refl)))))))

all_done : (b : Bool) → taken b ++ left_from_backup ≡ plan b
all_done true = refl
all_done false = refl

ended :
    (full cs : List Call) (x : Outcome Exit × World)
    → cs ≡ full
    → Post (λ w. w.calls ≡ cs) (λ e w. IsPrefix w.calls full) x
    → IsPrefix x.1.calls full × (x.0 ≡ next → x.1.calls ≡ full)
ended full cs (next, w) h p = (([], append-nil w.calls ∙ p ∙ h), λ e. p ∙ h)
ended full cs (leave exit, w) h p = (p, λ e. absurd cc)

-- Whatever calls fail, the calls that an update makes before it leaves its body are the first ones of a
-- fixed order, and all of them if it gets to the end: prepare, inspect, stop (unless the app was found
-- stopped), backup, migrate, remove, activate, inspect, publish_route. So nothing that runs is
-- touched before the release is built, the volumes are archived only after the stop, the old
-- containers go only after the backup, and a route is published only after the inspection.
pub all_phases-order :
    (a : Answers) (req : UpdateRequest) (app : App) (w : World)
    → w.calls ≡ []
    → let (o, w') = all_phases a req app w in
      IsPrefix w'.calls (plan (str_eq a.status_before_is "stopped"))
      × (o ≡ next → w'.calls ≡ plan (str_eq a.status_before_is "stopped"))
unfolding all_phases switch_phases
all_phases-order a req app w h =
    let all = Ensures-seq (prepare_phases-order a req app) (
      Ensures-seq (stop_app-order a) (
        Ensures-seq (back_up-order a) (Ensures-seq (cut_over-order a) (commit_release-order a)))) in
    ended (plan (stopped a)) (taken (stopped a) ++ left_from_backup) (all_phases a req app w)
      (all_done (stopped a)) (all.at w h)
