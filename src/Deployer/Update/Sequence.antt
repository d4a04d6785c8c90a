-- ===== src/Deployer/Update/Sequence.antt =====
-- The calls of an update, and the phases that make none of them.
use space_elevator.Base.{
  ◌≡◌, ap, ◌∙◌, String, str_eq, Bool, List, [], ◌∷◌, ◌++◌, if◌then◌else◌, Bytes,
}
use space_elevator.Store.Rows.{App}
use space_elevator.Deployer.State.{
  UpdateRequest, World, Answers, Exit, Call, prepare, inspect, stop, remove, activate, backup,
  migrate, publish_route, call,
}
use space_elevator.Deployer.Program.{Answer, Outcome, attempt}
use space_elevator.Deployer.Phases.{
  make_directories, acquire_source, git_source, archive_source, plan_update, replace_secrets,
  store_secrets, set_status, is_nil,
}
use space_elevator.Deployer.Update.Rules.{Ensures-call}
use space_elevator.Deployer.Program.Rules.{
  Ensures, Ensures-attempt, Ensures-assign, Ensures-if, Ensures-seq,
}

-- All the calls of an update, for an app that was found stopped or not.
abbrev pub plan : Bool → List Call
plan stopped =
    prepare ∷ inspect ∷ (if stopped then [] else stop ∷ [])
    ++ backup ∷ migrate ∷ remove ∷ activate ∷ inspect ∷ publish_route ∷ []

abbrev pub IsPrefix : List Call → List Call → Type 0
IsPrefix cs full = (rest : List Call) × (cs ++ rest ≡ full)

module _ (full : List Call) where
  abbrev pub At : List Call → World → Type 0
  At cs w = w.calls ≡ cs

  abbrev pub Out : Exit → World → Type 0
  Out e w = IsPrefix w.calls full

  -- Where `cs` is done and `rest` is still to do.
  module _ (cs rest : List Call) (whole : cs ++ rest ≡ full) where
    abbrev pub Steady : (World → Outcome Exit × World) → Type 0
    Steady m = Ensures (At cs) (At cs) Out m

    out : (w : World) → At cs w → IsPrefix w.calls full
    out w h = (rest, ap (λ x. x ++ rest) h ∙ whole)

    pub tries :
        (answer : Answer) (exit : Bytes → Exit) (f : World → World)
        → ((w : World) → At cs w → At cs (f w))
        → Steady (attempt answer exit f)
    tries answer exit f go = Ensures-attempt answer exit f go (λ w t h. out w h)

    pub status :
        (a : Answers) (answer : Answer) (exit : Bytes → Exit) (s : String)
        → Steady (set_status a answer exit s)
    unfolding set_status
    status a answer exit s = tries _ _ _ (λ w h. h)

    pub calls : (c : Call) → Ensures (At cs) (At (cs ++ c ∷ [])) Out (call c)
    calls c = Ensures-call c (λ w h. ap (λ x. x ++ c ∷ []) h)

    pub steady_secrets :
        (a : Answers) (secrets : List (String × Bytes)) → Steady (store_secrets a secrets)
    unfolding store_secrets
    steady_secrets a [] = Ensures-assign _ (λ w h. h)
    steady_secrets a ((k, v) ∷ secrets) =
        Ensures-seq (tries _ _ _ (λ w h. h)) (steady_secrets a secrets)

    module _ (a : Answers) (req : UpdateRequest) (app : App) where
      pub steady_source : Steady (acquire_source a req app)
      unfolding acquire_source git_source archive_source
      steady_source =
          Ensures-seq
            (Ensures-if (str_eq app.source_type "git") _ _
              (λ e. Ensures-seq (tries _ _ _ (λ w h. h)) (
                Ensures-seq (tries _ _ _ (λ w h. h))
                  (Ensures-seq (tries _ _ _ (λ w h. h)) (tries _ _ _ (λ w h. h)))))
              (λ e. Ensures-seq (tries _ _ _ (λ w h. h)) (
                Ensures-seq
                  (Ensures-if (str_eq app.kind "function") _ _ (λ e. tries _ _ _ (λ w h. h))
                    (λ e.
                      Ensures-seq (tries _ _ _ (λ w h. h))
                        (Ensures-seq (tries _ _ _ (λ w h. h)) (tries _ _ _ (λ w h. h)))))
                  (Ensures-assign _ (λ w h. h)))))
            (tries _ _ _ (λ w h. h))

      pub steady_plan : Steady (plan_update a)
      unfolding plan_update
      steady_plan =
          Ensures-seq (tries _ _ _ (λ w h. h))
            (Ensures-seq (tries _ _ _ (λ w h. h)) (tries _ _ _ (λ w h. h)))

      pub steady_replace : Steady (replace_secrets a req)
      unfolding replace_secrets
      steady_replace =
          Ensures-seq
            (Ensures-if (is_nil req.secrets) _ _ (λ e. Ensures-assign _ (λ w h. h))
              (λ e. tries _ _ _ (λ w h. h)))
            (steady_secrets a req.secrets)

      pub steady_directories : Steady (make_directories a)
      unfolding make_directories
      steady_directories =
          Ensures-seq (tries _ _ _ (λ w h. h))
            (Ensures-seq (tries _ _ _ (λ w h. h)) (tries _ _ _ (λ w h. h)))
