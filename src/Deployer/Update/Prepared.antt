-- ===== src/Deployer/Update/Prepared.antt =====
-- The phases up to the build leave everything that runs as it was found.
use space_elevator.Base.{
  ◌≡◌, refl, String, str_eq, Bool, true, some, List, [], ◌∷◌, ◌++◌, if◌then◌else◌, Bytes, Dict,
  insert, ap, ◌∙◌, bytes,
}
use space_elevator.Store.Rows.{App}
use space_elevator.Store.Operations.{is_active, advanced}
use space_elevator.Deployer.State.{UpdateRequest, World, Answers, Exit, fail, prepare}
use space_elevator.Deployer.Program.{Answer, ◌>>◌, attempt, assign}
use space_elevator.Deployer.Phases.{
  make_directories, begin_candidate, acquire_source, git_source, archive_source, plan_update,
  create_release, replace_secrets, store_secrets, build_release, set_status, with_release, is_nil,
  same,
}
use space_elevator.Deployer.Update.{prepare_phases}
use space_elevator.Deployer.Update.Rules.{Ensures-call}
use space_elevator.Deployer.Program.Rules.{
  Ensures, Ensures-attempt, Ensures-assign, Ensures-if, Ensures-seq, Ensures-imp,
}
use space_elevator.Deployer.Update.Kept.{
  up_after-append, noted-Secrets, moved, Kept, Running, Early, Noted, Left,
}

module _ (app : App) (old_secrets : Dict Bytes) (old_rows : Dict String) (up : Bool) where
  abbrev Kept' : World → Type 0
  Kept' = Kept app old_secrets old_rows up

  abbrev Running' : World → Type 0
  Running' = Running app old_secrets old_rows up

  abbrev Early' : World → Type 0
  Early' = Early app old_secrets old_rows up

  abbrev Noted' : World → Type 0
  Noted' = Noted app old_secrets old_rows up

  abbrev Left' : Exit → World → Type 0
  Left' = Left app old_secrets old_rows up

  -- A call of which a failure is a plain one.
  checks :
      {P Q : World → Type 0}
      → ((w : World) → P w → Kept' w)
      → (answer : Answer) (b : Bool) (p : Bytes → Bytes) (f : World → World)
      → ((w : World) → P w → Q (f w))
      → Ensures P Q Left' (attempt answer (λ e. fail b (p e)) f)
  checks left answer b p f go = Ensures-attempt answer (λ e. fail b (p e)) f go (λ w t h. left w h)

  edits :
      (answer : Answer) (b : Bool) (p : Bytes → Bytes) (f : World → World)
      → ((w : World) → Early' w → Early' (f w))
      → Ensures Early' Early' Left' (attempt answer (λ e. fail b (p e)) f)
  edits answer b p f go = checks {P = Early'} {Q = Early'} (λ w h. h.0) answer b p f go

  check :
      (answer : Answer) (b : Bool) (p : Bytes → Bytes)
      → Ensures Early' Early' Left' (attempt answer (λ e. fail b (p e)) (λ w. w))
  check answer b p = edits answer b p (λ w. w) (λ w h. h)

  make_directories-Early : (a : Answers) → Ensures Early' Early' Left' (make_directories a)
  unfolding make_directories
  make_directories-Early a = Ensures-seq (check _ _ _) (Ensures-seq (check _ _ _) (check _ _ _))

  git_source-Early :
      (a : Answers) (req : UpdateRequest) → Ensures Early' Early' Left' (git_source a req app)
  unfolding git_source
  git_source-Early a req = Ensures-seq (edits _ _ _ _ (λ w h. h)) (
      Ensures-seq (check _ _ _) (Ensures-seq (edits _ _ _ _ (λ w h. h)) (edits _ _ _ _ (λ w h. h))))

  archive_source-Early :
      (a : Answers) (req : UpdateRequest) → Ensures Early' Early' Left' (archive_source a req app)
  unfolding archive_source
  archive_source-Early a req = Ensures-seq (check _ _ _) (
      Ensures-seq
        (Ensures-if (str_eq app.kind "function") _ _ (λ e. edits _ _ _ _ (λ w h. h))
          (λ e. Ensures-seq (check _ _ _) (Ensures-seq (edits _ _ _ _ (λ w h. h)) (check _ _ _))))
        (Ensures-assign _ (λ w h. h)))

  acquire_source-Early :
      (a : Answers) (req : UpdateRequest) → Ensures Early' Early' Left' (acquire_source a req app)
  unfolding acquire_source
  acquire_source-Early a req =
      Ensures-seq
        (Ensures-if (str_eq app.source_type "git") _ _ (λ e. git_source-Early a req)
          (λ e. archive_source-Early a req))
        (check _ _ _)

  plan_update-Early : (a : Answers) → Ensures Early' Early' Left' (plan_update a)
  unfolding plan_update
  plan_update-Early a =
      Ensures-seq (check _ _ _)
        (Ensures-seq (edits _ _ _ _ (λ w (k, n, (s, o, c, u)). (k, n, (s, s, c, u)))) (check _ _ _))

  store_secrets-Noted :
      (a : Answers) (secrets : List (String × Bytes))
      → Ensures Noted' Noted' Left' (store_secrets a secrets)
  unfolding store_secrets
  store_secrets-Noted a [] = Ensures-assign _ (λ w h. h)
  store_secrets-Noted a ((k, v) ∷ secrets) =
      Ensures-seq
        (checks {P = Noted'} {Q = Noted'} (λ w h. h.0) _ _ _ _
          (λ w (k', n, f). (
            moved k' (k'.active) (noted-Secrets old_secrets (insert k v w.secrets) w.snapshot n),
            n,
            f,
          )))
        (store_secrets-Noted a secrets)

  replaced-Running :
      (a : Answers) (secrets : List (String × Bytes))
      → Ensures Early' Running' Left' (do
        if is_nil secrets
            then assign same
            else attempt a.get_secrets
                (with_release "")
                (λ w. record w { snapshot = some w.secrets })
        store_secrets a secrets)
  unfolding store_secrets
  replaced-Running a [] =
      Ensures-seq {Q = Early'} (Ensures-assign _ (λ w h. h))
        (Ensures-assign _ (λ w (k, n, f). (k, f)))
  replaced-Running a ((k, v) ∷ secrets) =
      Ensures-seq {Q = Noted'}
        (checks {P = Early'} {Q = Noted'} (λ w h. h.0) _ _ _ _
          (λ w (k', n, f). (moved k' (k'.active) n, ap some n, f)))
        (Ensures-imp (store_secrets-Noted a ((k, v) ∷ secrets)) (λ w (k', n, f). (k', f)))

  replace_secrets-Running :
      (a : Answers) (req : UpdateRequest) → Ensures Early' Running' Left' (replace_secrets a req)
  unfolding replace_secrets
  replace_secrets-Running a req = replaced-Running a req.secrets

  steps :
      (answer : Answer) (b : Bool) (p : Bytes → Bytes) (f : World → World)
      → ((w : World) → Running' w → Running' (f w))
      → Ensures Running' Running' Left' (attempt answer (λ e. fail b (p e)) f)
  steps answer b p f go = checks {P = Running'} {Q = Running'} (λ w h. h.0) answer b p f go

  set_status-Running :
      (a : Answers) (answer : Answer) (status : String)
      → is_active status ≡ true
      → Ensures Running' Running' Left' (set_status a answer (with_release "") status)
  unfolding set_status advanced
  set_status-Running a answer status e =
      steps answer true (λ t. bytes "" ++ t)
        (λ w. record w { operation = advanced a.now status w.operation })
        (λ w (k, f). (moved k e k.secrets_kept, f))

  build_release-Running : (a : Answers) → Ensures Running' Running' Left' (build_release a)
  unfolding build_release is_active
  build_release-Running a = Ensures-seq (set_status-Running a _ _ refl) (
      Ensures-seq (steps _ _ _ _ (λ w h. h)) (
        Ensures-seq
          (Ensures-call _
            (λ w (k, (s, o, c, u)). (k, (s, o, c, up_after-append up w.calls prepare ∙ u))))
          (Ensures-seq (steps _ _ _ _ (λ w h. h)) (steps _ _ _ _ (λ w h. h)))))

  pub prepare_phases-Running :
      (a : Answers) (req : UpdateRequest) → Ensures Early' Running' Left' (prepare_phases a req app)
  unfolding prepare_phases begin_candidate create_release
  prepare_phases-Running a req = Ensures-seq (make_directories-Early a) (
      Ensures-seq (Ensures-assign _ (λ w h. h)) (
        Ensures-seq (acquire_source-Early a req) (
          Ensures-seq (plan_update-Early a) (
            Ensures-seq (edits _ _ _ _ (λ w h. h))
              (Ensures-seq (replace_secrets-Running a req) (build_release-Running a))))))
