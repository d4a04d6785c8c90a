-- ===== src/Deployer/Deploy/Held.antt =====
-- Each phase of deployGit keeps the operation, the row and the snapshot of the secrets.
use space_elevator.Base.{
  ◌≡◌, String, str_eq, Option, some, List, [], ◌∷◌, Bytes, Dict, ap, ◌∙◌, subst, sym, Bool-cases,
  inl, inr, ◌&&◌, not,
}
use space_elevator.Store.Rows.{Operation, ok}
use space_elevator.Store.Apps.{stored_app, update_app}
use space_elevator.Store.Apps.Rows.{HasRow, RowIs, update_app-found, update_app-RowIs}
use space_elevator.Deployer.Program.{Answer, attempt, assign}
use space_elevator.Deployer.Program.Rules.{
  Ensures, Ensures-attempt, Ensures-assign, Ensures-seq, Ensures-imp,
}
use space_elevator.Deployer.Update.Kept.{Secrets, noted-Secrets}
use space_elevator.Deployer.Deploy.State.{Event, Site, GitRequest, Answers, happened, write_row}
use space_elevator.Deployer.Deploy.Run.{
  Exit, same, resolved, fetch_source, read_compose, store_secrets, save_secrets, set_secrets,
}
use space_elevator.Deployer.Deploy.Kept.{
  Owned, Points, Ensures-write, Untouched, Noted, Untouched-Secrets,
}

-- A failure leaves with secrets that can be put back.
abbrev pub Left : String → List Operation → Dict Bytes → Option String → Exit → Site → Type 0
Left id ops old release e = Owned id ops (Secrets old) release

-- The phases in front of the secrets, whatever is known of these.
module _ (id : String) (ops : List Operation) (old : Dict Bytes) (release : Option String)
    (K : Option (Dict Bytes) → Dict Bytes → Type 0)
    (weaken : (o : Option (Dict Bytes)) (now : Dict Bytes) → K o now → Secrets old o now) where
  abbrev Here : Site → Type 0
  Here = Owned id ops K release

  abbrev Out : Exit → Site → Type 0
  Out = Left id ops old release

  leaves : (s : Site) → Here s → Owned id ops (Secrets old) release s
  leaves s (o, i, r, k, c) = (o, i, r, weaken s.snapshot s.secrets k, c)

  -- A call that does not touch what is kept.
  checks :
      (answer : Answer) (exit : Bytes → Exit) (f : Site → Site)
      → ((s : Site) → Here s → Here (f s))
      → Ensures Here Here Out (attempt answer exit f)
  checks answer exit f go = Ensures-attempt answer exit f go (λ s t h. leaves s h)

  passes :
      (answer : Answer) (exit : Bytes → Exit) → Ensures Here Here Out (attempt answer exit same)
  passes answer exit = checks answer exit same (λ s h. h)

  happens : (e : Event) → Ensures Here Here Out (assign (happened e))
  happens e = Ensures-assign (happened e) (λ s h. h)

  stays : Ensures Here Here Out (assign same)
  stays = Ensures-assign same (λ s h. h)

  pub fetch_source-Here : (a : Answers) → Ensures Here Here Out (fetch_source a)
  unfolding fetch_source
  fetch_source-Here a =
      Ensures-seq (happens _)
        (Ensures-seq (passes _ _) (Ensures-seq (passes _ _) (Ensures-seq (happens _) (passes _ _))))

  resolved-Here : (a : Answers) (s : Site) → Here s → Here (record s { app = resolved a s.app })
  resolved-Here a s (o, i, r, k, c) =
      elim (Bool-cases (a.has_compose && not (str_eq s.app.kind "function"))) [
        | inl e ↦ rw e (o, i, r, k, c)
        | inr e ↦ rw e (o, i, r, k, c)
      ]

  -- `app` gets a new compose file, and its row the columns of `app`.
  abbrev Stored : Site → Type 0
  Stored s = Here s × Points id release s

  store_compose-Stored :
      (a : Answers) (exit : Bytes → Exit)
      → Ensures Here Stored Out
          (λ s. write_row a.store_compose a.error_text exit (update_app a.now s.app) s)
  store_compose-Stored a exit =
      Ensures-write a.store_compose a.error_text exit (λ s. update_app a.now s.app)
        (λ s h e. (stored s h, points s h e)) (λ s t h. leaves s h)
        (λ s t h. leaves (record s { db = (update_app a.now s.app s.db).1 }) (stored s h))
    where
      stored : (s : Site) → Here s → Here (record s { db = (update_app a.now s.app s.db).1 })
      stored s (o, i, r, k, c) =
          let (o', r') = update_app-found a.now s.app s.db (subst (λ x. HasRow x s.db) (sym i) r) in
          (o' ∙ o, i, subst (λ x. HasRow x (update_app a.now s.app s.db).1) i r', k, c)

      points :
          (s : Site)
          → Here s
          → (update_app a.now s.app s.db).0 ≡ ok tt
          → Points id release (record s { db = (update_app a.now s.app s.db).1 })
      points s (o, i, r, k, c) e =
          subst (λ x. RowIs x (λ b. b.current_release_id ≡ release) (update_app a.now s.app s.db).1)
            i
            (update_app-RowIs a.now s.app s.db {Q = λ b. b.current_release_id ≡ release}
              (λ b. unfold stored_app in c) (subst (λ x. HasRow x s.db) (sym i) r) e)

  pub read_compose-Stored : (a : Answers) → Ensures Here Stored Out (read_compose a)
  unfolding read_compose
  read_compose-Stored a = Ensures-seq (happens _) (
      Ensures-seq
        (checks _ _ (λ s. record s { app = resolved a s.app }) (λ s h. resolved-Here a s h))
        (Ensures-seq (passes _ _) (
          Ensures-seq (passes _ _) (
            Ensures-seq {Q = Here}
              (Ensures-assign
                (λ s. record s { app = record (s.app) { compose_yaml = a.resolved_compose } })
                (λ s h. h))
              (store_compose-Stored a _)))))

-- The secrets of the request are written; from the first one on, there is a snapshot.
module _ (id : String) (ops : List Operation) (old : Dict Bytes) (release : Option String) where
  abbrev With : (Option (Dict Bytes) → Dict Bytes → Type 0) → Site → Type 0
  With K s = Owned id ops K release s × Points id release s

  abbrev pub Ready : Site → Type 0
  Ready = With (Secrets old)

  store_secrets-Noted :
      (a : Answers) (secrets : List (String × Bytes))
      → Ensures
          (With (Noted old))
          (With (Noted old))
          (Left id ops old release)
          (store_secrets a secrets)
  unfolding store_secrets
  store_secrets-Noted a [] = Ensures-assign _ (λ s h. h)
  store_secrets-Noted a ((k, v) ∷ secrets) =
      Ensures-seq {Q = With (Noted old)}
        (Ensures-attempt _ _ _ (λ s h. h)
          (λ s t ((o, i, r, n, c), p). (o, i, r, noted-Secrets old s.secrets s.snapshot n, c)))
        (store_secrets-Noted a secrets)

  save_secrets-Ready :
      (a : Answers) (secrets : List (String × Bytes))
      → Ensures (With (Untouched old)) Ready (Left id ops old release) (save_secrets a secrets)
  unfolding save_secrets store_secrets
  save_secrets-Ready a [] = Ensures-seq {Q = With (Untouched old)} (Ensures-assign _ (λ s h. h)) (
      Ensures-assign _
        (λ s ((o, i, r, k, c), p). ((o, i, r, Untouched-Secrets old s.snapshot s.secrets k, c), p)))
  save_secrets-Ready a ((k, v) ∷ secrets) =
      Ensures-seq {Q = With (Noted old)}
        (Ensures-attempt _ _ _
          (λ s ((o, i, r, (e, same_now), c), p). ((o, i, r, ap some same_now, c), p))
          (λ s t ((o, i, r, n, c), p). (o, i, r, Untouched-Secrets old s.snapshot s.secrets n, c)))
        (Ensures-imp (store_secrets-Noted a ((k, v) ∷ secrets))
          (λ s ((o, i, r, n, c), p). ((o, i, r, noted-Secrets old s.secrets s.snapshot n, c), p)))

  pub set_secrets-Ready :
      (a : Answers) (req : GitRequest)
      → Ensures (With (Untouched old)) Ready (Left id ops old release) (set_secrets a req)
  unfolding set_secrets
  set_secrets-Ready a req =
      Ensures-seq (save_secrets-Ready a req.secrets)
        (Ensures-attempt _ _ _ (λ s h. h) (λ s t h. h.0))
