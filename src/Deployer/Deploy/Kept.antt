-- ===== src/Deployer/Deploy/Kept.antt =====
-- What the phases of deployGit keep true of the rows and the secrets, and the rules for them.
use space_elevator.Base.{
  subst, sym, ◌≡◌, refl, String, Bool, true, false, Option, none, some, List, [], ◌∷◌, ◌++◌, Bytes,
  Dict,
}
use space_elevator.Store.Rows.{Operation, Db, Error, Result, ok, err}
use space_elevator.Store.Apps.Rows.{HasRow, RowIs}
use space_elevator.Deployer.Program.{Answer}
use space_elevator.Deployer.Program.Rules.{Post, Ensures}
use space_elevator.Deployer.Update.Kept.{Secrets}
use space_elevator.Deployer.Deploy.State.{Event, remove, deploy, Site, write_row, written}

-- Whether the containers are up behind the events, if each call works.
abbrev pub up_behind : Bool → Event → Bool
up_behind up deploy = true
up_behind up remove = false
up_behind up _ = up

unfoldable pub up_after : Bool → List Event → Bool
up_after up [] = up
up_after up (e ∷ es) = up_after (up_behind up e) es

pub up_after-append :
    (up : Bool) (es fs : List Event) → up_after up (es ++ fs) ≡ up_after (up_after up es) fs
unfolding up_after
up_after-append up [] fs = refl
up_after-append up (e ∷ es) fs = up_after-append (up_behind up e) es fs

-- A write that is refused leaves the phase; one that is not goes on with its rows.
module _ {X : Type 0} (Q : Site → Type 0) (E : X → Site → Type 0) where
  written-Post :
      (r : Result (Unit {0}) × Db) (text : Error → Bytes) (exit : Bytes → X) (s : Site)
      → (r.0 ≡ ok tt → Q (record s { db = r.1 }))
      → ((t : Bytes) → E (exit t) (record s { db = r.1 }))
      → Post Q E (written r text exit s)
  written-Post (ok u, db) text exit s go out = go refl
  written-Post (err e, db) text exit s go out = out (text e)

  write_row-Post :
      (answer : Answer) (text : Error → Bytes) (exit : Bytes → X) (f : Db → Result (Unit {0}) × Db)
      (s : Site)
      → ((f s.db).0 ≡ ok tt → Q (record s { db = (f s.db).1 }))
      → ((t : Bytes) → E (exit t) s)
      → ((t : Bytes) → E (exit t) (record s { db = (f s.db).1 }))
      → Post Q E (write_row answer text exit f s)
  unfolding write_row
  write_row-Post (some e) text exit f s go stay out = stay e
  write_row-Post none text exit f s go stay out = written-Post (f s.db) text exit s go out

module _ {X : Type 0} {P Q : Site → Type 0} {E : X → Site → Type 0} where
  pub Ensures-write :
      (answer : Answer) (text : Error → Bytes) (exit : Bytes → X)
      (f : Site → Db → Result (Unit {0}) × Db)
      → ((s : Site) → P s → (f s s.db).0 ≡ ok tt → Q (record s { db = (f s s.db).1 }))
      → ((s : Site) (t : Bytes) → P s → E (exit t) s)
      → ((s : Site) (t : Bytes) → P s → E (exit t) (record s { db = (f s s.db).1 }))
      → Ensures P Q E (λ s. write_row answer text exit (f s) s)
  Ensures-write answer text exit f go stay out = record {
    at = λ s p.
        write_row-Post Q E answer text exit (f s) s (go s p) (λ t. stay s t p) (λ t. out s t p);
  }

-- What is known of the snapshot and of the secrets: untouched, in the snapshot, or one of the two.
abbrev pub Untouched : Dict Bytes → Option (Dict Bytes) → Dict Bytes → Type 0
Untouched old snapshot now = (snapshot ≡ none) × (now ≡ old)

abbrev pub Noted : Dict Bytes → Option (Dict Bytes) → Dict Bytes → Type 0
Noted old snapshot now = snapshot ≡ some old

pub Untouched-Secrets :
    (old : Dict Bytes) (snapshot : Option (Dict Bytes)) (now : Dict Bytes)
    → Untouched old snapshot now
    → Secrets old snapshot now
Untouched-Secrets old snapshot now (e, k) = subst (λ x. Secrets old x now) (sym e) k

-- The operations are those at the claim, `app` and its row are there, `K` holds of the secrets, and
-- `app` points at the release that was found.
abbrev pub Owned :
    String
    → List Operation
    → (Option (Dict Bytes) → Dict Bytes → Type 0)
    → Option String
    → Site
    → Type 0
Owned id ops K release s =
    (s.db.operations ≡ ops)
    × (s.app.id ≡ id)
    × HasRow id s.db
    × K s.snapshot s.secrets
    × (s.app.current_release_id ≡ release)

-- The row points at a release.
abbrev pub Points : String → Option String → Site → Type 0
Points id release s = RowIs id (λ b. b.current_release_id ≡ release) s.db
