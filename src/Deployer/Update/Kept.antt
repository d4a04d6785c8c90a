-- ===== src/Deployer/Update/Kept.antt =====
-- What the phases of update.go keep true of the rows, the secrets and the containers.
use space_elevator.Base.{
  ◌≡◌, refl, String, Bool, true, false, Option, none, some, List, [], ◌∷◌, ◌++◌, Bytes, Dict, subst,
  sym,
}
use space_elevator.Store.Rows.{App}
use space_elevator.Store.Operations.{is_active}
use space_elevator.Deployer.State.{
  World, Exit, fail, resume, rollback, Call, start, stop, remove, activate, redeploy,
}

-- Whether the containers are up behind a call, if it works.
abbrev pub up_behind : Bool → Call → Bool
up_behind up start = true
up_behind up activate = true
up_behind up redeploy = true
up_behind up stop = false
up_behind up remove = false
up_behind up _ = up

-- Whether they are up behind all calls, from what was found.
unfoldable pub up_after : Bool → List Call → Bool
up_after up [] = up
up_after up (c ∷ cs) = up_after (up_behind up c) cs

pub up_after-append :
    (up : Bool) (cs : List Call) (c : Call)
    → up_after up (cs ++ c ∷ []) ≡ up_behind (up_after up cs) c
unfolding up_after
up_after-append up [] c = refl
up_after-append up (x ∷ cs) c = up_after-append (up_behind up x) cs c

-- The secrets to go back to are those of the start.
abbrev pub Secrets : Dict Bytes → Option (Dict Bytes) → Dict Bytes → Type 0
Secrets secrets none now = now ≡ secrets
Secrets secrets (some s) now = s ≡ secrets

pub noted-Secrets :
    (old now : Dict Bytes) (snapshot : Option (Dict Bytes))
    → snapshot ≡ some old
    → Secrets old snapshot now
noted-Secrets old now snapshot e = subst (λ x. Secrets old x now) (sym e) refl

-- What every phase keeps: the operation is active, and the secrets can be put back.
pub record Restorable (old_secrets : Dict Bytes) (status : String) (snapshot : Option (Dict Bytes))
    (now : Dict Bytes) (restored : Bool) : Type 0 where
  pub active : is_active status ≡ true
  pub secrets_kept : Secrets old_secrets snapshot now
  pub not_restored : restored ≡ false

pub moved :
    {old_secrets now now' : Dict Bytes} {status status' : String}
    {snapshot snapshot' : Option (Dict Bytes)} {restored : Bool}
    → Restorable old_secrets status snapshot now restored
    → is_active status' ≡ true
    → Secrets old_secrets snapshot' now'
    → Restorable old_secrets status' snapshot' now' restored
moved k e s = record { active = e; secrets_kept = s; not_restored = k.not_restored }

-- What the update found: the row of the app, the secrets, the storage, and whether it was running.
module _ (app : App) (old_secrets : Dict Bytes) (old_rows : Dict String) (up : Bool) where
  abbrev pub Kept : World → Type 0
  Kept w = Restorable old_secrets w.operation.status w.snapshot w.secrets w.secrets_restored

  -- The app runs, or does not, as it was found.
  abbrev pub AsFound : World → Type 0
  AsFound w =
      w.storage ≡ old_rows
      × w.old_storage ≡ old_rows
      × w.app.current_release_id ≡ app.current_release_id
      × up_after up w.calls ≡ up

  abbrev pub Running : World → Type 0
  Running w = Kept w × AsFound w

  -- Before the secrets are noted, and behind that.
  abbrev pub Early : World → Type 0
  Early w = Kept w × w.secrets ≡ old_secrets × AsFound w

  abbrev pub Noted : World → Type 0
  Noted w = Kept w × w.snapshot ≡ some old_secrets × AsFound w

  -- Stopped, and the candidate is not started yet.
  abbrev pub Stopped : World → Type 0
  Stopped w =
      Kept w
      × w.storage ≡ old_rows
      × w.old_storage ≡ old_rows
      × w.app.current_release_id ≡ app.current_release_id
      × w.we_stopped ≡ up
      × up_after up w.calls ≡ false

  -- From the cutover on.
  abbrev pub Switching : World → Type 0
  Switching w = Kept w × w.old_storage ≡ old_rows × w.we_stopped ≡ up

  -- With the candidate up, and then with its rows.
  abbrev pub Activated : World → Type 0
  Activated w = Kept w × w.old_storage ≡ old_rows × w.we_stopped ≡ up × up_after up w.calls ≡ true

  abbrev pub Committed : String → World → Type 0
  Committed release_id w =
      Activated w × w.app.status ≡ "running" × w.app.current_release_id ≡ some release_id

  abbrev pub Left : Exit → World → Type 0
  Left (fail has_release e) w = Kept w
  Left (resume cause e) w = Stopped w
  Left (rollback reason) w = Switching w
