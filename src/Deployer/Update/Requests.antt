-- ===== src/Deployer/Update/Requests.antt =====
-- Which requests an app can be updated with.
use space_elevator.Base.{◌≡◌, ◌↔◌, ◌⊎◌, true, false, none, is_empty, trim_space, arith, eq_iff}
use space_elevator.Store.Rows.{App}
use space_elevator.Deployer.State.{UpdateRequest}
use space_elevator.Deployer.Update.{validate}

-- An update is let pass exactly for a Git app without an archive, and for an archive app with an
-- archive and no ref but white space.
pub validate_iff :
    (req : UpdateRequest) (app : App)
    → (validate req app ≡ none) ↔ (
        (app.source_type ≡ "git" × is_empty req.archive_path ≡ true)
        ⊎ (app.source_type ≡ "drop"
            × is_empty req.archive_path ≡ false
            × is_empty (trim_space req.ref) ≡ true))
unfolding validate
validate_iff req app = (
  λ h. ground (arith, eq_iff app.source_type "git", eq_iff app.source_type "drop"),
  λ h. ground (arith, eq_iff app.source_type "git", eq_iff app.source_type "drop"),
)
