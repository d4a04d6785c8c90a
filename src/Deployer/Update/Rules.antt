-- ===== src/Deployer/Update/Rules.antt =====
-- The rule for a call that touches the containers.
use space_elevator.Deployer.State.{World, Exit, call, made, Call}
use space_elevator.Deployer.Program.Rules.{Ensures}

module _ {P Q : World → Type 0} {E : Exit → World → Type 0} where
  pub Ensures-call : (c : Call) → ((w : World) → P w → Q (made c w)) → Ensures P Q E (call c)
  unfolding call
  Ensures-call c go = record { at = go }
