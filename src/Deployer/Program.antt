-- ===== src/Deployer/Program.antt =====
-- The way the functions of internal/deployer are written: a row of calls, each of which may fail, and
-- an exit through one of the function's closures at the first that does. A program runs on the state
-- `S` and is left through an exit of type `X`.
pub mod Rules
use space_elevator.Base.{Option, none, some, Bytes, bytes, String, str_eq, ◌++◌, if◌then◌else◌}

-- The answer of a call: `none` is success, and `some e` the error text.
abbrev pub Answer : Type 0
Answer = Option Bytes

pub data Outcome (X : Type 0) : Type 0 where
  next : Outcome X
  leave : X → Outcome X

abbrev pub Program : Type 0 → Type 0 → Type 0
Program S X = S → Outcome X × S

module _ {S X : Type 0} where
  -- `leave` skips what stands behind it.
  abbrev pub after : Outcome X → Program S X → Program S X
  after next k w = k w
  after (leave e) k w = (leave e, w)

  infixl 5 ◌>>◌
  abbrev pub ◌>>◌ : Program S X → Program S X → Program S X
  ◌>>◌ m k w = let (o, w') = m w in after o k w'

  -- `if err := call(); err != nil { return exit(err) }`, where success does `f` to the state
  unfoldable pub attempt : Answer → (Bytes → X) → (S → S) → Program S X
  attempt none e f w = (next, f w)
  attempt (some text) e f w = (leave (e text), w)

  -- The same for a call that may have written something before it failed, `g`.
  unfoldable pub attempt_partly : Answer → (Bytes → X) → (S → S) → (S → S) → Program S X
  attempt_partly none e f g w = (next, f w)
  attempt_partly (some text) e f g w = (leave (e text), g w)

  unfoldable pub assign : (S → S) → Program S X
  assign f w = (next, f w)

-- verifyRuntime: the answer of Status, and the status in it
abbrev pub verify_runtime : Answer → String → Answer
verify_runtime (some e) status = some e
verify_runtime none status =
    if str_eq status "running" then none else some (bytes "new release is " ++ bytes status)

-- an error behind a prefix
abbrev pub prefixed : String → Answer → Answer
prefixed p none = none
prefixed p (some e) = some (bytes p ++ e)
