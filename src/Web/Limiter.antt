-- ===== src/Web/Limiter.antt =====
-- ratelimit.go: the login limiter. Times are nanoseconds; the zero `time.Time` is 0.
pub mod Lockout
use space_elevator.Base.{
  ℕ, ◌+◌, ◌*◌, String, Bool, true, false, not, Option, none, some, List, [], ◌∷◌, ltb, leb,
  if◌then◌else◌, length, Dict, lookup, insert, remove,
}

pub record LoginFailures : Type 0 where
  pub count : ℕ
  pub locked_until : ℕ

-- The map `fails`; the mutex makes each method one step.
pub record LoginLimiter : Type 0 where
  pub fails : Dict LoginFailures

abbrev pub login_max_failures : ℕ
login_max_failures = 5

-- 15 minutes
abbrev pub login_lockout_period : ℕ
login_lockout_period = 15 * 60 * 1_000_000_000

abbrev pub max_tracked : ℕ
max_tracked = 10_000

abbrev pub new_login_limiter : LoginLimiter
new_login_limiter = record { fails = [] }

abbrev is_open : ℕ → Option LoginFailures → Bool
is_open now none = true
is_open now (some f) = not (ltb now f.locked_until)

unfoldable pub allow : ℕ → String → LoginLimiter → Bool
allow now ip l = is_open now (lookup ip l.fails)

-- `f.count++`, and the lock at the fifth failure
unfoldable pub count_failure : ℕ → LoginFailures → LoginFailures
count_failure now f =
    if leb login_max_failures (f.count + 1)
    then record { count = 0; locked_until = now + login_lockout_period }
    else record f { count = f.count + 1 }

-- The entry of a new address, in a map that is cleared when it has grown too long.
abbrev tracked : Option LoginFailures → Dict LoginFailures → LoginFailures × Dict LoginFailures
tracked (some f) fails = (f, fails)
tracked none fails =
    (record { count = 0; locked_until = 0 }, if ltb max_tracked (length fails) then [] else fails)

unfoldable pub fail : ℕ → String → LoginLimiter → LoginLimiter
unfolding count_failure
fail now ip l =
    let (f, fails) = tracked (lookup ip l.fails) l.fails in
    record l { fails = insert ip (count_failure now f) fails }

unfoldable pub success : String → LoginLimiter → LoginLimiter
success ip l = record l { fails = remove ip l.fails }
