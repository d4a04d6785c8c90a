-- ===== src/Web/Limiter/Lockout.antt =====
-- How many failures lock an address out, for how long, and what the limiter may forget.
use space_elevator.Base.{
  ℕ, ◌+◌, ◌≤◌, ◌<◌, ◌≡◌, refl, ◌∙◌, ◌≢◌, inl, inr, String, true, none, some, List, [], ◌∷◌, leb,
  length, lookup, insert, arith, eq_iff, str_eq_refl, lookup-insert, lookup-remove,
  length-insert_new, length-insert_old, length-remove-le, All, Option-cases,
}
use space_elevator.Web.Limiter.{
  LoginFailures, LoginLimiter, login_max_failures, login_lockout_period, max_tracked, allow,
  count_failure, fail, success,
}

-- What the handlers do with the limiter: a failed login, or a successful one.
pub data Event : Type 0 where
  failed : ℕ → String → Event
  succeeded : String → Event

unfoldable pub handle : Event → LoginLimiter → LoginLimiter
handle (failed now ip) l = fail now ip l
handle (succeeded ip) l = success ip l

unfoldable pub run : List Event → LoginLimiter → LoginLimiter
unfolding handle
run [] l = l
run (e ∷ es) l = run es (handle e l)

length-fail :
    (now : ℕ) (ip : String) (l : LoginLimiter)
    → length l.fails ≤ max_tracked + 1
    → length (fail now ip l).fails ≤ max_tracked + 1
unfolding fail insert
length-fail now ip l h = elim (Option-cases (lookup ip l.fails)) [
  | inl e ↦ rw e (
      ground (
        arith,
        length-insert_new ip (count_failure now (record { count = 0; locked_until = 0 })) l.fails,
      ))
  | inr (f, e) ↦ rw e (ground (arith, length-insert_old ip (count_failure now f) f l.fails))
]

-- Whatever logins are tried, the limiter tracks at most 10,001 addresses.
pub run_bounded :
    (es : List Event) (l : LoginLimiter)
    → length l.fails ≤ max_tracked + 1
    → length (run es l).fails ≤ max_tracked + 1
unfolding run handle success
run_bounded [] l h = h
run_bounded (failed now ip ∷ es) l h = run_bounded es (fail now ip l) (length-fail now ip l h)
run_bounded (succeeded ip ∷ es) l h =
    run_bounded es (success ip l) (omega (arith, length-remove-le ip l.fails))

-- Failures of one address, one after the other.
pub fail_all : String → List ℕ → LoginLimiter → LoginLimiter
fail_all ip [] l = l
fail_all ip (t ∷ ts) l = fail_all ip ts (fail t ip l)

abbrev Entry : String → LoginLimiter → LoginFailures → Type 0
Entry ip l f = lookup ip l.fails ≡ some f

fail-Entry :
    (now : ℕ) (ip : String) (l : LoginLimiter) (f : LoginFailures)
    → Entry ip l f
    → Entry ip (fail now ip l) (count_failure now f)
unfolding fail
fail-Entry now ip l f e = rw e (rw lookup-insert (ground (arith, str_eq_refl ip)))

fail-new :
    (now : ℕ) (ip : String) (l : LoginLimiter)
    → lookup ip l.fails ≡ none
    → Entry ip (fail now ip l) (record { count = 1; locked_until = 0 })
unfolding fail count_failure
fail-new now ip l e = rw e (rw lookup-insert (ground (arith, str_eq_refl ip)))

-- The failures below the fifth are counted and lock nothing.
fail_all-counts :
    (ip : String) (ts : List ℕ) (l : LoginLimiter) (f : LoginFailures)
    → Entry ip l f
    → f.count + length ts < login_max_failures
    → Entry ip (fail_all ip ts l) (record f { count = f.count + length ts })
unfolding fail_all count_failure
fail_all-counts ip [] l f e h = ground arith
fail_all-counts ip (t ∷ ts) l f e h =
    ground (arith, fail_all-counts ip ts (fail t ip l) (count_failure t f) (fail-Entry t ip l f e))

-- An address with no record may fail four times and is still let in; the fifth failure, at time `t`,
-- shuts it out at every time before `t` + 15 minutes, and at no time from then on.
pub fifth_failure_locks :
    (ip : String) (ts : List ℕ) (t : ℕ) (l : LoginLimiter)
    → lookup ip l.fails ≡ none
    → length ts ≡ 4
    → ((now : ℕ) → allow now ip (fail_all ip ts l) ≡ true)
      × ((now : ℕ)
          → allow now ip (fail t ip (fail_all ip ts l)) ≡ leb (t + login_lockout_period) now)
unfolding allow fail_all count_failure
fifth_failure_locks ip [] t l new h = absurd (omega arith)
fifth_failure_locks ip (t₀ ∷ ts) t l new h =
    let first : LoginFailures = record { count = 1; locked_until = 0 } in
    let fourth = fail_all-counts ip ts (fail t₀ ip l) first (fail-new t₀ ip l new) (omega arith) in
    (
      λ now. ground (arith, fourth),
      λ now. ground (
        arith,
        fail-Entry t ip (fail_all ip ts (fail t₀ ip l)) (record first { count = 1 + length ts })
            fourth,
      ),
    )

abbrev pub address : Event → String
address (failed now ip) = ip
address (succeeded ip) = ip

handle_other :
    (ip : String) (e : Event) (l : LoginLimiter)
    → address e ≢ ip
    → length l.fails ≤ max_tracked
    → (lookup ip (handle e l).fails ≡ lookup ip l.fails)
      × (length (handle e l).fails ≤ length l.fails + 1)
unfolding handle fail success
handle_other ip (failed now a) l other h = elim (Option-cases (lookup a l.fails)) [
  | inl e ↦
      rw (e, lookup-insert)
        (ground (
          arith,
          eq_iff a ip,
          length-insert_new a (count_failure now (record { count = 0; locked_until = 0 })) l.fails,
        ))
  | inr (f, e) ↦
      rw (e, lookup-insert)
        (ground (arith, eq_iff a ip, length-insert_old a (count_failure now f) f l.fails))
]
handle_other ip (succeeded a) l other h =
    (rw lookup-remove (ground (arith, eq_iff a ip)), omega (arith, length-remove-le a l.fails))

-- Logins from other addresses neither lock an address out nor let it in again, as long as they
-- cannot fill the map: whether it is let in, at any time, is as before.
pub run-others :
    (ip : String) (es : List Event) (l : LoginLimiter)
    → All (λ e. address e ≢ ip) es
    → length l.fails + length es ≤ max_tracked + 1
    → (now : ℕ) → allow now ip (run es l) ≡ allow now ip l
unfolding run
run-others ip [] l others h now = refl
run-others ip (e ∷ es) l others h now =
    let (same, grown) = handle_other ip e l others.0 (omega arith) in
    run-others ip es (handle e l) others.1 (omega arith) now ∙ unfold allow in rw same

-- A failure from a new address that meets a full map clears it: every other address is let in
-- at once, also one that was locked out.
pub fail-clears :
    (now : ℕ) (new ip : String) (l : LoginLimiter)
    → max_tracked < length l.fails
    → lookup new l.fails ≡ none
    → new ≢ ip
    → (later : ℕ) → allow later ip (fail now new l) ≡ true
unfolding allow fail lookup insert
fail-clears now new ip l full h other later = ground (arith, eq_iff new ip)
