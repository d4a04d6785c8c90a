-- ===== src/Web/Runner/Work.antt =====
-- What the runner still has to do, and what one step of it does.
use space_elevator.Base.{
  ℕ, zero, suc, ◌+◌, ◌*◌, ◌≡◌, Bool, true, false, ◌==◌, Option, none, some, List, [], ◌∷◌, ◌++◌,
  if◌then◌else◌, length, ltb, arith,
}
use space_elevator.Web.Runner.{
  Worker, idle, received, running, exited, Runner, Event, send, receive, check, return, capacity,
  get_elem?, set, erase,
}

module _ {ℓ} {A : Type ℓ} (f : A → ℕ) where
  unfoldable pub total : List A → ℕ
  total [] = 0
  total (x ∷ xs) = f x + total xs

  pub total-set :
      (xs : List A) (i : ℕ) (old v : A)
      → get_elem? xs i ≡ some old
      → total (set xs i v) + f old ≡ total xs + f v
  unfolding total set get_elem?
  total-set [] i old v h = cc
  total-set (x ∷ xs) zero old v h = ground arith
  total-set (x ∷ xs) (suc i) old v h = omega (arith, total-set xs i old v h)

  pub total-erase :
      (xs : List A) (i : ℕ) (old : A)
      → get_elem? xs i ≡ some old
      → total (erase xs i) + f old ≡ total xs
  unfolding total erase get_elem?
  total-erase [] i old h = cc
  total-erase (x ∷ xs) zero old h = ground arith
  total-erase (x ∷ xs) (suc i) old h = omega (arith, total-erase xs i old h)

  pub total-append : (xs ys : List A) → total (xs ++ ys) ≡ total xs + total ys
  unfolding total
  total-append [] ys = omega arith
  total-append (x ∷ xs) ys = omega (arith, total-append xs ys)

-- The steps that a worker has before it; a job in the channel has three, and one outside it four.
abbrev pub steps_left : Worker → ℕ
steps_left idle = 0
steps_left (received j) = 2
steps_left (running j) = 1
steps_left exited = 0

abbrev pub work : Runner → ℕ
work r = 4 * length r.waiting + 3 * length r.jobs + total steps_left r.workers

abbrev pub is_job : ℕ → ℕ → ℕ
is_job j k = if k == j then 1 else 0

abbrev pub holds : ℕ → Worker → ℕ
holds j (received k) = is_job j k
holds j _ = 0

-- How often a job is still to be begun, and how often it has been.
abbrev pub owed : ℕ → Runner → ℕ
owed j r = total (is_job j) r.waiting + total (is_job j) r.jobs + total (holds j) r.workers

abbrev pub times_begun : ℕ → Runner → ℕ
times_begun j r = total (is_job j) r.begun

-- The steps that a running service makes by itself.
abbrev pub Internal : Event → Type 0
Internal (send k) = Unit
Internal (receive i) = Unit
Internal (check i) = Unit
Internal (return i) = Unit
Internal _ = ⊥

abbrev pub is_nonempty {ℓ} : {A : Type ℓ} → List A → Bool
is_nonempty [] = false
is_nonempty (x ∷ xs) = true

abbrev pub can_send : Option ℕ → List ℕ → Bool
can_send none jobs = false
can_send (some j) jobs = ltb (length jobs) capacity

abbrev pub can_step : Event → Option Worker → List ℕ → Bool
can_step (receive i) (some idle) jobs = is_nonempty jobs
can_step (check i) (some (received j)) jobs = true
can_step (return i) (some (running j)) jobs = true
can_step e w jobs = false

-- Whether an internal step does something.
abbrev pub enabled : Event → Runner → Bool
enabled (send k) r = can_send (get_elem? r.waiting k) r.jobs
enabled (receive i) r = can_step (receive i) (get_elem? r.workers i) r.jobs
enabled (check i) r = can_step (check i) (get_elem? r.workers i) r.jobs
enabled (return i) r = can_step (return i) (get_elem? r.workers i) r.jobs
enabled e r = false
