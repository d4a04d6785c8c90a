-- ===== src/Web/Runner/Steps.antt =====
-- A step that does something takes one from the work that is left, and no job is lost or doubled.
use space_elevator.Base.{
  All, ◌≢◌, ℕ, zero, suc, ◌+◌, ◌<◌, ◌≡◌, refl, true, false, Option, none, some, List, [], ◌∷◌,
  length, length-append, arith, ◌⊎◌, inl, inr,
}
use space_elevator.Web.Runner.{
  Worker, idle, received, running, exited, Runner, Event, submit, send, give_up, receive, check,
  return, leave, stop, get_elem?, set, erase, step, receive_job, check_stop, worker_step, send_job,
}
use space_elevator.Web.Runner.Work.{
  total, total-set, total-erase, total-append, steps_left, work, is_job, holds, owed, times_begun,
  Internal, is_nonempty, can_send, can_step, enabled,
}

length-erase {ℓ} :
    {A : Type ℓ} (xs : List A) (i : ℕ) (x : A)
    → get_elem? xs i ≡ some x
    → length (erase xs i) + 1 ≡ length xs
unfolding erase get_elem?
length-erase [] i x h = cc
length-erase (y ∷ xs) zero x h = omega arith
length-erase (y ∷ xs) (suc i) x h = omega (arith, length-erase xs i x h)

length-set {ℓ} : {A : Type ℓ} (xs : List A) (i : ℕ) (x : A) → length (set xs i x) ≡ length xs
unfolding set
length-set [] i x = refl
length-set (y ∷ xs) zero x = refl
length-set (y ∷ xs) (suc i) x = omega (arith, length-set xs i x)

-- A worker that has not returned; a runner with a worker at least, and with none that has.
abbrev pub IsAlive : Worker → Type 0
IsAlive w = w ≢ exited

abbrev pub Alive : Runner → Type 0
Alive r = (0 < length r.workers) × All IsAlive r.workers

All-set {ℓ κ} :
    {A : Type ℓ} (P : A → Type κ) (xs : List A) (i : ℕ) (x : A)
    → P x
    → All P xs
    → All P (set xs i x)
unfolding set
All-set P [] i x p h = h
All-set P (y ∷ xs) zero x p h = (p, h.1)
All-set P (y ∷ xs) (suc i) x p h = (h.0, All-set P xs i x p h.1)

set-Alive :
    (ws : List Worker) (i : ℕ) (w : Worker)
    → IsAlive w
    → (0 < length ws) × All IsAlive ws
    → (0 < length (set ws i w)) × All IsAlive (set ws i w)
set-Alive ws i w p (n, a) = (omega (arith, length-set ws i w), All-set IsAlive ws i w p a)

-- What a step does: one step of work less, with every job begun once more or still owed; or nothing.
pub record Does (r r' : Runner) : Type 0 where
  pub less : work r' + 1 ≡ work r
  pub kept : (j : ℕ) → owed j r' + times_begun j r' ≡ owed j r + times_begun j r
  pub runs : r'.stopped ≡ r.stopped
  pub lives : Alive r → Alive r'

send-Does :
    (k : ℕ) (r : Runner) (o : Option ℕ)
    → get_elem? r.waiting k ≡ o
    → can_send o r.jobs ≡ true
    → Does r (send_job k o r)
unfolding send_job total
send-Does k r none h e = cc
send-Does k r (some j) h e = rw e (record {
  less = omega (arith, length-erase r.waiting k j h, length-append r.jobs (j ∷ []));
  kept = λ i.
      omega
        (arith, total-erase (is_job i) r.waiting k j h, total-append (is_job i) r.jobs (j ∷ []));
  runs = refl;
  lives = λ v. v;
})

module _ (i : ℕ) (r : Runner) where
  receive-Does :
      (jobs : List ℕ)
      → r.jobs ≡ jobs
      → get_elem? r.workers i ≡ some idle
      → is_nonempty jobs ≡ true
      → Does r (receive_job i jobs r)
  unfolding receive_job total
  receive-Does [] e h n = cc
  receive-Does (j ∷ jobs) e h n = record {
    less = rw e (omega (arith, total-set steps_left r.workers i idle (received j) h));
    kept = λ k. rw e (omega (arith, total-set (holds k) r.workers i idle (received j) h));
    runs = refl;
    lives = set-Alive r.workers i (received j) (λ q. cc);
  }

  check-Does :
      (j : ℕ)
      → r.stopped ≡ false
      → get_elem? r.workers i ≡ some (received j)
      → Does r (check_stop i j r)
  unfolding check_stop total
  check-Does j e h = rw e (record {
    less = omega (arith, total-set steps_left r.workers i (received j) (running j) h);
    kept = λ k. omega (
      arith,
      total-set (holds k) r.workers i (received j) (running j) h,
      total-append (is_job k) r.begun (j ∷ []),
    );
    runs = refl;
    lives = set-Alive r.workers i (running j) (λ q. cc);
  })

  return-Does :
      (j : ℕ)
      → get_elem? r.workers i ≡ some (running j)
      → Does r (record r { workers = set r.workers i idle })
  return-Does j h = record {
    less = omega (arith, total-set steps_left r.workers i (running j) idle h);
    kept = λ k. omega (arith, total-set (holds k) r.workers i (running j) idle h);
    runs = refl;
    lives = set-Alive r.workers i idle (λ q. cc);
  }

  -- The i-th worker, by where it stands.
  worker_step-Does :
      (e : Event) (w : Option Worker)
      → (e ≡ receive i) ⊎ ((e ≡ check i) ⊎ (e ≡ return i))
      → r.stopped ≡ false
      → get_elem? r.workers i ≡ w
      → can_step e w r.jobs ≡ true
      → Does r (worker_step e w r)
  unfolding worker_step
  worker_step-Does e none (inl q) s h c = absurd (cc (rw q at c))
  worker_step-Does e none (inr (inl q)) s h c = absurd (cc (rw q at c))
  worker_step-Does e none (inr (inr q)) s h c = absurd (cc (rw q at c))
  worker_step-Does e (some idle) (inl q) s h c = rw q (receive-Does r.jobs refl h (rw q at c))
  worker_step-Does e (some idle) (inr (inl q)) s h c = absurd (cc (rw q at c))
  worker_step-Does e (some idle) (inr (inr q)) s h c = absurd (cc (rw q at c))
  worker_step-Does e (some (received j)) (inl q) s h c = absurd (cc (rw q at c))
  worker_step-Does e (some (received j)) (inr (inl q)) s h c = rw q (check-Does j s h)
  worker_step-Does e (some (received j)) (inr (inr q)) s h c = absurd (cc (rw q at c))
  worker_step-Does e (some (running j)) (inl q) s h c = absurd (cc (rw q at c))
  worker_step-Does e (some (running j)) (inr (inl q)) s h c = absurd (cc (rw q at c))
  worker_step-Does e (some (running j)) (inr (inr q)) s h c = rw q (return-Does j h)
  worker_step-Does e (some exited) (inl q) s h c = absurd (cc (rw q at c))
  worker_step-Does e (some exited) (inr (inl q)) s h c = absurd (cc (rw q at c))
  worker_step-Does e (some exited) (inr (inr q)) s h c = absurd (cc (rw q at c))

pub step-Does :
    (e : Event) (r : Runner)
    → Internal e
    → r.stopped ≡ false
    → enabled e r ≡ true
    → Does r (step e r)
unfolding step
step-Does (send k) r n s h = send-Does k r (get_elem? r.waiting k) refl h
step-Does (receive i) r n s h =
    worker_step-Does i r (receive i) (get_elem? r.workers i) (inl refl) s refl h
step-Does (check i) r n s h =
    worker_step-Does i r (check i) (get_elem? r.workers i) (inr (inl refl)) s refl h
step-Does (return i) r n s h =
    worker_step-Does i r (return i) (get_elem? r.workers i) (inr (inr refl)) s refl h
step-Does (submit j) r n s h = absurd n
step-Does (give_up k) r n s h = absurd n
step-Does (leave i) r n s h = absurd n
step-Does stop r n s h = absurd n

send_job-same : (k : ℕ) (o : Option ℕ) (r : Runner) → can_send o r.jobs ≡ false → send_job k o r ≡ r
unfolding send_job
send_job-same k none r h = refl
send_job-same k (some j) r h = rw h refl

receive_job-same :
    (i : ℕ) (jobs : List ℕ) (r : Runner) → is_nonempty jobs ≡ false → receive_job i jobs r ≡ r
unfolding receive_job
receive_job-same i [] r h = refl
receive_job-same i (j ∷ jobs) r h = cc

module _ (i : ℕ) (r : Runner) where
  receive-same :
      (w : Option Worker) → can_step (receive i) w r.jobs ≡ false → worker_step (receive i) w r ≡ r
  unfolding worker_step
  receive-same none h = refl
  receive-same (some idle) h = receive_job-same i r.jobs r h
  receive-same (some (received j)) h = refl
  receive-same (some (running j)) h = refl
  receive-same (some exited) h = refl

  check-same :
      (w : Option Worker) → can_step (check i) w r.jobs ≡ false → worker_step (check i) w r ≡ r
  unfolding worker_step
  check-same none h = refl
  check-same (some idle) h = refl
  check-same (some (received j)) h = cc
  check-same (some (running j)) h = refl
  check-same (some exited) h = refl

  return-same :
      (w : Option Worker) → can_step (return i) w r.jobs ≡ false → worker_step (return i) w r ≡ r
  unfolding worker_step
  return-same none h = refl
  return-same (some idle) h = refl
  return-same (some (received j)) h = refl
  return-same (some (running j)) h = cc
  return-same (some exited) h = refl

-- A step that is not enabled does nothing.
pub step-same : (e : Event) (r : Runner) → Internal e → enabled e r ≡ false → step e r ≡ r
unfolding step
step-same (send k) r n h = send_job-same k (get_elem? r.waiting k) r h
step-same (receive i) r n h = receive-same i r (get_elem? r.workers i) h
step-same (check i) r n h = check-same i r (get_elem? r.workers i) h
step-same (return i) r n h = return-same i r (get_elem? r.workers i) h
step-same (submit j) r n h = absurd n
step-same (give_up k) r n h = absurd n
step-same (leave i) r n h = absurd n
step-same stop r n h = absurd n
