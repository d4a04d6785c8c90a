-- ===== src/Web/Runner.antt =====
-- deployment_runner.go: the queue of deployments and its workers. What the goroutines do is a
-- sequence of events, one for each step that others can see; an event that is not enabled does
-- nothing. A job is known by a number; `nil` jobs are dropped by `submit` and never get here.
pub mod Work
pub mod Steps
pub mod Drain
mod Tests
use space_elevator.Base.{
  ℕ, zero, suc, ◌≤◌, Bool, true, false, not, ◌&&◌, ◌==◌, Option, none, some, List, [], ◌∷◌, ◌++◌,
  if◌then◌else◌, length, ltb, max,
}

-- Where a worker stands: at the outer select, behind it with a job, in the job, or returned.
pub data Worker : Type 0 where
  idle : Worker
  received : ℕ → Worker
  running : ℕ → Worker
  exited : Worker

-- The channel, the closed `stop`, the workers, the callers that wait in `submit`, and the jobs that
-- have been begun, in order.
pub record Runner : Type 0 where
  pub jobs : List ℕ
  pub stopped : Bool
  pub workers : List Worker
  pub waiting : List ℕ
  pub begun : List ℕ

pub data Event : Type 0 where
  -- a caller enters `submit`; the k-th caller sends its job, or sees `stop`
  submit : ℕ → Event
  send : ℕ → Event
  give_up : ℕ → Event
  -- the i-th worker receives a job, looks at `stop` again, returns from the job, or sees `stop`
  receive : ℕ → Event
  check : ℕ → Event
  return : ℕ → Event
  leave : ℕ → Event
  -- `stopRunner` closes `stop`
  stop : Event

abbrev pub capacity : ℕ
capacity = 32

abbrev pub replicate {ℓ} : {A : Type ℓ} → ℕ → A → List A
replicate zero x = []
replicate (suc n) x = x ∷ replicate n x

-- newDeploymentRunner: one worker at least
unfoldable pub new_runner : ℕ → Runner
new_runner workers = record {
  jobs = [];
  stopped = false;
  workers = replicate (max 1 workers) idle;
  waiting = [];
  begun = [];
}

module _ {ℓ} {A : Type ℓ} where
  -- The i-th element.
  unfoldable pub get_elem? : List A → ℕ → Option A
  get_elem? [] i = none
  get_elem? (x ∷ xs) zero = some x
  get_elem? (x ∷ xs) (suc i) = get_elem? xs i

  unfoldable pub set : List A → ℕ → A → List A
  set [] i v = []
  set (x ∷ xs) zero v = v ∷ xs
  set (x ∷ xs) (suc i) v = x ∷ set xs i v

  -- The list without its i-th element.
  unfoldable pub erase : List A → ℕ → List A
  erase [] i = []
  erase (x ∷ xs) zero = xs
  erase (x ∷ xs) (suc i) = x ∷ erase xs i

abbrev at : ℕ → Worker → Runner → Runner
at i w r = record r { workers = set r.workers i w }

-- One branch of the outer select of a worker: a job is there.
unfoldable pub receive_job : ℕ → List ℕ → Runner → Runner
receive_job i [] r = r
receive_job i (j ∷ jobs) r = at i (received j) (record r { jobs = jobs })

-- The inner select: `stop` wins, and the job is lost to this worker.
unfoldable pub check_stop : ℕ → ℕ → Runner → Runner
check_stop i j r =
    if r.stopped then at i exited r else at i (running j) (record r { begun = r.begun ++ j ∷ [] })

-- The step of the i-th worker.
unfoldable pub worker_step : Event → Option Worker → Runner → Runner
unfolding receive_job check_stop
worker_step (receive i) (some idle) r = receive_job i r.jobs r
worker_step (check i) (some (received j)) r = check_stop i j r
worker_step (return i) (some (running j)) r = at i idle r
worker_step (leave i) (some idle) r = if r.stopped then at i exited r else r
worker_step e w r = r

-- The step of the k-th caller: the channel takes its job where there is room.
unfoldable pub send_job : ℕ → Option ℕ → Runner → Runner
send_job k none r = r
send_job k (some j) r =
    if ltb (length r.jobs) capacity
    then record r { jobs = r.jobs ++ j ∷ []; waiting = erase r.waiting k }
    else r

unfoldable pub step : Event → Runner → Runner
unfolding worker_step send_job
step (submit j) r = record r { waiting = r.waiting ++ j ∷ [] }
step (send k) r = send_job k (get_elem? r.waiting k) r
step (give_up k) r = if r.stopped then record r { waiting = erase r.waiting k } else r
step (receive i) r = worker_step (receive i) (get_elem? r.workers i) r
step (check i) r = worker_step (check i) (get_elem? r.workers i) r
step (return i) r = worker_step (return i) (get_elem? r.workers i) r
step (leave i) r = worker_step (leave i) (get_elem? r.workers i) r
step stop r = record r { stopped = true }

unfoldable pub run : List Event → Runner → Runner
unfolding step
run [] r = r
run (e ∷ es) r = run es (step e r)
