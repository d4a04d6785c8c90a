-- ===== src/Web/Runner/Drain.antt =====
-- The runner gets every job done that it has taken, whatever the order of the goroutines.
use space_elevator.Base.{
  subst, ℕ, suc, ◌+◌, ◌*◌, ◌≤◌, ◌<◌, ◌≡◌, refl, ap, ◌∙◌, sym, Bool, true, false, some, List, [],
  ◌∷◌, if◌then◌else◌, length, arith, ◌⊎◌, Bool-cases, inl, inr, All,
}
use space_elevator.Web.Runner.{
  Worker, idle, received, running, exited, Runner, Event, send, receive, check, return, get_elem?,
  step, run,
}
use space_elevator.Web.Runner.Work.{
  total, steps_left, work, holds, owed, times_begun, Internal, enabled,
}
use space_elevator.Web.Runner.Steps.{IsAlive, Alive, step-Does, step-same}

-- The steps of a schedule that do something.
unfoldable pub moves : List Event → Runner → ℕ
unfolding step
moves [] r = 0
moves (e ∷ es) r = (if enabled e r then 1 else 0) + moves es (step e r)

-- What a schedule of internal steps does.
record Ran (es : List Event) (r : Runner) : Type 0 where
  worked : work (run es r) + moves es r ≡ work r
  kept : (j : ℕ) → owed j (run es r) + times_begun j (run es r) ≡ owed j r + times_begun j r
  runs : (run es r).stopped ≡ false
  alive : Alive (run es r)

run-Ran : (es : List Event) (r : Runner) → All Internal es → r.stopped ≡ false → Alive r → Ran es r
unfolding run moves
run-Ran [] r i s v = record { worked = omega arith; kept = λ j. refl; runs = s; alive = v }
run-Ran (e ∷ es) r i s v = elim (Bool-cases (enabled e r)) [
  | inl h ↦
      let d = step-Does e r i.0 s h in
      let rest = run-Ran es (step e r) i.1 (d.runs ∙ s) (d.lives v) in
      record {
        worked = rw h (omega (arith, d.less, rest.worked));
        kept = λ j. omega (arith, d.kept j, rest.kept j);
        runs = rest.runs;
        alive = rest.alive;
      }
  | inr h ↦
      let same = step-same e r i.0 h in
      let rest = subst (λ x. Ran es x) (sym same) (run-Ran es r i.1 s v) in
      record {
        worked = rw h (omega (arith, rest.worked, ap (λ x. work x) same));
        kept = λ j.
            omega (arith, rest.kept j, ap (λ x. owed j x) same, ap (λ x. times_begun j x) same);
        runs = rest.runs;
        alive = rest.alive;
      }
]

-- A worker that has a job, or none has.
find_busy :
    (ws : List Worker)
    → All IsAlive ws
    → ((i : ℕ) × (j : ℕ) × ((get_elem? ws i ≡ some (received j))
          ⊎ (get_elem? ws i ≡ some (running j))))
      ⊎ All (λ w. w ≡ idle) ws
unfolding get_elem?
find_busy [] a = inr tt
find_busy (idle ∷ ws) a = elim (find_busy ws a.1) [
  | inl (i, j, h) ↦ inl (suc i, j, h)
  | inr rest ↦ inr (refl, rest)
]
find_busy (received j ∷ ws) a = inl (0, j, inl refl)
find_busy (running j ∷ ws) a = inl (0, j, inr refl)
find_busy (exited ∷ ws) a = absurd (a.0 refl)

total-idle : (ws : List Worker) → All (λ w. w ≡ idle) ws → total steps_left ws ≡ 0
unfolding total
total-idle [] h = refl
total-idle (w ∷ ws) h = rw (h.0) (omega (arith, total-idle ws h.1))

idle-of_total :
    (ws : List Worker) → All IsAlive ws → total steps_left ws ≡ 0 → All (λ w. w ≡ idle) ws
unfolding total
idle-of_total [] a h = tt
idle-of_total (idle ∷ ws) a h = (refl, idle-of_total ws a.1 (omega arith))
idle-of_total (received j ∷ ws) a h = absurd (omega arith)
idle-of_total (running j ∷ ws) a h = absurd (omega arith)
idle-of_total (exited ∷ ws) a h = absurd (a.0 refl)

total-holds-idle : (j : ℕ) (ws : List Worker) → All (λ w. w ≡ idle) ws → total (holds j) ws ≡ 0
unfolding total
total-holds-idle j [] h = refl
total-holds-idle j (w ∷ ws) h = rw (h.0) (omega (arith, total-holds-idle j ws h.1))

owed-zero :
    (j : ℕ) (r : Runner)
    → r.waiting ≡ []
    → r.jobs ≡ []
    → All (λ w. w ≡ idle) r.workers
    → owed j r ≡ 0
unfolding total
owed-zero j r w b h = rw (w, b) (omega (arith, total-holds-idle j r.workers h))

abbrev pub CanMove : Runner → Type 0
CanMove r = (e : Event) × Internal e × (enabled e r ≡ true)

-- All workers are idle: the first one can take a job from the channel, or there is room in it.
idle-CanMove :
    (jobs waiting : List ℕ) (ws : List Worker) (stopped : Bool) (begun : List ℕ)
    → 0 < length ws
    → All (λ w. w ≡ idle) ws
    → 0 < 4 * length waiting + 3 * length jobs
    → CanMove
        (record { jobs = jobs; stopped = stopped; workers = ws; waiting = waiting; begun = begun })
unfolding get_elem?
idle-CanMove jobs waiting [] stopped begun n a h = absurd (omega arith)
idle-CanMove (j ∷ jobs) waiting (w ∷ ws) stopped begun n a h = (receive 0, tt, rw (a.0) refl)
idle-CanMove [] (j ∷ waiting) (w ∷ ws) stopped begun n a h = (send 0, tt, refl)
idle-CanMove [] [] (w ∷ ws) stopped begun n a h = absurd (omega arith)

never_stuck : (r : Runner) → Alive r → 0 < work r → CanMove r
never_stuck r (n, a) h = elim (find_busy r.workers a) [
  | inl (i, j, inl e) ↦ (check i, tt, rw e refl)
  | inl (i, j, inr e) ↦ (return i, tt, rw e refl)
  | inr idles ↦
      idle-CanMove r.jobs r.waiting r.workers r.stopped r.begun n idles
        (omega (arith, total-idle r.workers idles))
]

length-zero {ℓ} : {A : Type ℓ} (xs : List A) → length xs ≡ 0 → xs ≡ []
length-zero [] h = refl
length-zero (x ∷ xs) h = absurd (omega arith)

abbrev pub Drained : Runner → Runner → Type 0
Drained r r' =
    (r'.waiting ≡ [])
    × (r'.jobs ≡ [])
    × All (λ w. w ≡ idle) r'.workers
    × ((j : ℕ) → times_begun j r' ≡ times_begun j r + owed j r)

-- A runner that is not stopped, with a worker at least and none that has returned, left to itself, in
-- whatever order its workers and the callers that wait take their steps: as many steps as there is
-- work left do something, and until then some step always can; behind them no caller waits, the
-- channel is empty, every worker is idle, and each job has been begun once for every time that it was
-- owed before.
pub run-drains :
    (es : List Event) (r : Runner)
    → All Internal es
    → r.stopped ≡ false
    → Alive r
    → (moves es r ≤ work r)
      × (moves es r < work r → CanMove (run es r))
      × (moves es r ≡ work r → Drained r (run es r))
run-drains es r i s v =
    let ran = run-Ran es r i s v in
    let r' = run es r in
    (
      omega (arith, ran.worked),
      λ h. never_stuck r' ran.alive (omega (arith, ran.worked)),
      λ h.
          let no_waiting = length-zero r'.waiting (omega (arith, ran.worked)) in
          let no_jobs = length-zero r'.jobs (omega (arith, ran.worked)) in
          let idles = idle-of_total r'.workers ran.alive.1 (omega (arith, ran.worked)) in
          (
            no_waiting,
            no_jobs,
            idles,
            λ j. omega (arith, ran.kept j, owed-zero j r' no_waiting no_jobs idles),
          ),
    )
