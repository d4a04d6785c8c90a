-- ===== src/Web/Runner/Tests.antt =====
-- Two callers and one worker of deployment_runner.go, step by step.
use space_elevator.Base.{◌≤◌, ◌<◌, ◌≡◌, refl, true, List, [], ◌∷◌, arith}
use space_elevator.Web.Runner.{
  Runner, Event, submit, send, give_up, receive, check, return, stop, exited, new_runner, step, run,
  worker_step, receive_job, check_stop, send_job, get_elem?, set, erase,
}
use space_elevator.Web.Runner.Work.{work}
use space_elevator.Web.Runner.Drain.{run-drains, moves, CanMove, Drained}

-- Two callers wait, with the jobs 7 and 8.
abbrev busy : Runner
busy = run (submit 7 ∷ submit 8 ∷ []) (new_runner 1)

-- The second caller is served first; one receive comes too early and does nothing.
abbrev schedule : List Event
schedule =
    receive 0
    ∷ send 1
    ∷ receive 0
    ∷ send 0
    ∷ check 0
    ∷ receive 0
    ∷ return 0
    ∷ receive 0
    ∷ check 0
    ∷ return 0
    ∷ []

begun_in_order : (run schedule busy).begun ≡ 8 ∷ 7 ∷ []
unfolding run step worker_step receive_job check_stop send_job get_elem? set erase new_runner
begun_in_order = refl

-- A stopped runner begins nothing, also not the job that a worker has received.
stopped_in_time :
    run (send 0 ∷ receive 0 ∷ stop ∷ check 0 ∷ give_up 0 ∷ []) busy
    ≡ (record { jobs = []; stopped = true; workers = exited ∷ []; waiting = []; begun = [] })
unfolding run step worker_step receive_job check_stop send_job get_elem? set erase new_runner
stopped_in_time = refl

run-drains_example :
    (moves schedule busy ≤ work busy)
    × (moves schedule busy < work busy → CanMove (run schedule busy))
    × (moves schedule busy ≡ work busy → Drained busy (run schedule busy))
unfolding run step new_runner set
run-drains_example =
    run-drains schedule busy (tt, (tt, (tt, (tt, (tt, (tt, (tt, (tt, (tt, (tt, tt)))))))))) refl
      (unfold get_elem? in (omega arith, (λ e. cc, tt)))
