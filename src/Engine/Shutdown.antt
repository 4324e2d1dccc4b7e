-- ===== src/Engine/Shutdown.antt =====
-- The engine comes to an end.
use ticket_watcher.Prelude.{ℕ, ◌+◌, ◌*◌, ◌≤◌, [], ◌∷◌, length, arith, length-append, if◌then◌else◌}
use ticket_watcher.Engine.{
  SchedulerPhase, waiting, sending, stopped, WorkerPhase, idle, busy, exited, MainPhase, serving,
  awaiting_scheduler, awaiting_workers, returned, Engine, SchedulerStep, tick_begins, send,
  send_panics, tick_cancelled, saturated, tick_ends, run_stops, WorkerStep, receive, finish, exit,
  MainStep, signal, shuts_down, closes, returns, Step, by_scheduler, by_worker, by_main, Run, rest,
  after,
}
use ticket_watcher.Engine.Pool.{total, total-Turns}

-- How many steps each part still has before it: at most.
abbrev pub scheduler_work : SchedulerPhase → ℕ
scheduler_work waiting = 1
scheduler_work (sending ids) = 2 + 3 * length ids
scheduler_work stopped = 0

abbrev pub worker_work : WorkerPhase → ℕ
worker_work idle = 1
worker_work (busy id) = 2
worker_work exited = 0

abbrev pub main_work : MainPhase → ℕ
main_work serving = 3
main_work awaiting_scheduler = 2
main_work awaiting_workers = 1
main_work returned = 0

abbrev pub work : Engine → ℕ
work s =
    scheduler_work s.scheduler
    + 2 * length s.buffer
    + total worker_work s.workers
    + main_work s.main
    + (if s.is_cancelled then 0 else 1)

-- What a tick adds: itself, its end, and three steps for each id.
abbrev pub tick_cost : {cap : ℕ} {s t : Engine} → SchedulerStep cap s t → ℕ
tick_cost (tick_begins ids e) = 2 + 3 * length ids
tick_cost (send id ids e free room) = 0
tick_cost (send_panics id ids e closed) = 0
tick_cost (tick_cancelled id ids e told) = 0
tick_cost (saturated id ids e told free full) = 0
tick_cost (tick_ends e) = 0
tick_cost (run_stops e told) = 0

abbrev pub step_cost : {cap : ℕ} {s t : Engine} → Step cap s t → ℕ
step_cost (by_scheduler st) = tick_cost st
step_cost (by_worker st) = 0
step_cost (by_main st) = 0

abbrev pub steps : {cap : ℕ} {s t : Engine} → Run cap s t → ℕ
steps rest = 0
steps (after r st) = steps r + 1

-- What the ticks that begin in the run add.
abbrev pub ticks_cost : {cap : ℕ} {s t : Engine} → Run cap s t → ℕ
ticks_cost rest = 0
ticks_cost (after r st) = ticks_cost r + step_cost st

scheduler-work :
    {cap : ℕ} {s t : Engine} (st : SchedulerStep cap s t) → work t + 1 ≤ work s + tick_cost st
scheduler-work (tick_begins ids e) = ground (arith, e)
scheduler-work {s = s} (send id ids e free room) =
    ground (arith, e, length-append s.buffer (id ∷ []))
scheduler-work (send_panics id ids e closed) = ground (arith, e)
scheduler-work (tick_cancelled id ids e told) = ground (arith, e)
scheduler-work (saturated id ids e told free full) = ground (arith, e)
scheduler-work (tick_ends e) = ground (arith, e)
scheduler-work (run_stops e told) = ground (arith, e)

worker-work : {s t : Engine} → WorkerStep s t → work t + 1 ≤ work s
worker-work (receive id ids e turn) = ground (arith, e, total-Turns worker_work turn)
worker-work (finish id turn) = ground (arith, total-Turns worker_work turn)
worker-work (exit closed empty turn) = ground (arith, total-Turns worker_work turn)

main-work : {s t : Engine} → MainStep s t → work t + 1 ≤ work s
main-work (signal c) = ground (arith, c)
main-work (shuts_down e told) = ground (arith, e)
main-work (closes e quiet) = ground (arith, e)
main-work (returns e left) = ground (arith, e)

pub Step-work : {cap : ℕ} {s t : Engine} (st : Step cap s t) → work t + 1 ≤ work s + step_cost st
Step-work (by_scheduler st) = scheduler-work st
Step-work (by_worker st) = ground (arith, worker-work st)
Step-work (by_main st) = ground (arith, main-work st)

-- However its steps interleave, a run from any state is no longer than the work at its start and
-- what its ticks add.
pub Run-ends : {cap : ℕ} {s t : Engine} (r : Run cap s t) → steps r + work t ≤ work s + ticks_cost r
Run-ends rest = omega arith
Run-ends (after r st) = omega (arith, Run-ends r, Step-work st)
