-- ===== src/Engine/Finish.antt =====
-- After the signal, the engine can always go on to its end.
use ticket_watcher.Prelude.{
  ℕ, zero, suc, ◌+◌, ◌≤◌, ◌≡◌, ◌≢◌, refl, true, List, [], ◌∷◌, All, arith, ◌∙◌,
}
use ticket_watcher.Engine.{
  SchedulerPhase, waiting, sending, stopped, WorkerPhase, idle, busy, exited, MainPhase, serving,
  awaiting_scheduler, awaiting_workers, returned, Engine, started, Turns, here, there,
  SchedulerStep, tick_begins, send, send_panics, tick_cancelled, saturated, tick_ends, run_stops,
  WorkerStep, receive, finish, exit, IsExited, MainStep, signal, shuts_down, closes, returns, Step,
  by_scheduler, by_worker, by_main, Run, rest, after,
}
use ticket_watcher.Engine.Invariant.{Inv, started-Inv}
use ticket_watcher.Engine.Steps.{Step-Inv, Run-Inv}
use ticket_watcher.Engine.Shutdown.{work, steps, step_cost, ticks_cost, Step-work, Run-ends}

-- Which worker of a pool can move.
data Mover (ws : List WorkerPhase) : Type 0 where
  none_left : All IsExited ws → Mover ws
  one_busy : (id : ℕ) (ws' : List WorkerPhase) → Turns (busy id) idle ws ws' → Mover ws
  one_idle : ((q : WorkerPhase) → (ws' : List WorkerPhase) × Turns idle q ws ws') → Mover ws

behind : (ws : List WorkerPhase) → Mover ws → Mover (exited ∷ ws)
behind ws (none_left left) = none_left (refl, left)
behind ws (one_busy id ws' turn) = one_busy id (exited ∷ ws') (there turn)
behind ws (one_idle turn) = one_idle λ q. (exited ∷ (turn q).0, there (turn q).1)

mover : (ws : List WorkerPhase) → Mover ws
mover [] = none_left tt
mover (idle ∷ ws) = one_idle λ q. (q ∷ ws, here)
mover (busy id ∷ ws) = one_busy id (idle ∷ ws) here
mover (exited ∷ ws) = behind ws (mover ws)

-- A step that adds no work.
abbrev Onward : ℕ → Engine → Type 0
Onward cap s = (t : Engine) × (st : Step cap s t) × (step_cost st ≡ 0)

module _ {cap : ℕ} (s : Engine) (inv : Inv cap s) (told : s.is_cancelled ≡ true) where
  received :
      (ids : List ℕ)
      → s.buffer ≡ ids
      → s.is_closed ≡ true
      → ((q : WorkerPhase) → (ws' : List WorkerPhase) × Turns idle q s.workers ws')
      → Onward cap s
  received [] e closed turn = (_, by_worker (exit closed e (turn exited).1), refl)
  received (id ∷ ids) e closed turn = (_, by_worker (receive id ids e (turn (busy id)).1), refl)

  by_pool : s.main ≡ awaiting_workers → Mover s.workers → Onward cap s
  by_pool e (none_left left) = (_, by_main (returns e left), refl)
  by_pool e (one_busy id ws turn) = (_, by_worker (finish id turn), refl)
  by_pool e (one_idle turn) = received s.buffer refl (inv.closed_by_main ∙ rw e refl) turn

  by_phase_of_main :
      (m : MainPhase) → s.main ≡ m → m ≢ returned → s.scheduler ≡ stopped → Onward cap s
  by_phase_of_main serving e go quiet = (_, by_main (shuts_down e told), refl)
  by_phase_of_main awaiting_scheduler e go quiet = (_, by_main (closes e quiet), refl)
  by_phase_of_main awaiting_workers e go quiet = by_pool e (mover s.workers)
  by_phase_of_main returned e go quiet = absurd (go refl)

  onward : (p : SchedulerPhase) → s.scheduler ≡ p → s.main ≢ returned → Onward cap s
  onward waiting e go = (_, by_scheduler (run_stops e told), refl)
  onward (sending []) e go = (_, by_scheduler (tick_ends e), refl)
  onward (sending (id ∷ ids)) e go = (_, by_scheduler (tick_cancelled id ids e told), refl)
  onward stopped e go = by_phase_of_main s.main refl go e

scheduler-told :
    {cap : ℕ} {s t : Engine} → SchedulerStep cap s t → s.is_cancelled ≡ true → t.is_cancelled ≡ true
scheduler-told (tick_begins ids e) h = h
scheduler-told (send id ids e free room) h = h
scheduler-told (send_panics id ids e closed) h = h
scheduler-told (tick_cancelled id ids e told) h = h
scheduler-told (saturated id ids e told free full) h = h
scheduler-told (tick_ends e) h = h
scheduler-told (run_stops e told) h = h

worker-told : {s t : Engine} → WorkerStep s t → s.is_cancelled ≡ true → t.is_cancelled ≡ true
worker-told (receive id ids e turn) h = h
worker-told (finish id turn) h = h
worker-told (exit closed empty turn) h = h

main-told : {s t : Engine} → MainStep s t → s.is_cancelled ≡ true → t.is_cancelled ≡ true
main-told (signal c) h = refl
main-told (shuts_down e told) h = h
main-told (closes e quiet) h = h
main-told (returns e left) h = h

-- The signal is not taken back.
Step-told : {cap : ℕ} {s t : Engine} → Step cap s t → s.is_cancelled ≡ true → t.is_cancelled ≡ true
Step-told (by_scheduler st) h = scheduler-told st h
Step-told (by_worker st) h = worker-told st h
Step-told (by_main st) h = main-told st h

module _ {cap : ℕ} {s t : Engine} (st : Step cap s t) where
  abbrev before : {u : Engine} → Run cap t u → Run cap s u
  before rest = after rest st
  before (after r st') = after (before r) st'

  ticks_cost-before :
      {u : Engine} (r : Run cap t u) → ticks_cost (before r) ≡ step_cost st + ticks_cost r
  ticks_cost-before rest = omega arith
  ticks_cost-before (after r st') = omega (arith, ticks_cost-before r)

-- A run without a tick to a state in which `main` has returned.
abbrev pub Ending : ℕ → Engine → Type 0
Ending cap s = (t : Engine) × (r : Run cap s t) × (t.main ≡ returned) × (ticks_cost r ≡ 0)

finished :
    {cap : ℕ} (s : Engine) (m : MainPhase)
    → s.main ≡ m
    → (m ≢ returned → Ending cap s)
    → Ending cap s
finished s serving e go = go (λ r. cc)
finished s awaiting_scheduler e go = go (λ r. cc)
finished s awaiting_workers e go = go (λ r. cc)
finished s returned e go = (s, rest, e, refl)

Onward-Ending : {cap : ℕ} {s : Engine} (o : Onward cap s) → Ending cap o.0 → Ending cap s
Onward-Ending (t, st, free) (u, r, e, quiet) =
    (u, before st r, e, omega (arith, ticks_cost-before st r, free, quiet))

finish_within :
    {cap : ℕ} (n : ℕ) (s : Engine) → Inv cap s → s.is_cancelled ≡ true → work s ≤ n → Ending cap s
finish_within zero s inv told small = finished s s.main refl λ go.
    let o = onward s inv told s.scheduler refl (λ e. go e) in
    absurd (omega (arith, small, Step-work o.1, o.2))
finish_within (suc n) s inv told small = finished s s.main refl λ go.
    let o = onward s inv told s.scheduler refl (λ e. go e) in
    Onward-Ending o (
      finish_within n o.0 (Step-Inv inv o.1) (Step-told o.1 told)
        (omega (arith, small, Step-work o.1, o.2)))

-- From every state that the engine reaches, once it is cancelled, it can go on without another tick
-- until `main` has returned, in no more steps than the work that is left.
pub Run-finishes :
    (worker_count : ℕ) (s : Engine)
    → Run worker_count (started worker_count) s
    → s.is_cancelled ≡ true
    → (t : Engine) × (r : Run worker_count s t) × (t.main ≡ returned)
      × (ticks_cost r ≡ 0)
      × (steps r ≤ work s)
Run-finishes n s run told =
    let ending = finish_within (work s) s (Run-Inv (started-Inv n) run) told (omega arith) in
    let bound = Run-ends ending.1 in
    (ending.0, ending.1, ending.2, ending.3, omega (arith, bound, ending.3))
