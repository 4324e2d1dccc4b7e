-- ===== src/Engine.antt =====
-- The background engine that `main` of cmd/api/main.go starts and stops: `Run` of internal/
-- scheduler/scheduler.go, the channel of jobs, and the goroutines of StartPool of internal/worker/
-- worker.go, whose steps interleave. A poll begins and ends here; what it does is in Worker.
pub mod Pool
pub mod Invariant
pub mod Steps
pub mod Drain
pub mod Shutdown
pub mod Finish
mod Tests
use ticket_watcher.Prelude.{
  ℕ, zero, suc, ◌<◌, ◌≤◌, ◌≡◌, All, Bool, true, false, List, [], ◌∷◌, ◌++◌, length,
}

-- Where `Run` stands: in its own `select`, in the loop of `tick` with the ids that are left, or
-- returned.
pub data SchedulerPhase : Type 0 where
  waiting : SchedulerPhase
  sending : List ℕ → SchedulerPhase
  stopped : SchedulerPhase

-- A goroutine of the pool: at its `range`, in `ProcessEvent`, or returned.
pub data WorkerPhase : Type 0 where
  idle : WorkerPhase
  busy : ℕ → WorkerPhase
  exited : WorkerPhase

-- `main`: before `<-ctx.Done()`, in `schedWG.Wait`, in `workersWG.Wait`, or returned.
pub data MainPhase : Type 0 where
  serving awaiting_scheduler awaiting_workers returned : MainPhase

-- `buffer` is that of the channel of jobs, the oldest id first. Of the ids, `sent` are those ever
-- sent, `taken` those that workers have received, and `polled` those whose poll has ended, each in
-- its order.
pub record Engine : Type 0 where
  pub is_cancelled : Bool
  pub scheduler : SchedulerPhase
  pub buffer : List ℕ
  pub is_closed : Bool
  pub workers : List WorkerPhase
  pub main : MainPhase
  pub has_panicked : Bool
  pub sent : List ℕ
  pub taken : List ℕ
  pub polled : List ℕ

abbrev pub idle_pool : ℕ → List WorkerPhase
idle_pool zero = []
idle_pool (suc n) = idle ∷ idle_pool n

-- What `main` starts: a channel with room for as many ids as there are workers.
abbrev pub started : ℕ → Engine
started worker_count = record {
  is_cancelled = false;
  scheduler = waiting;
  buffer = [];
  is_closed = false;
  workers = idle_pool worker_count;
  main = serving;
  has_panicked = false;
  sent = [];
  taken = [];
  polled = [];
}

-- One worker goes from one phase to another.
pub data Turns (p q : WorkerPhase) : List WorkerPhase → List WorkerPhase → Type 0 where
  here : {ws : List WorkerPhase} → Turns p q (p ∷ ws) (q ∷ ws)
  there :
      {r : WorkerPhase} {ws ws' : List WorkerPhase}
      → Turns p q ws ws'
      → Turns p q (r ∷ ws) (r ∷ ws')

-- `Run` and `tick`. A tick begins with the ids of the events listed, which are none without a
-- budget or on an error; each `select` of its loop sends, if the channel has room, or sees the end
-- of the context, or else takes the default. A send on a closed channel panics.
pub data SchedulerStep (cap : ℕ) (s : Engine) : Engine → Type 0 where
  tick_begins :
      (ids : List ℕ)
      → s.scheduler ≡ waiting
      → SchedulerStep cap s (record s { scheduler = sending ids })
  send :
      (id : ℕ) (ids : List ℕ)
      → s.scheduler ≡ sending (id ∷ ids)
      → s.is_closed ≡ false
      → length s.buffer < cap
      → SchedulerStep cap s (record s {
        scheduler = sending ids;
        buffer = s.buffer ++ (id ∷ []);
        sent = s.sent ++ (id ∷ []);
      })
  send_panics :
      (id : ℕ) (ids : List ℕ)
      → s.scheduler ≡ sending (id ∷ ids)
      → s.is_closed ≡ true
      → SchedulerStep cap s (record s { scheduler = stopped; has_panicked = true })
  tick_cancelled :
      (id : ℕ) (ids : List ℕ)
      → s.scheduler ≡ sending (id ∷ ids)
      → s.is_cancelled ≡ true
      → SchedulerStep cap s (record s { scheduler = waiting })
  saturated :
      (id : ℕ) (ids : List ℕ)
      → s.scheduler ≡ sending (id ∷ ids)
      → s.is_cancelled ≡ false
      → s.is_closed ≡ false
      → cap ≤ length s.buffer
      → SchedulerStep cap s (record s { scheduler = waiting })
  tick_ends : s.scheduler ≡ sending [] → SchedulerStep cap s (record s { scheduler = waiting })
  run_stops :
      s.scheduler ≡ waiting
      → s.is_cancelled ≡ true
      → SchedulerStep cap s (record s { scheduler = stopped })

-- The body of a goroutine of StartPool: the `range` receives what the channel has, also when it is
-- closed, and ends when it is closed and empty. An error of the poll is only logged.
pub data WorkerStep (s : Engine) : Engine → Type 0 where
  receive :
      {ws : List WorkerPhase} (id : ℕ) (ids : List ℕ)
      → s.buffer ≡ id ∷ ids
      → Turns idle (busy id) s.workers ws
      → WorkerStep s (record s { buffer = ids; workers = ws; taken = s.taken ++ (id ∷ []) })
  finish :
      {ws : List WorkerPhase} (id : ℕ)
      → Turns (busy id) idle s.workers ws
      → WorkerStep s (record s { workers = ws; polled = s.polled ++ (id ∷ []) })
  exit :
      {ws : List WorkerPhase}
      → s.is_closed ≡ true
      → s.buffer ≡ []
      → Turns idle exited s.workers ws
      → WorkerStep s (record s { workers = ws })

abbrev pub IsExited : WorkerPhase → Type 0
IsExited p = p ≡ exited

-- The signal, and the end of `main`: the server is shut down, the scheduler has stopped, the channel
-- is closed, and the workers are done.
pub data MainStep (s : Engine) : Engine → Type 0 where
  signal : s.is_cancelled ≡ false → MainStep s (record s { is_cancelled = true })
  shuts_down :
      s.main ≡ serving → s.is_cancelled ≡ true → MainStep s (record s { main = awaiting_scheduler })
  closes :
      s.main ≡ awaiting_scheduler
      → s.scheduler ≡ stopped
      → MainStep s (record s { main = awaiting_workers; is_closed = true })
  returns :
      s.main ≡ awaiting_workers → All IsExited s.workers → MainStep s (record s { main = returned })

pub data Step (cap : ℕ) (s : Engine) : Engine → Type 0 where
  by_scheduler : {t : Engine} → SchedulerStep cap s t → Step cap s t
  by_worker : {t : Engine} → WorkerStep s t → Step cap s t
  by_main : {t : Engine} → MainStep s t → Step cap s t

-- The steps so far, in any interleaving.
pub data Run (cap : ℕ) (s : Engine) : Engine → Type 0 where
  rest : Run cap s s
  after : {t u : Engine} → Run cap s t → Step cap t u → Run cap s u
