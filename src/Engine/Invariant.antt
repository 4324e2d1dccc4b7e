-- ===== src/Engine/Invariant.antt =====
-- What holds in every state of the engine.
use ticket_watcher.Prelude.{
  ℕ, ◌+◌, ◌≤◌, ◌≡◌, ◌≢◌, refl, Bool, true, false, List, ◌++◌, length, arith, ◌==◌, count,
}
use ticket_watcher.Engine.{
  stopped, MainPhase, serving, awaiting_scheduler, awaiting_workers, returned, Engine, started,
}
use ticket_watcher.Engine.Pool.{total, exits, polls, polls_event, total-idle_pool, length-idle_pool}

-- `main` has closed the channel.
abbrev pub has_closed : MainPhase → Bool
has_closed serving = false
has_closed awaiting_scheduler = false
has_closed awaiting_workers = true
has_closed returned = true

abbrev pub times : ℕ → List ℕ → ℕ
times id = count λ i. i == id

pub record Inv (cap : ℕ) (s : Engine) : Type 0 where
  pub fits : length s.buffer ≤ cap
  pub crew : length s.workers ≡ cap
  -- The channel is first in, first out, and loses nothing.
  pub ordered : s.sent ≡ s.taken ++ s.buffer
  pub accounted : (id : ℕ) → times id s.taken ≡ times id s.polled + total (polls_event id) s.workers
  pub counted : length s.taken ≡ length s.polled + total polls s.workers
  pub closed_by_main : s.is_closed ≡ has_closed s.main
  -- `main` closes the channel once nobody sends.
  pub no_sender : s.is_closed ≡ true → s.scheduler ≡ stopped
  pub sound : s.has_panicked ≡ false
  pub drained_first : 1 ≤ total exits s.workers → (s.is_closed ≡ true) × (length s.buffer ≡ 0)
  pub all_left : s.main ≡ returned → total exits s.workers ≡ cap
  pub cancelled_first : s.main ≢ serving → s.is_cancelled ≡ true
  pub cancelled_stop : s.scheduler ≡ stopped → s.is_cancelled ≡ true

pub started-Inv : (cap : ℕ) → Inv cap (started cap)
started-Inv cap = record {
  fits = omega arith;
  crew = length-idle_pool cap;
  ordered = refl;
  accounted = λ id. omega (arith, total-idle_pool (polls_event id) cap refl);
  counted = omega (arith, total-idle_pool polls cap refl);
  closed_by_main = refl;
  no_sender = λ e. cc;
  sound = refl;
  drained_first = λ h. absurd (omega (arith, h, total-idle_pool exits cap refl));
  all_left = λ e. cc;
  cancelled_first = λ ne. absurd (ne refl);
  cancelled_stop = λ e. cc;
}
