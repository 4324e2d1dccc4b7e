-- ===== src/Engine/Pool.antt =====
-- Sums over the workers of the pool, and what one worker's turn does to them.
use ticket_watcher.Prelude.{
  ℕ, zero, suc, ◌+◌, ◌≤◌, ◌≡◌, refl, List, [], ◌∷◌, length, All, arith, ◌==◌, if◌then◌else◌,
}
use ticket_watcher.Engine.{WorkerPhase, idle, busy, exited, Turns, here, there, idle_pool, IsExited}

-- A sum of weights.
abbrev pub total : (WorkerPhase → ℕ) → List WorkerPhase → ℕ
total f [] = 0
total f (p ∷ ws) = f p + total f ws

abbrev pub exits : WorkerPhase → ℕ
exits idle = 0
exits (busy id) = 0
exits exited = 1

abbrev pub polls : WorkerPhase → ℕ
polls idle = 0
polls (busy id) = 1
polls exited = 0

-- Whether it polls this event.
abbrev pub polls_event : ℕ → WorkerPhase → ℕ
polls_event id idle = 0
polls_event id (busy i) = if i == id then 1 else 0
polls_event id exited = 0

module _ {p q : WorkerPhase} where
  pub total-Turns :
      (f : WorkerPhase → ℕ) {ws ws' : List WorkerPhase}
      → Turns p q ws ws'
      → total f ws' + f p ≡ total f ws + f q
  total-Turns f here = omega arith
  total-Turns f (there t) = omega (arith, total-Turns f t)

  pub length-Turns : {ws ws' : List WorkerPhase} → Turns p q ws ws' → length ws' ≡ length ws
  length-Turns here = refl
  length-Turns (there t) = omega (arith, length-Turns t)

pub total-le :
    (f : WorkerPhase → ℕ)
    → ((p : WorkerPhase) → f p ≤ 1)
    → (ws : List WorkerPhase) → total f ws ≤ length ws
total-le f small [] = omega arith
total-le f small (p ∷ ws) = omega (arith, small p, total-le f small ws)

pub total-idle_pool : (f : WorkerPhase → ℕ) (n : ℕ) → f idle ≡ 0 → total f (idle_pool n) ≡ 0
total-idle_pool f zero h = refl
total-idle_pool f (suc n) h = omega (arith, h, total-idle_pool f n h)

pub length-idle_pool : (n : ℕ) → length (idle_pool n) ≡ n
length-idle_pool zero = refl
length-idle_pool (suc n) = omega (arith, length-idle_pool n)

pub polls-le : (p : WorkerPhase) → polls p ≤ 1
polls-le idle = omega arith
polls-le (busy id) = omega arith
polls-le exited = omega arith

pub exits-eq-length : (ws : List WorkerPhase) → All IsExited ws → total exits ws ≡ length ws
exits-eq-length [] h = refl
exits-eq-length (p ∷ ws) h = let e = h.0 in rw e (omega (arith, exits-eq-length ws h.1))

pub exits-le : (p : WorkerPhase) → exits p ≤ 1
exits-le idle = omega arith
exits-le (busy id) = omega arith
exits-le exited = omega arith

-- Where every worker has returned, none polls.
pub polls_event-eq-zero :
    (id : ℕ) (ws : List WorkerPhase) → total exits ws ≡ length ws → total (polls_event id) ws ≡ 0
polls_event-eq-zero id [] h = refl
polls_event-eq-zero id (idle ∷ ws) h = omega (arith, h, total-le exits exits-le ws)
polls_event-eq-zero id (busy i ∷ ws) h = ground (arith, h, total-le exits exits-le ws)
polls_event-eq-zero id (exited ∷ ws) h = omega (arith, polls_event-eq-zero id ws (omega (arith, h)))
