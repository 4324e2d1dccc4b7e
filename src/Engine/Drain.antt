-- ===== src/Engine/Drain.antt =====
-- What the engine guarantees of the ids that are sent, in every interleaving.
use ticket_watcher.Prelude.{
  ℕ, ◌+◌, ◌*◌, ◌≤◌, ◌≡◌, refl, false, List, [], ◌∷◌, ◌++◌, length, arith, length-append,
  count-append, count-le-length, zero, suc, ◌==◌,
}
use ticket_watcher.Engine.{Engine, returned, started, Run}
use ticket_watcher.Engine.Pool.{total, exits, polls, total-le, polls-le, polls_event-eq-zero}
use ticket_watcher.Engine.Invariant.{Inv, started-Inv, times}
use ticket_watcher.Engine.Steps.{Run-Inv}

-- The engine never sends on a closed channel, the workers take the ids in the order in which they
-- were sent, and those sent whose poll has not ended are at most twice as many as the workers.
pub Run-ordered :
    (worker_count : ℕ) (s : Engine)
    → Run worker_count (started worker_count) s
    → (s.has_panicked ≡ false)
      × (s.sent ≡ s.taken ++ s.buffer)
      × (length s.sent ≤ length s.polled + 2 * worker_count)
Run-ordered n s run =
    let inv = Run-Inv (started-Inv n) run in
    (
      inv.sound,
      inv.ordered,
      rw inv.ordered (
          omega (
            arith,
            length-append s.taken s.buffer,
            inv.counted,
            inv.fits,
            inv.crew,
            total-le polls polls-le s.workers,
          )),
    )

eq-nil : (ids : List ℕ) → length ids ≡ 0 → ids ≡ []
eq-nil [] h = refl
eq-nil (id ∷ ids) h = absurd (omega (arith, h))

left_empty : (n : ℕ) {s : Engine} → Inv n s → total exits s.workers ≡ n → length s.buffer ≡ 0
left_empty zero inv e = omega (arith, inv.fits)
left_empty (suc n) inv e = (inv.drained_first (omega (arith, e))).1

-- When `main` has returned, every id that was sent has been polled, exactly as often as it was sent,
-- and the channel is empty.
pub Run-drained :
    (worker_count : ℕ) (s : Engine) (id : ℕ)
    → Run worker_count (started worker_count) s
    → s.main ≡ returned
    → (times id s.polled ≡ times id s.sent) × (s.buffer ≡ [])
Run-drained n s id run done =
    let inv = Run-Inv (started-Inv n) run in
    let left = inv.all_left done in
    let empty = left_empty n inv left in
    (
      rw inv.ordered (
          omega (
            arith,
            count-append (λ i. i == id) s.taken s.buffer,
            count-le-length (λ i. i == id) s.buffer,
            empty,
            inv.accounted id,
            polls_event-eq-zero id s.workers (omega (arith, left, inv.crew)),
          )),
      eq-nil s.buffer empty,
    )
