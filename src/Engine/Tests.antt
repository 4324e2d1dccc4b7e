-- ===== src/Engine/Tests.antt =====
-- Runs of the engine with one worker.
use ticket_watcher.Prelude.{◌+◌, ◌*◌, ◌≤◌, ◌≡◌, refl, false, [], ◌∷◌, ◌++◌, length, arith}
use ticket_watcher.Engine.{
  Engine, started, returned, here, tick_begins, send, tick_cancelled, run_stops, receive, finish,
  exit, signal, shuts_down, closes, returns, by_scheduler, by_worker, by_main, Run, rest, after,
}
use ticket_watcher.Engine.Invariant.{times}
use ticket_watcher.Engine.Drain.{Run-ordered, Run-drained}
use ticket_watcher.Engine.Shutdown.{work, steps, ticks_cost, Run-ends}
use ticket_watcher.Engine.Finish.{Run-finishes}

-- A tick with two events: the first is sent and received, and the signal comes before the second.
abbrev interrupted : (s : Engine) × Run 1 (started 1) s
interrupted = (
  _,
  after
      (after
        (after (after rest (by_scheduler (tick_begins (7 ∷ 8 ∷ []) refl)))
          (by_scheduler (send 7 (8 ∷ []) refl refl (omega arith))))
        (by_worker (receive 7 [] refl here)))
      (by_main (signal refl)),
)

-- Then the tick is cut short, and `main` returns once the poll has ended.
abbrev ended : (s : Engine) × Run 1 (started 1) s
ended = (
  _,
  after
      (after
        (after
          (after
            (after
              (after (after interrupted.1 (by_scheduler (tick_cancelled 8 [] refl refl)))
                (by_scheduler (run_stops refl refl)))
              (by_main (shuts_down refl refl)))
            (by_main (closes refl refl)))
          (by_worker (finish 7 here)))
        (by_worker (exit refl refl here)))
      (by_main (returns refl (refl, tt))),
)

ended-polled : ended.0.polled ≡ 7 ∷ []
ended-polled = refl

Run-ordered_example :
    (ended.0.has_panicked ≡ false)
    × (ended.0.sent ≡ ended.0.taken ++ ended.0.buffer)
    × (length ended.0.sent ≤ length ended.0.polled + 2 * 1)
Run-ordered_example = Run-ordered 1 ended.0 ended.1

Run-drained_example : (times 7 ended.0.polled ≡ times 7 ended.0.sent) × (ended.0.buffer ≡ [])
Run-drained_example = Run-drained 1 ended.0 7 ended.1 refl

Run-ends_example : steps ended.1 + work ended.0 ≤ work (started 1) + ticks_cost ended.1
Run-ends_example = Run-ends ended.1

Run-finishes_example :
    (t : Engine) × (r : Run 1 interrupted.0 t) × (t.main ≡ returned)
    × (ticks_cost r ≡ 0)
    × (steps r ≤ work interrupted.0)
Run-finishes_example = Run-finishes 1 interrupted.0 interrupted.1 refl
