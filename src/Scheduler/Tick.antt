-- ===== src/Scheduler/Tick.antt =====
-- What one tick does, whichever calls fail.
use ticket_watcher.Prelude.{
  ℕ, ◌≤◌, ◌≡◌, refl, Bool, true, false, List, length, All, arith, Bool-cases, inl, inr,
}
use ticket_watcher.Prelude.Int.{ℤ, pos, negsuc, pos_part, leb_ℤ}
use ticket_watcher.Prelude.Instant.{Instant}
use ticket_watcher.Prelude.Outcome.{Outcome, ok, err}
use ticket_watcher.Store.Models.{Event, Db}
use ticket_watcher.Store.Query.{DbError}
use ticket_watcher.World.{World, answer, query, next_turn}
use ticket_watcher.World.Rules.{next_turn_frame}
use ticket_watcher.Ratelimit.{class_poll, DailyQuota, Reading, remaining, maybe_reset}
use ticket_watcher.Scheduler.{
  list_due_events, Select, enqueued, to_int32, list_due, tick_budget, tick,
}
use ticket_watcher.Scheduler.Due.{IsDueId, list_due-due, enqueue-All, length-enqueue, to_int32-le}
use ticket_watcher.Store.Events.{list_due_events}

enqueued-due :
    (env : ℕ → Select) (limit : ℤ) (now : Instant) (db : Db) (r : Outcome DbError (List Event))
    → (list_due limit now db).0 ≡ r
    → All (IsDueId now db) (enqueued env r) × (length (enqueued env r) ≤ pos_part limit)
enqueued-due env limit now db (err e) h = (tt, ground arith)
enqueued-due env limit now db (ok events) h =
    let due = list_due-due limit now db events h in
    (
      enqueue-All (IsDueId now db) env 0 events due.0,
      omega (arith, length-enqueue env 0 events, due.1),
    )

list_due-frame : (limit : ℤ) (now : Instant) (db : Db) → (list_due limit now db).1 ≡ db
unfolding list_due list_due_events
list_due-frame (pos n) now db = refl
list_due-frame (negsuc n) now db = refl

answer-due :
    (env : ℕ → Select) (limit : ℤ) (fails : Bool) (w : World)
    → let (r, w') = answer (list_due limit) fails w in
      All (IsDueId w'.clock w.db) (enqueued env r)
      × (length (enqueued env r) ≤ pos_part limit)
      × (w'.db ≡ w.db)
answer-due env limit true w = (tt, ground arith, refl)
answer-due env limit false w =
    let due = enqueued-due env limit w.clock w.db _ refl in
    (due.0, due.1, list_due-frame limit w.clock w.db)

query-due :
    (env : ℕ → Select) (limit : ℤ) (w : World)
    → let (r, w') = query (list_due limit) w in
      All (IsDueId w'.clock w.db) (enqueued env r)
      × (length (enqueued env r) ≤ pos_part limit)
      × (w'.db ≡ w.db)
unfolding query
query-due env limit w =
    let frame = next_turn_frame w w.script in
    let due = answer-due env limit (next_turn w w.script).0 (next_turn w w.script).1 in
    rw frame.0 at due

tick_budget-le :
    (max_tick : ℤ) (left : ℕ)
    → (pos_part (tick_budget max_tick left) ≤ left)
      × (pos_part (tick_budget max_tick left) ≤ pos_part max_tick)
tick_budget-le (pos m) left = ground arith
tick_budget-le (negsuc m) left = ground arith

-- A tick sends the ids of events that are due, and actively watched, at the instant at which it
-- asks the database; no more of them than the polls that remain of the day's budget, nor than
-- the cap of a tick; it changes nothing in the database, and in the quota no more than its day.
pub tick-due :
    (next_midnight : Instant → Instant) (max_tick : ℤ) (env : ℕ → Select) (t : Reading)
    (q : DailyQuota) (w : World)
    → let (ids, q', w') = tick next_midnight max_tick env t q w in
      All (IsDueId w'.clock w.db) ids
      × (length ids ≤ (remaining next_midnight class_poll t q).0)
      × (length ids ≤ pos_part max_tick)
      × (w'.db ≡ w.db)
      × (q' ≡ maybe_reset next_midnight t q)
unfolding tick remaining
tick-due next_midnight max_tick env t q w =
    let left = (remaining next_midnight class_poll t q).0 in
    let budget = tick_budget max_tick left in
    elim (Bool-cases (leb_ℤ budget (pos 0))) [
      | inl none_left ↦ rw none_left (tt, ground arith, ground arith, refl, refl)
      | inr some_left ↦
          let due = query-due env (to_int32 (pos_part budget)) w in
          let fits = to_int32-le (pos_part budget) in
          let fitting = tick_budget-le max_tick left in
          rw some_left (
            due.0,
            omega (arith, due.1, fits, fitting.0),
            omega (arith, due.1, fits, fitting.1),
            due.2,
            refl,
          )
    ]
