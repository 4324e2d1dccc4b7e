-- ===== src/Scheduler.antt =====
-- internal/scheduler/scheduler.go: a tick looks for due events, within the day's budget of polls,
-- and sends their ids to the workers.
pub mod Due
pub mod Tick
mod Tests
use ticket_watcher.Prelude.{
  ℕ, suc, ◌-◌, ◌%◌, ◌^◌, Bool, not, ◌&&◌, ◌||◌, List, [], ◌∷◌, ltb, if◌then◌else◌,
}
use ticket_watcher.Prelude.Int.{ℤ, pos, negsuc, pos_part, leb_ℤ, ltb_ℤ}
use ticket_watcher.Prelude.Instant.{Instant}
use ticket_watcher.Prelude.Outcome.{Outcome, ok, err}
use ticket_watcher.Store.Models.{Event}
use ticket_watcher.Store.Query.{Query, DbError, failed}
use ticket_watcher.Store.Events.{list_due_events}
use ticket_watcher.World.{World, query}
use ticket_watcher.Ratelimit.{class_poll, DailyQuota, Reading, remaining}

-- What a `select` meets: whether a worker or the buffer takes the id, whether the context is
-- done, and the choice when both hold.
pub record Select : Type 0 where
  pub is_ready : Bool
  pub is_done : Bool
  pub prefers_send : Bool

abbrev pub sends : Select → Bool
sends s = s.is_ready && (not s.is_done || s.prefers_send)

-- The ids sent, from the i-th `select` on; the first that does not send ends the tick.
pub enqueue : (ℕ → Select) → ℕ → List Event → List ℕ
enqueue env i [] = []
enqueue env i (e ∷ es) =
    let rest = enqueue env (suc i) es in if sends (env i) then e.id ∷ rest else []

-- `int32(n)` of a number that is not negative.
abbrev pub to_int32 : ℕ → ℤ
to_int32 n = let m = n % 2 ^ 32 in if ltb m (2 ^ 31) then pos m else negsuc (2 ^ 32 - m - 1)

-- The database refuses a negative LIMIT.
pub list_due : ℤ → Query (List Event)
list_due (pos limit) now db = list_due_events limit now db
list_due (negsuc n) now db = (err failed, db)

-- The budget of one tick.
abbrev pub tick_budget : ℤ → ℕ → ℤ
tick_budget max_tick left = if ltb_ℤ max_tick (pos left) then max_tick else pos left

abbrev pub enqueued : (ℕ → Select) → Outcome DbError (List Event) → List ℕ
enqueued env (ok events) = enqueue env 0 events
enqueued env (err e) = []

-- `tick`: the ids sent, the quota and the world after.
pub tick :
    (Instant → Instant)
    → ℤ
    → (ℕ → Select)
    → Reading
    → DailyQuota
    → World
    → List ℕ × DailyQuota × World
unfolding list_due enqueue
tick next_midnight max_tick env t q w =
    let (left, q') = remaining next_midnight class_poll t q in
    let budget = tick_budget max_tick left in
    if leb_ℤ budget (pos 0)
    then ([], q', w)
    else let (r, w') = query (list_due (to_int32 (pos_part budget))) w in (enqueued env r, q', w')
