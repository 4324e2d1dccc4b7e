-- ===== src/Worker/Tests.antt =====
-- Polls of a small database.
use ticket_watcher.Prelude.{
  zero, suc, ◌≡◌, refl, ◌≤◌, true, List, map, All, arith, ℕ, false, none, some, [], ◌∷◌,
}
use ticket_watcher.Prelude.Outcome.{ok}
use ticket_watcher.World.{◌>>=◌, Turn, World, query}
use ticket_watcher.Worker.Delivery.Statements.{is_handed_over}
use ticket_watcher.Worker.Delivery.Whole.{process_event-delivers, IsReportedThroughout}
use ticket_watcher.World.Runs.{IsCalm}
use ticket_watcher.World.Rules.{On}
use ticket_watcher.Store.Models.{WatchAlert}
use ticket_watcher.Store.Owners.{owns}
use ticket_watcher.Store.Watches.{
  join_users, claim_watch_alert, min_poll_interval_for_event, list_active_watches_for_event,
  set_last_evaluation, mark_notified,
}
use ticket_watcher.Worker.Once.{run_jobs-at_most_once}
use ticket_watcher.Worker.Once.Statements.{calls_for, AtMostOnce}
use ticket_watcher.Worker.Consent.{run_jobs-IsConsented}
use ticket_watcher.Worker.Consent.Statements.{IsConsented}
use ticket_watcher.Worker.{is_valid, process_event, evaluate, mark_notified, Fetch, run_jobs}
use ticket_watcher.Store.Events.{update_event_latest, insert_availability_snapshot, get_event}
use ticket_watcher.Evaluator.{evaluate}
use ticket_watcher.Worker.Sample.{
  turn, show, start, on_sale, silent, deps, answers, silent-IsQuiet, three_jobs, rough, sent,
  three_polls,
}

-- One alert, to the one user who may be mailed; the two others' claims are spent all the same.
three_polls-calls : map sent three_polls.notify_calls ≡ (11, "a@x", "public_open") ∷ []
unfolding run_jobs query ◌>>=◌ get_event insert_availability_snapshot update_event_latest
    list_active_watches_for_event min_poll_interval_for_event claim_watch_alert mark_notified
    set_last_evaluation
three_polls-calls = refl

three_polls-claims :
    map (λ (a : WatchAlert). a.watch_id) three_polls.db.watch_alerts ≡ 11 ∷ 12 ∷ 13 ∷ []
unfolding run_jobs query ◌>>=◌ get_event insert_availability_snapshot update_event_latest
    list_active_watches_for_event min_poll_interval_for_event claim_watch_alert mark_notified
    set_last_evaluation
three_polls-claims = refl

-- The claim stops the later polls from alerting again.
rough-calls :
    map sent (run_jobs deps three_jobs rough).notify_calls ≡ (11, "a@x", "public_open") ∷ []
unfolding run_jobs query ◌>>=◌ get_event insert_availability_snapshot update_event_latest
    list_active_watches_for_event min_poll_interval_for_event claim_watch_alert mark_notified
    set_last_evaluation
rough-calls = refl

abbrev failing_at : ℕ → List Turn
failing_at zero = turn 0 true ∷ []
failing_at (suc n) = turn 0 false ∷ failing_at n

-- On sale by its status alone, with no date.
abbrev dateless : Fetch
dateless id = ok (record on_sale { public_onsale_start = none })

-- The stamp fails after the alert: the next poll hands the same alert over again.
status_onsale-repeats :
    map sent
      (run_jobs deps
        ((7, dateless) ∷ (7, dateless) ∷ [])
        (record start { script = failing_at 5 })).notify_calls
    ≡ (11, "a@x", "status_onsale") ∷ (11, "a@x", "status_onsale") ∷ []
unfolding run_jobs query ◌>>=◌ get_event insert_availability_snapshot update_event_latest
    list_active_watches_for_event min_poll_interval_for_event claim_watch_alert mark_notified
    set_last_evaluation
status_onsale-repeats = refl

-- A date is announced in the future.
abbrev upcoming : Fetch
upcoming id = ok (record on_sale { availability = "offsale"; public_onsale_start = some 500 })

abbrev undated : World
undated = record start {
  db = record start.db {
    events = record { rows = record show { public_onsale_at = none } ∷ []; next = 8 };
  };
}

-- With no failure it is alerted; if the list of watches fails once, no later poll alerts it.
onsale_announced-sent :
    map sent (run_jobs deps ((7, upcoming) ∷ []) undated).notify_calls
    ≡ (11, "a@x", "onsale_announced") ∷ []
unfolding run_jobs query ◌>>=◌ get_event insert_availability_snapshot update_event_latest
    list_active_watches_for_event min_poll_interval_for_event claim_watch_alert mark_notified
    set_last_evaluation
onsale_announced-sent = refl

onsale_announced-lost :
    map sent
      (run_jobs deps
        ((7, upcoming) ∷ (7, upcoming) ∷ [])
        (record undated { script = failing_at 3 })).notify_calls
    ≡ []
unfolding run_jobs query ◌>>=◌ get_event insert_availability_snapshot update_event_latest
    list_active_watches_for_event min_poll_interval_for_event claim_watch_alert mark_notified
    set_last_evaluation
onsale_announced-lost = refl

run_jobs-at_most_once_example :
    (calls_for 11 "public_open" (run_jobs deps three_jobs rough).notify_calls ≤ 1)
    × On (AtMostOnce 11 "public_open") (run_jobs deps three_jobs rough)
run_jobs-at_most_once_example =
    run_jobs-at_most_once 11 "public_open" deps three_jobs rough silent-IsQuiet refl (omega arith)

run_jobs-IsConsented_example :
    All (IsConsented start.db.users.rows start.db.watches.rows) three_polls.notify_calls
    × (three_polls.db.users.rows ≡ start.db.users.rows)
    × ((id user_id : ℕ)
        → owns id user_id three_polls.db.watches.rows ≡ owns id user_id start.db.watches.rows)
run_jobs-IsConsented_example = run_jobs-IsConsented deps three_jobs start silent-IsQuiet refl

-- The calls of a poll take six units of time, and none fails.
abbrev slow : World
slow = record start { script = turn 2 false ∷ turn 1 false ∷ turn 3 false ∷ [] }

slow-IsCalm : IsCalm slow
slow-IsCalm = (refl, (refl, (refl, tt)))

slow-reported :
    IsReportedThroughout slow 11 "public_open" silent none show on_sale
      (is_valid show.public_onsale_at)
unfolding join_users evaluate
slow-reported t since until = ground (arith, since, until)

process_event-delivers_example :
    let (r, w) = process_event deps answers 7 slow in
    (r ≡ ok tt) × (is_handed_over 11 "public_open" w ≡ true)
unfolding join_users
process_event-delivers_example =
    process_event-delivers slow 11 "public_open" silent none show on_sale answers 7 silent-IsQuiet
      slow-IsCalm refl refl ((λ e. refl), ((λ e. ground arith), ((λ e. ground arith), tt)))
      slow-reported refl
