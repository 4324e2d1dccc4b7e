-- ===== src/Worker/Process/Tests.antt =====
-- Two polls of one event, whose moves alternate.
use ticket_watcher.Prelude.{ℕ, zero, suc, ◌≤◌, ◌≡◌, refl, none, List, [], ◌∷◌, ◌++◌, arith}
use ticket_watcher.Prelude.Outcome.{ok}
use ticket_watcher.Store.Watches.{
  list_active_watches_for_event, min_poll_interval_for_event, claim_watch_alert,
  set_last_evaluation, mark_notified,
}
use ticket_watcher.World.{World, query}
use ticket_watcher.Worker.{Fetch}
use ticket_watcher.Worker.Once.Statements.{calls_for}
use ticket_watcher.Worker.Process.{
  interleave, Move, of_process, of_user, deleting_watch, unsubscribing_user, resubscribing_user,
}
use ticket_watcher.Worker.Process.Poll.{polling}
use ticket_watcher.Worker.Process.Interleaved.{polls_of, interleave-at_most_once}
use ticket_watcher.Worker.Sample.{show, start, on_sale, deps, answers, silent-IsQuiet, rough}
use ticket_watcher.Evaluator.{evaluate}
use ticket_watcher.Store.Events.{get_event, insert_availability_snapshot, update_event_latest}

abbrev two_jobs : List (ℕ × Fetch)
two_jobs = (7, answers) ∷ (7, answers) ∷ []

abbrev alternating : ℕ → List Move
alternating zero = []
alternating (suc n) = of_process 0 ∷ of_process 1 ∷ alternating n

-- Both polls list the watches before either claims, and one alert is handed over.
alternating-calls :
    calls_for 11 "public_open"
      (interleave deps.notifier (alternating 20) (polls_of deps two_jobs) start).1.notify_calls
    ≡ 1
unfolding query polling evaluate get_event insert_availability_snapshot update_event_latest
    list_active_watches_for_event min_poll_interval_for_event claim_watch_alert mark_notified
    set_last_evaluation
alternating-calls = refl

-- The status fallback takes no claim: where the date of the sale is unknown, both polls hand it over.
abbrev no_date : World
no_date = record start {
  db = record start.db {
    events = record { rows = record show { public_onsale_at = none } ∷ []; next = 8 };
  };
}

abbrev status_only : Fetch
status_only id = ok (record on_sale { public_onsale_start = none })

alternating-twice :
    calls_for 11 "status_onsale"
      (interleave deps.notifier
        (alternating 20)
        (polls_of deps ((7, status_only) ∷ (7, status_only) ∷ []))
        no_date).1.notify_calls
    ≡ 2
unfolding query polling evaluate get_event insert_availability_snapshot update_event_latest
    list_active_watches_for_event min_poll_interval_for_event claim_watch_alert mark_notified
    set_last_evaluation
alternating-twice = refl

-- The owner opts out, comes back and deletes the watch between the moves of the polls.
abbrev disturbed : List Move
disturbed =
    alternating 2
    ++ (of_user (unsubscribing_user 1) ∷ alternating 2)
    ++ (of_user (resubscribing_user 1) ∷ alternating 3)
    ++ (of_user (deleting_watch 11 1) ∷ alternating 20)

interleave-at_most_once_example :
    calls_for 11 "public_open"
      (interleave deps.notifier disturbed (polls_of deps two_jobs) rough).1.notify_calls
    ≤ 1
interleave-at_most_once_example =
    interleave-at_most_once 11 "public_open" deps two_jobs disturbed rough silent-IsQuiet refl
      (omega arith) (omega arith)
