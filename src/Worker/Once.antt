-- ===== src/Worker/Once.antt =====
-- Each milestone but the status fallback is handed to the notifier at most once per watch, over any
-- number of polls, whatever fails in them.
pub mod Statements
use ticket_watcher.Prelude.{
  ℕ, ◌+◌, ◌≤◌, ◌≡◌, ◌≢◌, inl, inr, refl, Bool, true, false, ◌&&◌, ◌||◌, Option, none, some, List,
  [], ◌∷◌, String, str_eq, str_eq_iff, ◌==◌, count, arith, Bool-cases, if◌then◌else◌,
}
use ticket_watcher.Prelude.Instant.{Instant}
use ticket_watcher.Prelude.Outcome.{Outcome, ok, err, map_err-eq_ok}
use ticket_watcher.Evaluator.{Kind, kind_text, status_onsale, Observation}
use ticket_watcher.Worker.Polls.{KeptByPolls, run_jobs-Keeps, of_listed_any}
use ticket_watcher.Worker.Quiet.{HasQuiet}
use ticket_watcher.Store.Models.{Event, Db}
use ticket_watcher.Store.Query.{DbError}
use ticket_watcher.Store.Claims.{
  is_spent-update_event_latest, is_spent-insert_availability_snapshot,
  is_spent-close_watches_for_event, is_spent, claim_watch_alert_lem, is_spent-mark_notified,
  is_spent-set_last_evaluation, is_spent-claim_watch_alert,
}
use ticket_watcher.Store.Watches.{
  min_poll_interval_for_event, list_active_watches_for_event, close_watches_for_event,
  set_last_evaluation, ListActiveWatchesForEventRow, claim_watch_alert, mark_notified,
}
use ticket_watcher.Ticketmaster.Types.{EventSnapshot}
use ticket_watcher.World.{◌>>=◌, wrap, World, Alert, pure, query, follow}
use ticket_watcher.World.Rules.{
  Relation, On, Keeps, query_post, Keeps-query, Keeps-query_of_read, Keeps-pure, Keeps-throw,
  Keeps-bind, keeps_rules,
}
use ticket_watcher.Worker.{
  wrap, get_event, Fetch, poll, process_snapshot, process_event, fetched, ◌>>=◌, record_change,
  poll_interval, run_jobs, update_event_latest, close_if, evaluate_each, evaluate_watches,
  insert_availability_snapshot, UpdateEventLatestParams, claim_failed, evaluate_watch, alert_kinds,
  Deps, Notifier, WorkerError, claim, notify_with, alert_for, deliver, alert_kind, is_withheld,
}
use ticket_watcher.Store.Events.{get_event}
use ticket_watcher.Worker.Once.Statements.{
  is_call_for, calls_for, AtMostOnce, notify_with_lem, Open, Claimed, is_pair, claim_statement_self,
  claim_statement_lem, claim_query_lem, mark_notified-AtMostOnce, set_last_evaluation-AtMostOnce,
  close_watches_for_event-AtMostOnce, update_event_latest-AtMostOnce,
  insert_availability_snapshot-AtMostOnce, deliver-AtMostOnce, claim-AtMostOnce,
}

module _ (id : ℕ) (kind : String) where
  module _ (d : Deps) (ev : Event) (snap : EventSnapshot) (obs : Observation) where
    proceed-AtMostOnce :
        (row : ListActiveWatchesForEventRow) (k : Kind) (r : Outcome WorkerError ℕ) (w : World)
        → HasQuiet d.notifier
        → On (AtMostOnce id kind) w
        → ((c : ℕ)
            → r ≡ ok c
            → c ≢ 0
            → is_pair id kind row.id (kind_text k) ≡ true
            → On (Open id kind) w)
        → On
            (AtMostOnce id kind)
            (follow
              (λ claimed.
                if claimed == 0 || is_withheld row then pure tt else deliver d ev snap obs row k)
              r
              w).1
    unfolding pure
    proceed-AtMostOnce row k (err e) w quiet h credit = h
    proceed-AtMostOnce row k (ok c) w quiet h credit =
        elim (Bool-cases (c == 0 || is_withheld row)) [
          | inl stop ↦ rw stop h
          | inr go ↦ rw go (
              deliver-AtMostOnce id kind d ev snap obs row k w quiet h
                (λ mine. credit c refl (ground arith) mine))
        ]

    alert_kind-AtMostOnce :
        (row : ListActiveWatchesForEventRow) (k : Kind)
        → HasQuiet d.notifier
        → str_eq kind (kind_text status_onsale) ≡ false
        → Keeps (AtMostOnce id kind) (alert_kind d ev snap obs row k)
    unfolding alert_kind ◌>>=◌
    alert_kind-AtMostOnce row k quiet ne = record {
      at = λ w h.
          let claimed = claim-AtMostOnce id kind row k w ne h in
          proceed-AtMostOnce row k (claim row k w).0 (claim row k w).1 quiet claimed.0 claimed.1;
    }

  -- What every poll keeps.
  AtMostOnce-KeptByPolls :
      (d : Deps)
      → HasQuiet d.notifier
      → str_eq kind (kind_text status_onsale) ≡ false
      → KeptByPolls d (λ row. Unit) (AtMostOnce id kind)
  AtMostOnce-KeptByPolls d quiet ne = record {
    by_set_last_evaluation = set_last_evaluation-AtMostOnce id kind;
    by_close_watches = close_watches_for_event-AtMostOnce id kind;
    by_update_event = update_event_latest-AtMostOnce id kind;
    by_insert_snapshot = insert_availability_snapshot-AtMostOnce id kind;
    of_listed = λ i w h. of_listed_any i w;
    by_alert_kind = λ ev snap obs row k _. alert_kind-AtMostOnce d ev snap obs row k quiet ne;
  }

  -- After any number of polls of any events, each milestone but the status fallback was handed to
  -- the notifier at most once for each watch, and if once, no later claim of it can succeed:
  -- whatever the client answered, whichever of the calls failed, and wherever a poll broke off.
  -- The notifier is quiet, and at the start the pair had no alert, or one and no later claim of it
  -- could succeed.
  pub run_jobs-at_most_once :
      (d : Deps) (jobs : List (ℕ × Fetch)) (w : World)
      → HasQuiet d.notifier
      → str_eq kind (kind_text status_onsale) ≡ false
      → On (AtMostOnce id kind) w
      → (calls_for id kind (run_jobs d jobs w).notify_calls ≤ 1)
        × On (AtMostOnce id kind) (run_jobs d jobs w)
  run_jobs-at_most_once d jobs w quiet ne h =
      let h' = run_jobs-Keeps d _ _ (AtMostOnce-KeptByPolls d quiet ne) jobs w h in
      (ground arith, h')
