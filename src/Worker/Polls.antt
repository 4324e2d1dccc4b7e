-- ===== src/Worker/Polls.antt =====
-- What a relation needs to be kept by every poll: that it is kept by the statements of a poll that
-- write, and by the alert of one milestone to a listed watch.
use ticket_watcher.Prelude.{
  arith, ℕ, ◌≡◌, refl, Bool, true, false, ◌||◌, Option, List, [], ◌∷◌, String, All,
}
use ticket_watcher.Prelude.Outcome.{Outcome, ok, err}
use ticket_watcher.Evaluator.{kind_text, Kind, Observation}
use ticket_watcher.Store.Models.{Event}
use ticket_watcher.Store.Events.{
  get_event, update_event_latest, insert_availability_snapshot, UpdateEventLatestParams,
}
use ticket_watcher.Store.Watches.{
  mark_notified, claim_watch_alert, min_poll_interval_for_event, list_active_watches_for_event,
  close_watches_for_event, set_last_evaluation, ListActiveWatchesForEventRow,
}
use ticket_watcher.Ticketmaster.Types.{EventSnapshot}
use ticket_watcher.World.{◌>>=◌, World, wrap, query}
use ticket_watcher.World.Rules.{
  Keeps-if_of, Relation, On, Keeps, Keeps-query_of_read, Keeps-pure, Keeps-throw, Keeps-bind,
  Keeps-bind_of, Keeps-if, Keeps-wrap, keeps_rules,
}
use ticket_watcher.Worker.{
  alert_for, notify_with, is_withheld, claim, ◌>>=◌, deliver, Deps, Fetch, alert_kind, alert_kinds,
  evaluate_watch, evaluate_each, evaluate_watches, close_if, list_watches_failed, record_change,
  poll_interval, fetched, poll, process_event, process_snapshot, run_jobs,
}

pub record KeptByPolls (d : Deps) (Q : ListActiveWatchesForEventRow → Type 0) (R : Relation)
    : Type 0 where
  pub by_set_last_evaluation : (i : ℕ) (b : Bool) → Keeps R (query (set_last_evaluation i b))
  pub by_close_watches : (i : ℕ) → Keeps R (query (close_watches_for_event i))
  pub by_update_event : (p : UpdateEventLatestParams) → Keeps R (query (update_event_latest p))
  pub by_insert_snapshot :
      (i : ℕ) (s : Option String) → Keeps R (query (insert_availability_snapshot i s))
  -- What every listed watch has.
  pub of_listed :
      (i : ℕ) (w : World)
      → On R w
      → (rows : List ListActiveWatchesForEventRow)
      → (wrap list_watches_failed (query (list_active_watches_for_event i)) w).0 ≡ ok rows
      → All Q rows
  pub by_alert_kind :
      (ev : Event) (snap : EventSnapshot) (obs : Observation) (row : ListActiveWatchesForEventRow)
      (k : Kind)
      → Q row
      → Keeps R (alert_kind d ev snap obs row k)

-- The alert of one milestone, from its statements and its hand-over.
module _ (R : Relation) (d : Deps) (ev : Event) (snap : EventSnapshot) (obs : Observation)
    (row : ListActiveWatchesForEventRow) (k : Kind) where
  claim-Keeps : Keeps R (query (claim_watch_alert row.id (kind_text k))) → Keeps R (claim row k)
  claim-Keeps h = Keeps-if _ _ _ (Keeps-wrap _ _ h) (Keeps-pure 1)

  deliver-Keeps :
      Keeps R (query (mark_notified row.id))
      → ((w : World) → On R w → On R (notify_with d.notifier (alert_for d ev snap obs row k) w))
      → Keeps R (deliver d ev snap obs row k)
  unfolding deliver ◌>>=◌
  deliver-Keeps marked notified = record {
    at = λ w h. marked.at (notify_with d.notifier (alert_for d ev snap obs row k) w) (notified w h);
  }

  pub alert_kind-Keeps :
      Keeps R (query (claim_watch_alert row.id (kind_text k)))
      → Keeps R (query (mark_notified row.id))
      → (is_withheld row ≡ false
          → (w : World) → On R w
          → On R (notify_with d.notifier (alert_for d ev snap obs row k) w))
      → Keeps R (alert_kind d ev snap obs row k)
  unfolding alert_kind
  alert_kind-Keeps claimed marked notified = Keeps-bind _ _ (claim-Keeps claimed) λ c.
      Keeps-if_of _ _ _ (λ stop. Keeps-pure tt)
        (λ go. deliver-Keeps marked (notified (ground arith)))

module _ (d : Deps) (Q : ListActiveWatchesForEventRow → Type 0) (R : Relation)
    (kept : KeptByPolls d Q R) where
  module _ (ev : Event) (snap : EventSnapshot) (obs : Observation) where
    alert_kinds-Keeps :
        (row : ListActiveWatchesForEventRow) (ks : List Kind)
        → Q row
        → Keeps R (alert_kinds d ev snap obs row ks)
    unfolding alert_kinds
    alert_kinds-Keeps row [] q = Keeps-pure tt
    alert_kinds-Keeps row (k ∷ ks) q =
        Keeps-bind _ _ (kept.by_alert_kind ev snap obs row k q) (λ _. alert_kinds-Keeps row ks q)

    evaluate_watch-Keeps :
        (knew : Bool) (row : ListActiveWatchesForEventRow)
        → Q row
        → Keeps R (evaluate_watch d ev snap obs knew row)
    unfolding evaluate_watch
    evaluate_watch-Keeps knew row q =
        search (keeps_rules, alert_kinds-Keeps, kept.by_set_last_evaluation)

    evaluate_each-Keeps :
        (knew close : Bool) (rows : List ListActiveWatchesForEventRow)
        → All Q rows
        → Keeps R (evaluate_each d ev snap obs knew close rows)
    unfolding evaluate_each
    evaluate_each-Keeps knew close [] q = Keeps-pure close
    evaluate_each-Keeps knew close (row ∷ rows) q =
        Keeps-bind _ _ (evaluate_watch-Keeps knew row q.0)
          (λ c. evaluate_each-Keeps knew (c || close) rows q.1)

    close_if-Keeps : (b : Bool) (i : ℕ) → Keeps R (close_if b i)
    close_if-Keeps false i = search keeps_rules
    close_if-Keeps true i = search (keeps_rules, kept.by_close_watches)

    list_active_watches-Keeps : (i : ℕ) → Keeps R (query (list_active_watches_for_event i))
    unfolding list_active_watches_for_event
    list_active_watches-Keeps i = Keeps-query_of_read _ (λ now db. refl)

    evaluate_watches-Keeps : (knew : Bool) → Keeps R (evaluate_watches d ev snap obs knew)
    unfolding evaluate_watches
    evaluate_watches-Keeps knew =
        Keeps-bind_of (All Q) _ _ (search (keeps_rules, list_active_watches-Keeps))
          (kept.of_listed ev.id) λ rows q. search (keeps_rules, evaluate_each-Keeps, close_if-Keeps)

  record_change-Keeps : (i : ℕ) (ev : Event) (s : String) → Keeps R (record_change i ev s)
  unfolding record_change
  record_change-Keeps i ev s = search (keeps_rules, kept.by_insert_snapshot)

  poll_interval-Keeps : (i : ℕ) → Keeps R (poll_interval i)
  unfolding poll_interval min_poll_interval_for_event
  poll_interval-Keeps i =
      search (keeps_rules, Keeps-query_of_read (min_poll_interval_for_event i) (λ now db. refl))

  fetched-Keeps : (r : Outcome String EventSnapshot) → Keeps R (fetched r)
  fetched-Keeps (ok snap) = Keeps-pure snap
  fetched-Keeps (err e) = Keeps-throw (poll e)

  -- One poll, whatever the client answers and whichever calls fail.
  pub process_event-Keeps : (fetch : Fetch) (i : ℕ) → Keeps R (process_event d fetch i)
  unfolding process_event process_snapshot get_event
  process_event-Keeps fetch i =
      search
        (
          keeps_rules,
          Keeps-query_of_read (get_event i) (λ now db. refl),
          fetched-Keeps,
          record_change-Keeps,
          poll_interval-Keeps,
          kept.by_update_event,
          evaluate_watches-Keeps,
        )
        depth 12

  -- Any number of polls.
  pub run_jobs-Keeps : (jobs : List (ℕ × Fetch)) (w : World) → On R w → On R (run_jobs d jobs w)
  unfolding run_jobs
  run_jobs-Keeps [] w h = h
  run_jobs-Keeps ((i, fetch) ∷ jobs) w h =
      run_jobs-Keeps jobs (process_event d fetch i w).1 ((process_event-Keeps fetch i).at w h)

-- Nothing is known of a listed watch.
pub of_listed_any :
    (i : ℕ) (w : World) (rows : List ListActiveWatchesForEventRow)
    → (wrap list_watches_failed (query (list_active_watches_for_event i)) w).0 ≡ ok rows
    → All (λ (row : ListActiveWatchesForEventRow). Unit {0}) rows
of_listed_any i w rows e = all_unit rows
  where
    all_unit :
        (rows : List ListActiveWatchesForEventRow)
        → All (λ (row : ListActiveWatchesForEventRow). Unit {0}) rows
    all_unit [] = tt
    all_unit (row ∷ rows) = (tt, all_unit rows)
