-- ===== src/Worker/Consent.antt =====
-- Every alert that is handed over goes to somebody who may be mailed about that watch.
pub mod Statements
use ticket_watcher.Prelude.{
  select, ℕ, ◌≡◌, refl, Bool, true, false, ◌||◌, List, [], ◌∷◌, arith, All, String, Option, none,
  some,
}
use ticket_watcher.Prelude.Instant.{Instant}
use ticket_watcher.Prelude.Outcome.{Outcome, ok, err, map_err-eq_ok}
use ticket_watcher.Evaluator.{kind_text, Kind, Observation}
use ticket_watcher.Store.Models.{User, Watch, Event, Db}
use ticket_watcher.Store.Query.{DbError}
use ticket_watcher.Store.Owners.{owns, may_mail, IsMailable}
use ticket_watcher.Store.Ownership.{
  SameOwners, SameOwners-eq, join_users-IsMailable_of_same, SameOwners-mark_notified,
  SameOwners-set_last_evaluation, SameOwners-close_watches_for_event, SameOwners-claim_watch_alert,
  SameOwners-update_event_latest, SameOwners-insert_availability_snapshot,
}
use ticket_watcher.Store.Watches.{
  is_active_on, join_users, min_poll_interval_for_event, list_active_watches_for_event,
  close_watches_for_event, set_last_evaluation, ListActiveWatchesForEventRow, claim_watch_alert,
  mark_notified,
}
use ticket_watcher.Store.Events.{
  get_event, update_event_latest, insert_availability_snapshot, UpdateEventLatestParams,
}
use ticket_watcher.Ticketmaster.Types.{EventSnapshot}
use ticket_watcher.World.{World, Alert, ◌>>=◌, wrap, query}
use ticket_watcher.World.Rules.{
  Relation, On, Keeps, query_post, Keeps-query, Keeps-query_of_read, Keeps-pure, Keeps-throw,
  Keeps-bind, Keeps-bind_of, Keeps-if_of, keeps_rules,
}
use ticket_watcher.Worker.{
  Notifier, Deps, Fetch, claim, notify_with, deliver, alert_for, alert_kind, alert_kinds,
  evaluate_watch, evaluate_each, evaluate_watches, close_if, is_withheld, list_watches_failed,
  record_change, poll_interval, fetched, poll, process_event, process_snapshot, run_jobs,
}
use ticket_watcher.Worker.Polls.{alert_kind-Keeps, KeptByPolls, run_jobs-Keeps}
use ticket_watcher.Worker.Quiet.{HasQuiet}
use ticket_watcher.Worker.Consent.Statements.{
  Consented, IsConsented, of_statement, mark_notified-Consented, set_last_evaluation-Consented,
  close_watches_for_event-Consented, claim_watch_alert-Consented, update_event_latest-Consented,
  insert_availability_snapshot-Consented, notify_with-Consented, ListedWith, list_statement_lem,
  list_query_lem,
}

module _ (users : List User) (watches : List Watch) where
  module _ (d : Deps) (ev : Event) (snap : EventSnapshot) (obs : Observation)
      (quiet : HasQuiet d.notifier) where
    alert_kind-Consented :
        (row : ListActiveWatchesForEventRow) (k : Kind)
        → IsMailable watches users row
        → Keeps (Consented users watches) (alert_kind d ev snap obs row k)
    alert_kind-Consented row k m =
        alert_kind-Keeps _ d ev snap obs row k
          (claim_watch_alert-Consented users watches row.id (kind_text k))
          (mark_notified-Consented users watches row.id)
          λ gates w h.
            notify_with-Consented users watches d.notifier (alert_for d ev snap obs row k) w quiet
              (m (ground arith) (ground arith)) h

  -- What every poll keeps.
  pub Consented-KeptByPolls :
      (d : Deps)
      → HasQuiet d.notifier
      → KeptByPolls d (IsMailable watches users) (Consented users watches)
  Consented-KeptByPolls d quiet = record {
    by_set_last_evaluation = set_last_evaluation-Consented users watches;
    by_close_watches = close_watches_for_event-Consented users watches;
    by_update_event = update_event_latest-Consented users watches;
    by_insert_snapshot = insert_availability_snapshot-Consented users watches;
    of_listed = list_query_lem users watches;
    by_alert_kind = λ ev snap obs row k m. alert_kind-Consented d ev snap obs quiet row k m;
  }

-- Every alert that the workers hand over, in any number of polls of any events, whatever fails in
-- them, is addressed to an owner of its watch whose address is verified and who has not
-- unsubscribed, and the polls change neither the users nor who owns a watch. No alert was handed
-- over before, and the notifier leaves the store's watches and users alone.
pub run_jobs-IsConsented :
    (d : Deps) (jobs : List (ℕ × Fetch)) (w : World)
    → HasQuiet d.notifier
    → w.notify_calls ≡ []
    → let w' = run_jobs d jobs w in
      All (IsConsented w.db.users.rows w.db.watches.rows) w'.notify_calls
      × (w'.db.users.rows ≡ w.db.users.rows)
      × ((id user_id : ℕ) → owns id user_id w'.db.watches.rows ≡ owns id user_id w.db.watches.rows)
run_jobs-IsConsented d jobs w quiet none_yet =
    let h =
      run_jobs-Keeps d _ _ (Consented-KeptByPolls w.db.users.rows w.db.watches.rows d quiet) jobs w
        (record {
          same = record { same_users = refl; same_owners = λ i j. refl };
          consented = rw none_yet tt;
        }) in
    (h.consented, h.same.same_users, h.same.same_owners)
