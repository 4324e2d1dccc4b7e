-- ===== src/Worker/Process/Poll.antt =====
-- ProcessEvent and evaluateWatches of internal/worker/worker.go, cut into moves.
use ticket_watcher.Prelude.{
  ℕ, ◌+◌, ◌*◌, Bool, true, false, ◌||◌, some, List, [], ◌∷◌, String, ◌==◌, if◌then◌else◌,
}
use ticket_watcher.Prelude.Instant.{second}
use ticket_watcher.Prelude.Outcome.{Outcome, ok, err}
use ticket_watcher.Evaluator.{Kind, kind_text, Observation, evaluate}
use ticket_watcher.Store.Models.{Event}
use ticket_watcher.Store.Events.{get_event, insert_availability_snapshot, update_event_latest}
use ticket_watcher.Store.Watches.{
  ListActiveWatchesForEventRow, claim_watch_alert, mark_notified, set_last_evaluation,
  close_watches_for_event, list_active_watches_for_event, min_poll_interval_for_event,
}
use ticket_watcher.Ticketmaster.Types.{EventSnapshot}
use ticket_watcher.Worker.{
  WorkerError, poll, get_event_failed, insert_snapshot_failed, update_event_failed,
  list_watches_failed, claim_failed, mark_notified_failed, set_last_evaluation_failed,
  close_watches_failed, Deps, needs_claim, changed, is_valid, is_withheld, alert_for, prior_for,
  effective_interval, latest_params, observation_of, Fetch,
}
use ticket_watcher.Worker.Process.{
  Process, hands_over, pure, throw, ask, ask_any, time_now, ◌>>=◌, ◌>>◌,
}

abbrev pub Goroutine : Type 0 → Type 1
Goroutine = Process WorkerError

abbrev pub claiming : ListActiveWatchesForEventRow → Kind → Goroutine ℕ
claiming w k =
    if needs_claim k then ask (claim_failed k) (claim_watch_alert w.id (kind_text k)) else pure 1

abbrev pub closing_watches : Bool → ℕ → Goroutine (Unit {0})
closing_watches false event_id = pure tt
closing_watches true event_id =
    ask close_watches_failed (close_watches_for_event event_id) >> pure tt

module _ (d : Deps) (ev : Event) (snap : EventSnapshot) (obs : Observation) where
  abbrev pub delivering : ListActiveWatchesForEventRow → Kind → Goroutine (Unit {0})
  delivering w k =
      hands_over (alert_for d ev snap obs w k) (ask mark_notified_failed (mark_notified w.id))

  abbrev pub alerting : ListActiveWatchesForEventRow → Kind → Goroutine (Unit {0})
  alerting w k = do
    claimed ← claiming w k
    if claimed == 0 || is_withheld w then pure tt else delivering w k

  abbrev pub alerting_kinds : ListActiveWatchesForEventRow → List Kind → Goroutine (Unit {0})
  alerting_kinds w [] = pure tt
  alerting_kinds w (k ∷ ks) = alerting w k >> alerting_kinds w ks

  abbrev pub evaluating_watch : Bool → ListActiveWatchesForEventRow → Goroutine Bool
  evaluating_watch knew w = do
    let res = evaluate obs (prior_for d ev snap obs knew w)
    alerting_kinds w res.kinds
    ask set_last_evaluation_failed (set_last_evaluation w.id res.status_onsale)
    pure res.close_watch

  abbrev pub evaluating_each : Bool → Bool → List ListActiveWatchesForEventRow → Goroutine Bool
  evaluating_each knew close [] = pure close
  evaluating_each knew close (w ∷ ws) =
      evaluating_watch knew w >>= λ c. evaluating_each knew (c || close) ws

  abbrev pub evaluating_watches : Bool → Goroutine (Unit {0})
  evaluating_watches knew = do
    watches ← ask list_watches_failed (list_active_watches_for_event ev.id)
    close ← evaluating_each knew false watches
    closing_watches close ev.id

abbrev pub recording_change : ℕ → Event → String → Goroutine (Unit {0})
recording_change event_id ev avail =
    if changed ev avail
    then ask insert_snapshot_failed (insert_availability_snapshot event_id (some avail)) >> pure tt
    else pure tt

abbrev pub asking_interval : ℕ → Goroutine ℕ
asking_interval event_id = do
  r ← ask_any (min_poll_interval_for_event event_id)
  pure (effective_interval r)

abbrev pub fetching : Outcome String EventSnapshot → Goroutine EventSnapshot
fetching (ok snap) = pure snap
fetching (err e) = throw (poll e)

abbrev pub polling_snapshot : Deps → ℕ → Event → EventSnapshot → Goroutine (Unit {0})
polling_snapshot d event_id ev snap = do
  recording_change event_id ev snap.availability
  interval ← asking_interval event_id
  now ← time_now
  ask update_event_failed
      (update_event_latest (latest_params event_id snap (now + interval * second)))
  later ← time_now
  evaluating_watches d ev snap (observation_of ev snap later) (is_valid ev.public_onsale_at)

-- ProcessEvent
unfoldable pub polling : Deps → Fetch → ℕ → Goroutine (Unit {0})
polling d fetch event_id = do
  ev ← ask get_event_failed (get_event event_id)
  snap ← fetching (fetch ev.tm_event_id)
  polling_snapshot d event_id ev snap
