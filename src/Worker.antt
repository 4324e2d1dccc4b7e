-- ===== src/Worker.antt =====
-- internal/worker/worker.go: a worker polls an event, stores what it saw, and alerts the event's
-- watchers. A poll is an action on the world; the client's answer to `GetEvent` is an argument,
-- and so is the notifier, an interface in the source too.
pub mod Quiet
pub mod Polls
pub mod Once
pub mod Consent
pub mod Delivery
pub mod Process
pub mod Sample
mod Tests
use ticket_watcher.Prelude.{
  ℕ, zero, ◌+◌, ◌*◌, Bool, true, false, not, ◌&&◌, ◌||◌, Option, none, some, List, [], ◌∷◌, String,
  str_eq, ◌==◌, if◌then◌else◌,
}
use ticket_watcher.Prelude.Int.{ℤ, pos, pos_part, leb_ℤ}
use ticket_watcher.Prelude.Instant.{Instant, second}
use ticket_watcher.Prelude.Outcome.{Outcome, ok, err}
use ticket_watcher.Evaluator.{Kind, kind_text, status_onsale, Observation, Prior, Result, evaluate}
use ticket_watcher.Store.Models.{Event}
use ticket_watcher.Store.Query.{DbError}
use ticket_watcher.Store.Events.{
  get_event, insert_availability_snapshot, update_event_latest, UpdateEventLatestParams,
}
use ticket_watcher.Store.Watches.{
  ListActiveWatchesForEventRow, claim_watch_alert, mark_notified, set_last_evaluation,
  close_watches_for_event, list_active_watches_for_event, min_poll_interval_for_event,
}
use ticket_watcher.Ticketmaster.Types.{EventSnapshot}
use ticket_watcher.World.{
  attempt, World, Alert, Action, pure, throw, ◌>>=◌, ◌>>◌, wrap, run_, time_now, query,
}

-- `Notifier`: what delivers an alert. It returns nothing.
pub record Notifier : Type 0 where
  pub notify : Alert → World → World

-- `Deps`, but for the store and the clock, which the world has.
pub record Deps : Type 0 where
  pub notifier : Option Notifier
  pub unsubscribe_url : Option (ℕ → String)

-- The wrapped errors of ProcessEvent, by their prefix.
pub data WorkerError : Type 0 where
  poll : String → WorkerError
  get_event_failed insert_snapshot_failed update_event_failed list_watches_failed :
      DbError → WorkerError
  claim_failed : Kind → DbError → WorkerError
  mark_notified_failed set_last_evaluation_failed close_watches_failed : DbError → WorkerError

abbrev pub Step : Type 0 → Type 0
Step = Action WorkerError

-- `k != evaluator.KindStatusOnsale`
abbrev pub needs_claim : Kind → Bool
needs_claim k = not (str_eq (kind_text k) (kind_text status_onsale))

abbrev pub eq_str_ptr : Option String → Option String → Bool
eq_str_ptr none none = true
eq_str_ptr none (some b) = false
eq_str_ptr (some a) none = false
eq_str_ptr (some a) (some b) = str_eq a b

abbrev pub changed : Event → String → Bool
changed ev avail = not (eq_str_ptr ev.last_availability (some avail))

-- nil for an empty string.
abbrev pub str_ptr : String → Option String
str_ptr s = if str_eq s "" then none else some s

abbrev pub is_valid : Option Instant → Bool
is_valid none = false
is_valid (some t) = true

-- 1 for a kind that needs no claim, and what the claim inserted for one that does.
abbrev pub claim : ListActiveWatchesForEventRow → Kind → Step ℕ
claim w k =
    if needs_claim k
    then wrap (claim_failed k) (query (claim_watch_alert w.id (kind_text k)))
    else pure 1

abbrev pub url_for : Option (ℕ → String) → ℕ → String
url_for none user_id = ""
url_for (some f) user_id = f user_id

-- `if d.Notifier != nil { d.Notifier.Notify(ctx, a) }`
abbrev pub notify_with : Option Notifier → Alert → World → World
notify_with none a w = w
notify_with (some n) a w = n.notify a (record w { notify_calls = a ∷ w.notify_calls })

-- The consent gates: the address is not verified, or its owner has unsubscribed.
abbrev pub is_withheld : ListActiveWatchesForEventRow → Bool
is_withheld w = if is_valid w.email_verified_at then is_valid w.unsubscribed_at else true

-- `if closeEvent { ... }`
abbrev pub close_if : Bool → ℕ → Step (Unit {0})
close_if false event_id = pure tt
close_if true event_id =
    wrap close_watches_failed (query (close_watches_for_event event_id)) >> pure tt

module _ (d : Deps) (ev : Event) (snap : EventSnapshot) (obs : Observation) where
  abbrev pub alert_for : ListActiveWatchesForEventRow → Kind → Alert
  alert_for w k = record {
    watch_id = w.id;
    to_email = w.user_email;
    event_name = ev.name;
    venue = ev.venue;
    event_url = ev.url;
    kind = kind_text k;
    availability = obs.availability;
    public_onsale_start = snap.public_onsale_start;
    earliest_presale_start = snap.earliest_presale_start;
    earliest_presale_name = snap.earliest_presale_name;
    onsale_tbd = snap.onsale_tbd;
    unsubscribe_url = url_for d.unsubscribe_url w.user_id;
  }

  -- The delivery, and its stamp on the watch.
  pub deliver : ListActiveWatchesForEventRow → Kind → Step (Unit {0})
  deliver w k = do
    run_ (notify_with d.notifier (alert_for w k))
    wrap mark_notified_failed (query (mark_notified w.id))

  -- The body of the loop over `res.Kinds`.
  pub alert_kind : ListActiveWatchesForEventRow → Kind → Step (Unit {0})
  unfolding deliver
  alert_kind w k = do
    claimed ← claim w k
    if claimed == 0 || is_withheld w then pure tt else deliver w k

  pub alert_kinds : ListActiveWatchesForEventRow → List Kind → Step (Unit {0})
  unfolding alert_kind
  alert_kinds w [] = pure tt
  alert_kinds w (k ∷ ks) = alert_kind w k >> alert_kinds w ks

  abbrev pub prior_for : Bool → ListActiveWatchesForEventRow → Prior
  prior_for knew w = record {
    knew_public_start = knew;
    last_evaluation = w.last_evaluation;
    watch_created_at = w.created_at;
  }

  -- The body of the loop over the watches; returns `res.CloseWatch`.
  pub evaluate_watch : Bool → ListActiveWatchesForEventRow → Step Bool
  unfolding alert_kinds evaluate
  evaluate_watch knew w = do
    let res = evaluate obs (prior_for knew w)
    alert_kinds w res.kinds
    wrap set_last_evaluation_failed (query (set_last_evaluation w.id res.status_onsale))
    pure res.close_watch

  -- The loop, with the `closeEvent` flag.
  pub evaluate_each : Bool → Bool → List ListActiveWatchesForEventRow → Step Bool
  unfolding evaluate_watch
  evaluate_each knew close [] = pure close
  evaluate_each knew close (w ∷ ws) =
      evaluate_watch knew w >>= λ c. evaluate_each knew (c || close) ws

  pub evaluate_watches : Bool → Step (Unit {0})
  unfolding evaluate_each
  evaluate_watches knew = do
    watches ← wrap list_watches_failed (query (list_active_watches_for_event ev.id))
    close ← evaluate_each knew false watches
    close_if close ev.id

-- The interval that the database answers, or 300 if it fails or answers none.
abbrev pub effective_interval : Outcome DbError ℤ → ℕ
effective_interval (err e) = 300
effective_interval (ok i) = if leb_ℤ i (pos 0) then 300 else pos_part i

-- `MinPollIntervalForEvent`, whose error is dropped.
pub poll_interval : ℕ → Step ℕ
poll_interval event_id = do
  r ← attempt (query (min_poll_interval_for_event event_id))
  pure (effective_interval r)

abbrev pub latest_params : ℕ → EventSnapshot → Instant → UpdateEventLatestParams
latest_params event_id snap next = record {
  id = event_id;
  last_availability = some snap.availability;
  public_onsale_at = snap.public_onsale_start;
  public_onsale_end_at = snap.public_onsale_end;
  earliest_presale_at = snap.earliest_presale_start;
  earliest_presale_name = str_ptr snap.earliest_presale_name;
  presale_count = snap.presale_count;
  onsale_tbd = snap.onsale_tbd;
  next_poll_at = next;
}

abbrev pub observation_of : Event → EventSnapshot → Instant → Observation
observation_of ev snap now = record {
  now = now;
  availability = snap.availability;
  public_start = snap.public_onsale_start;
  public_end = snap.public_onsale_end;
  onsale_tbd = snap.onsale_tbd;
  earliest_presale = snap.earliest_presale_start;
  event_date = ev.event_date;
}

-- The snapshot row, on a change only.
pub record_change : ℕ → Event → String → Step (Unit {0})
record_change event_id ev avail =
    if changed ev avail
    then wrap insert_snapshot_failed (query (insert_availability_snapshot event_id (some avail)))
      >> pure tt
    else pure tt

-- What the client answers to `GetEvent` for a Ticketmaster id.
abbrev pub Fetch : Type 0
Fetch = String → Outcome String EventSnapshot

abbrev pub fetched : Outcome String EventSnapshot → Step EventSnapshot
fetched (ok snap) = pure snap
fetched (err e) = throw (poll e)

-- ProcessEvent, from the client's answer on.
pub process_snapshot : Deps → ℕ → Event → EventSnapshot → Step (Unit {0})
unfolding record_change poll_interval evaluate_watches
process_snapshot d event_id ev snap = do
  record_change event_id ev snap.availability
  interval ← poll_interval event_id
  now ← time_now
  wrap update_event_failed
      (query (update_event_latest (latest_params event_id snap (now + interval * second))))
  later ← time_now
  evaluate_watches d ev snap (observation_of ev snap later) (is_valid ev.public_onsale_at)

pub process_event : Deps → Fetch → ℕ → Step (Unit {0})
unfolding process_snapshot
process_event d fetch event_id = do
  ev ← wrap get_event_failed (query (get_event event_id))
  snap ← fetched (fetch ev.tm_event_id)
  process_snapshot d event_id ev snap

-- A worker's loop over its jobs: an error is logged, and the next job is taken.
pub run_jobs : Deps → List (ℕ × Fetch) → World → World
unfolding process_event
run_jobs d [] w = w
run_jobs d ((event_id, fetch) ∷ jobs) w = run_jobs d jobs (process_event d fetch event_id w).1
