-- ===== src/Service/Watch.antt =====
-- internal/service/watch.go: a user's watches. The client's answer to `GetEvent` is an argument.
-- The messages of the errors are left out.
pub mod View
pub mod Kept
pub mod Isolation
pub mod Cap
mod Tests
use ticket_watcher.Prelude.{
  ◌==◌, ℕ, Bool, true, false, not, ◌&&◌, ◌||◌, Option, none, some, List, [], ◌∷◌, map, String,
  str_eq, if◌then◌else◌,
}
use ticket_watcher.Prelude.Int.{ℤ, pos, leb_ℤ, ltb_ℤ}
use ticket_watcher.Prelude.Instant.{Instant, after, before}
use ticket_watcher.Prelude.Outcome.{Outcome, ok, err}
use ticket_watcher.Store.Models.{Event, Watch, AvailabilitySnapshot}
use ticket_watcher.Store.Query.{DbError, no_rows}
use ticket_watcher.Store.Events.{
  get_event, get_event_by_tmid, upsert_event_by_tmid, UpsertEventByTmidParams, mark_event_due,
  list_snapshots_for_event,
}
use ticket_watcher.Store.Watches.{
  count_watches_for_user, create_watch, CreateWatchParams, delete_watch, get_watch, update_watch,
  list_watches_with_event, ListWatchesWithEventRow,
}
use ticket_watcher.Ticketmaster.Types.{EventSnapshot}
use ticket_watcher.Service.Watch.View.{str, WatchView, watch_view}
use ticket_watcher.World.{World, Action, pure, throw, ◌>>=◌, ◌>>◌, wrap, attempt, time_now, query}

pub data WatchError : Type 0 where
  invalid_condition missing_event_id watch_not_found invalid_status watch_limit_reached : WatchError
  count_watches_failed resolve_event_failed create_watch_failed store_failed : DbError → WatchError
  fetch_event_failed : String → WatchError

abbrev pub Call : Type 0 → Type 0
Call = Action WatchError

pub record CreateWatchInput : Type 0 where
  pub tm_event_id : String
  pub condition_type : String
  pub poll_interval_s : ℤ

-- nil for an empty string.
abbrev pub str_ptr : String → Option String
str_ptr s = if str_eq s "" then none else some s

-- The user has fewer watches than the cap.
pub check_count : ℤ → ℕ → Call (Unit {0})
check_count max_per_user user_id = do
  n ← wrap count_watches_failed (query (count_watches_for_user user_id))
  if leb_ℤ max_per_user (pos n) then throw watch_limit_reached else pure tt

-- The cap, when there is one.
pub check_limit : ℤ → ℕ → Call (Unit {0})
unfolding check_count
check_limit max_per_user user_id =
    if ltb_ℤ (pos 0) max_per_user then check_count max_per_user user_id else pure tt

abbrev pub upsert_params : EventSnapshot → UpsertEventByTmidParams
upsert_params snap = record {
  tm_event_id = snap.tm_event_id;
  name = snap.name;
  url = snap.url;
  venue = snap.venue;
  event_date = snap.event_date;
  last_availability = some snap.availability;
  public_onsale_at = snap.public_onsale_start;
  public_onsale_end_at = snap.public_onsale_end;
  earliest_presale_at = snap.earliest_presale_start;
  earliest_presale_name = str_ptr snap.earliest_presale_name;
  presale_count = snap.presale_count;
  onsale_tbd = snap.onsale_tbd;
}

abbrev pub stored : Outcome String EventSnapshot → Call Event
stored (ok snap) = wrap resolve_event_failed (query (upsert_event_by_tmid (upsert_params snap)))
stored (err e) = throw (fetch_event_failed e)

-- The event that is there, or for one never seen, what the client answers.
abbrev pub resolved :
    (String → Outcome String EventSnapshot) → String → Outcome DbError Event → Call Event
resolved fetch tm_event_id (ok ev) = pure ev
resolved fetch tm_event_id (err no_rows) = stored (fetch tm_event_id)
resolved fetch tm_event_id (err e) = throw (resolve_event_failed e)

pub resolve_event : (String → Outcome String EventSnapshot) → String → Call Event
resolve_event fetch tm_event_id = do
  r ← attempt (query (get_event_by_tmid tm_event_id))
  resolved fetch tm_event_id r

abbrev pub create_params : ℕ → CreateWatchInput → Event → CreateWatchParams
create_params user_id i ev = record {
  user_id = user_id;
  event_id = ev.id;
  condition_type = i.condition_type;
  poll_interval_s = if leb_ℤ i.poll_interval_s (pos 0) then pos 300 else i.poll_interval_s;
  last_evaluation = str_eq (str ev.last_availability) "onsale";
}

-- Create, once its input is valid.
pub create_valid :
    ℤ → (String → Outcome String EventSnapshot) → ℕ → CreateWatchInput → Call WatchView
unfolding check_limit resolve_event watch_view
create_valid max_per_user fetch user_id i = do
  check_limit max_per_user user_id
  ev ← resolve_event fetch i.tm_event_id
  w ← wrap create_watch_failed (query (create_watch (create_params user_id i ev)))
  marked ← attempt (query (mark_event_due ev.id))
  now ← time_now
  pure (watch_view now w ev)

-- Create
pub create : ℤ → (String → Outcome String EventSnapshot) → ℕ → CreateWatchInput → Call WatchView
unfolding create_valid
create max_per_user fetch user_id i =
    if str_eq i.tm_event_id ""
    then throw missing_event_id
    else if not (str_eq i.condition_type "becomes_available")
    then throw invalid_condition
    else create_valid max_per_user fetch user_id i

-- List
pub list : ℕ → Call (List WatchView)
unfolding watch_view
list user_id = do
  rows ← wrap store_failed (query (list_watches_with_event user_id))
  now ← time_now
  pure (map (λ (r : ListWatchesWithEventRow). watch_view now r.watch r.event) rows)

-- `errors.Is(err, pgx.ErrNoRows)`
abbrev pub not_found : DbError → WatchError
not_found no_rows = watch_not_found
not_found e = store_failed e

-- History
pub history : ℕ → ℕ → Call (List (Option String × Instant))
history user_id watch_id = do
  w ← wrap not_found (query (get_watch watch_id user_id))
  snaps ← wrap store_failed (query (list_snapshots_for_event w.event_id))
  pure (map (λ (s : AvailabilitySnapshot). (s.availability_status, s.checked_at)) snaps)

abbrev pub is_valid_status : Option String → Bool
is_valid_status none = true
is_valid_status (some s) = str_eq s "active" || str_eq s "paused"

-- Update, once its input is valid.
pub update_valid : ℕ → ℕ → Option String → Call WatchView
unfolding watch_view
update_valid user_id watch_id status = do
  w ← wrap not_found (query (update_watch status watch_id user_id))
  ev ← wrap store_failed (query (get_event w.event_id))
  now ← time_now
  pure (watch_view now w ev)

-- Update
pub update : ℕ → ℕ → Option String → Call WatchView
unfolding update_valid
update user_id watch_id status =
    if not (is_valid_status status)
    then throw invalid_status
    else update_valid user_id watch_id status

-- Delete
pub delete : ℕ → ℕ → Call (Unit {0})
delete user_id watch_id = do
  n ← wrap store_failed (query (delete_watch watch_id user_id))
  if n == 0 then throw watch_not_found else pure tt

-- The calls of the service, and what each leaves of the world, whether it returns or fails.
pub data Request : Type 0 where
  creating : CreateWatchInput → Request
  listing : Request
  reading_history : ℕ → Request
  updating : ℕ → Option String → Request
  deleting : ℕ → Request

unfoldable pub serve : ℤ → (String → Outcome String EventSnapshot) → ℕ → Request → World → World
unfolding create list history update delete
serve max_per_user fetch user_id (creating i) w = (create max_per_user fetch user_id i w).1
serve max_per_user fetch user_id listing w = (list user_id w).1
serve max_per_user fetch user_id (reading_history id) w = (history user_id id w).1
serve max_per_user fetch user_id (updating id status) w = (update user_id id status w).1
serve max_per_user fetch user_id (deleting id) w = (delete user_id id w).1

-- Requests of several users, one after another.
unfoldable pub serve_all :
    ℤ → (String → Outcome String EventSnapshot) → List (ℕ × Request) → World → World
unfolding serve
serve_all max_per_user fetch [] w = w
serve_all max_per_user fetch ((user_id, r) ∷ rs) w =
    serve_all max_per_user fetch rs (serve max_per_user fetch user_id r w)
