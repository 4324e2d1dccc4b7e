-- ===== src/Store/Watches.antt =====
-- internal/store/db/queries.sql.go, the statements on watches and watch_alerts.
use ticket_watcher.Prelude.{
  ℕ, Bool, not, ◌&&◌, Option, none, some, List, [], ◌∷◌, ◌++◌, map, leb, String, str_eq, ◌==◌,
  select, find?, any, count, update_where, if◌then◌else◌,
}
use ticket_watcher.Prelude.Sort.{sort_by}
use ticket_watcher.Prelude.Int.{ℤ, pos, ltb_ℤ}
use ticket_watcher.Prelude.Instant.{Instant}
use ticket_watcher.Prelude.Outcome.{ok, err}
use ticket_watcher.Store.Models.{User, Event, Watch, WatchAlert, Notification, Db}
use ticket_watcher.Store.Query.{Query, failed, one, insert_row, with_rows}

-- `w.status = 'active' AND w.event_id = $1`
abbrev pub is_active_on : ℕ → Watch → Bool
is_active_on event_id w = w.event_id == event_id && str_eq w.status "active"

abbrev pub has_watch : ℕ → Db → Bool
has_watch id db = any (λ (w : Watch). w.id == id) db.watches.rows

abbrev pub is_claim : ℕ → String → WatchAlert → Bool
is_claim watch_id kind a = a.watch_id == watch_id && str_eq a.kind kind

-- The (watch, kind) pair has its row in watch_alerts.
abbrev pub is_claimed : ℕ → String → Db → Bool
is_claimed watch_id kind db = any (is_claim watch_id kind) db.watch_alerts

-- The foreign key on watches is checked before the conflict is resolved.
unfoldable pub claim_watch_alert : ℕ → String → Query ℕ
claim_watch_alert watch_id kind now db =
    if not (has_watch watch_id db)
    then (err failed, db)
    else if is_claimed watch_id kind db
    then (ok 0, db)
    else (
      ok 1,
      record db {
        watch_alerts =
            db.watch_alerts ++ (record { watch_id = watch_id; kind = kind; fired_at = now } ∷ []);
      },
    )

unfoldable pub list_fired_alert_kinds : ℕ → Query (List String)
list_fired_alert_kinds watch_id now db = (
  ok (
      map (λ (a : WatchAlert). a.kind)
        (select (λ (a : WatchAlert). a.watch_id == watch_id) db.watch_alerts)),
  db,
)

-- The watches with a change made to those that pass a test.
abbrev pub set_watches : (Watch → Bool) → (Watch → Watch) → Db → Db
set_watches p f db = record db { watches = with_rows (update_where p f db.watches.rows) db.watches }

unfoldable pub close_watches_for_event : ℕ → Query ℕ
close_watches_for_event event_id now db = (
  ok (count (is_active_on event_id) db.watches.rows),
  set_watches (is_active_on event_id) (λ w. record w { status = "paused" }) db,
)

unfoldable pub count_watches_for_user : ℕ → Query ℕ
count_watches_for_user user_id now db =
    (ok (count (λ (w : Watch). w.user_id == user_id) db.watches.rows), db)

pub record CreateWatchParams : Type 0 where
  pub user_id : ℕ
  pub event_id : ℕ
  pub condition_type : String
  pub poll_interval_s : ℤ
  pub last_evaluation : Bool

-- The row that the insert makes: status and last_notified_at take the columns' defaults.
abbrev pub new_watch : CreateWatchParams → ℕ → Instant → Watch
new_watch p id now = record {
  id = id;
  user_id = p.user_id;
  event_id = p.event_id;
  condition_type = p.condition_type;
  status = "active";
  last_evaluation = p.last_evaluation;
  last_notified_at = none;
  poll_interval_s = p.poll_interval_s;
  created_at = now;
}

-- Both foreign keys must hold.
unfoldable pub create_watch : CreateWatchParams → Query Watch
create_watch p now db =
    if any (λ (u : User). u.id == p.user_id) db.users.rows
      && any (λ (e : Event). e.id == p.event_id) db.events.rows
    then (
      ok (new_watch p db.watches.next now),
      record db { watches = insert_row (new_watch p db.watches.next now) db.watches },
    )
    else (err failed, db)

-- `id = $1 AND user_id = $2`
abbrev pub is_owned : ℕ → ℕ → Watch → Bool
is_owned id user_id w = w.id == id && w.user_id == user_id

-- The watch_alerts and notifications of the watches that a test takes go with them: their foreign
-- keys cascade.
abbrev pub delete_watches : (Watch → Bool) → Db → Db
delete_watches p db =
    let gone = λ (id : ℕ). any (λ (w : Watch). w.id == id && p w) db.watches.rows in
    record db {
      watches = with_rows (select (λ w. not (p w)) db.watches.rows) db.watches;
      watch_alerts = select (λ (a : WatchAlert). not (gone a.watch_id)) db.watch_alerts;
      notifications =
          with_rows (select (λ (n : Notification). not (gone n.watch_id)) db.notifications.rows)
            db.notifications;
    }

unfoldable pub delete_watch : ℕ → ℕ → Query ℕ
delete_watch id user_id now db =
    (ok (count (is_owned id user_id) db.watches.rows), delete_watches (is_owned id user_id) db)

unfoldable pub get_watch : ℕ → ℕ → Query Watch
get_watch id user_id now db = (one (find? (is_owned id user_id) db.watches.rows), db)

-- `w.*` and three columns of the owner.
pub record ListActiveWatchesForEventRow : Type 0 where
  pub watch : Watch
  pub open watch use *
  pub user_email : String
  pub email_verified_at : Option Instant
  pub unsubscribed_at : Option Instant

abbrev pub joined_row : Watch → User → ListActiveWatchesForEventRow
joined_row w u = record {
  watch = w;
  user_email = u.email;
  email_verified_at = u.email_verified_at;
  unsubscribed_at = u.unsubscribed_at;
}

-- `JOIN users u ON u.id = w.user_id`, watch by watch.
unfoldable pub join_users : List User → List Watch → List ListActiveWatchesForEventRow
join_users users [] = []
join_users users (w ∷ ws) =
    map (joined_row w) (select (λ (u : User). u.id == w.user_id) users) ++ join_users users ws

unfoldable pub list_active_watches_for_event : ℕ → Query (List ListActiveWatchesForEventRow)
unfolding join_users
list_active_watches_for_event event_id now db =
    (ok (join_users db.users.rows (select (is_active_on event_id) db.watches.rows)), db)

unfoldable pub mark_notified : ℕ → Query (Unit {0})
mark_notified id now db = (
  ok tt,
  set_watches (λ (w : Watch). w.id == id) (λ w. record w { last_notified_at = some now }) db,
)

-- The least of the intervals, starting from the first.
pub least_interval : ℤ → List Watch → ℤ
least_interval m [] = m
least_interval m (w ∷ ws) =
    least_interval (if ltb_ℤ w.poll_interval_s m then w.poll_interval_s else m) ws

-- COALESCE(MIN(poll_interval_s), 300)
pub min_interval : List Watch → ℤ
unfolding least_interval
min_interval [] = pos 300
min_interval (w ∷ ws) = least_interval w.poll_interval_s ws

unfoldable pub min_poll_interval_for_event : ℕ → Query ℤ
unfolding min_interval
min_poll_interval_for_event event_id now db =
    (ok (min_interval (select (is_active_on event_id) db.watches.rows)), db)

unfoldable pub set_last_evaluation : ℕ → Bool → Query (Unit {0})
set_last_evaluation id value now db =
    (ok tt, set_watches (λ (w : Watch). w.id == id) (λ w. record w { last_evaluation = value }) db)

-- COALESCE($1, status)
abbrev pub coalesce : Option String → String → String
coalesce none s = s
coalesce (some s') s = s'

unfoldable pub update_watch : Option String → ℕ → ℕ → Query Watch
update_watch status id user_id now db =
    let f = λ (w : Watch). record w { status = coalesce status w.status } in
    (
      one (find? (is_owned id user_id) (update_where (is_owned id user_id) f db.watches.rows)),
      set_watches (is_owned id user_id) f db,
    )

-- `w.*` and the columns of the event that the list shows.
pub record ListWatchesWithEventRow : Type 0 where
  pub watch : Watch
  pub event : Event

pub join_events : List Event → List Watch → List ListWatchesWithEventRow
join_events events [] = []
join_events events (w ∷ ws) =
    map (λ (e : Event). record { watch = w; event = e })
      (select (λ (e : Event). e.id == w.event_id) events)
    ++ join_events events ws

unfoldable pub list_watches_with_event : ℕ → Query (List ListWatchesWithEventRow)
unfolding join_events sort_by
list_watches_with_event user_id now db = (
  ok (
      sort_by (λ (a b : ListWatchesWithEventRow). leb b.watch.created_at a.watch.created_at)
        (join_events db.events.rows
          (select (λ (w : Watch). w.user_id == user_id) db.watches.rows))),
  db,
)
