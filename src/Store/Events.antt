-- ===== src/Store/Events.antt =====
-- internal/store/db/queries.sql.go, the statements on events and their snapshots.
use ticket_watcher.Prelude.{
  ℕ, Bool, ◌&&◌, Option, none, some, List, String, str_eq, ◌==◌, leb, select, find?, any, take,
  update_where, if◌then◌else◌,
}
use ticket_watcher.Prelude.Sort.{sort_by}
use ticket_watcher.Prelude.Instant.{Instant}
use ticket_watcher.Prelude.Outcome.{ok, err}
use ticket_watcher.Store.Models.{Event, Watch, AvailabilitySnapshot, Db}
use ticket_watcher.Store.Query.{Query, failed, one, insert_row, with_rows}
use ticket_watcher.Store.Watches.{is_active_on}

abbrev pub has_event : ℕ → Db → Bool
has_event id db = any (λ (e : Event). e.id == id) db.events.rows

abbrev pub set_events : (Event → Bool) → (Event → Event) → Db → Db
set_events p f db = record db { events = with_rows (update_where p f db.events.rows) db.events }

unfoldable pub get_event : ℕ → Query Event
get_event id now db = (one (find? (λ (e : Event). e.id == id) db.events.rows), db)

unfoldable pub get_event_by_tmid : String → Query Event
get_event_by_tmid tm_event_id now db =
    (one (find? (λ (e : Event). str_eq e.tm_event_id tm_event_id) db.events.rows), db)

pub record UpsertEventByTmidParams : Type 0 where
  pub tm_event_id : String
  pub name : String
  pub url : String
  pub venue : String
  pub event_date : Option Instant
  pub last_availability : Option String
  pub public_onsale_at : Option Instant
  pub public_onsale_end_at : Option Instant
  pub earliest_presale_at : Option Instant
  pub earliest_presale_name : Option String
  pub presale_count : ℕ
  pub onsale_tbd : Bool

-- The row of a first insert: next_poll_at and created_at take the columns' default, now().
abbrev pub new_event : UpsertEventByTmidParams → ℕ → Instant → Event
new_event p id now = record {
  id = id;
  tm_event_id = p.tm_event_id;
  name = p.name;
  url = p.url;
  venue = p.venue;
  event_date = p.event_date;
  last_availability = p.last_availability;
  last_polled_at = some now;
  next_poll_at = now;
  created_at = now;
  public_onsale_at = p.public_onsale_at;
  public_onsale_end_at = p.public_onsale_end_at;
  earliest_presale_at = p.earliest_presale_at;
  earliest_presale_name = p.earliest_presale_name;
  presale_count = p.presale_count;
  onsale_tbd = p.onsale_tbd;
}

-- DO UPDATE SET: all but id, tm_event_id, next_poll_at and created_at.
abbrev pub overwrite_event : UpsertEventByTmidParams → Instant → Event → Event
overwrite_event p now e = record e {
  name = p.name;
  url = p.url;
  venue = p.venue;
  event_date = p.event_date;
  last_availability = p.last_availability;
  last_polled_at = some now;
  public_onsale_at = p.public_onsale_at;
  public_onsale_end_at = p.public_onsale_end_at;
  earliest_presale_at = p.earliest_presale_at;
  earliest_presale_name = p.earliest_presale_name;
  presale_count = p.presale_count;
  onsale_tbd = p.onsale_tbd;
}

unfoldable pub upsert_event_by_tmid : UpsertEventByTmidParams → Query Event
upsert_event_by_tmid p now db =
    let same = λ (e : Event). str_eq e.tm_event_id p.tm_event_id in
    elim (find? same db.events.rows) [
      | none ↦ (
        ok (new_event p db.events.next now),
        record db { events = insert_row (new_event p db.events.next now) db.events },
      )
      | some e ↦ (ok (overwrite_event p now e), set_events same (overwrite_event p now) db)
    ]

-- Due, and watched by somebody.
abbrev pub is_due : Instant → List Watch → Event → Bool
is_due now watches e = leb e.next_poll_at now && any (is_active_on e.id) watches

unfoldable pub list_due_events : ℕ → Query (List Event)
unfolding sort_by
list_due_events limit now db = (
  ok (
      take limit (
        sort_by (λ (a b : Event). leb a.next_poll_at b.next_poll_at)
          (select (is_due now db.watches.rows) db.events.rows))),
  db,
)

pub record UpdateEventLatestParams : Type 0 where
  pub id : ℕ
  pub last_availability : Option String
  pub public_onsale_at : Option Instant
  pub public_onsale_end_at : Option Instant
  pub earliest_presale_at : Option Instant
  pub earliest_presale_name : Option String
  pub presale_count : ℕ
  pub onsale_tbd : Bool
  pub next_poll_at : Instant

abbrev pub with_latest : UpdateEventLatestParams → Instant → Event → Event
with_latest p now e = record e {
  last_availability = p.last_availability;
  last_polled_at = some now;
  next_poll_at = p.next_poll_at;
  public_onsale_at = p.public_onsale_at;
  public_onsale_end_at = p.public_onsale_end_at;
  earliest_presale_at = p.earliest_presale_at;
  earliest_presale_name = p.earliest_presale_name;
  presale_count = p.presale_count;
  onsale_tbd = p.onsale_tbd;
}

unfoldable pub update_event_latest : UpdateEventLatestParams → Query (Unit {0})
update_event_latest p now db =
    (ok tt, set_events (λ (e : Event). e.id == p.id) (with_latest p now) db)

unfoldable pub mark_event_due : ℕ → Query (Unit {0})
mark_event_due id now db =
    (ok tt, set_events (λ (e : Event). e.id == id) (λ e. record e { next_poll_at = now }) db)

abbrev pub new_snapshot : ℕ → Option String → ℕ → Instant → AvailabilitySnapshot
new_snapshot event_id status id now = record {
  id = id;
  event_id = event_id;
  availability_status = status;
  checked_at = now;
}

-- The foreign key on events must hold.
unfoldable pub insert_availability_snapshot : ℕ → Option String → Query AvailabilitySnapshot
insert_availability_snapshot event_id status now db =
    let t = db.availability_snapshots in
    if has_event event_id db
    then (
      ok (new_snapshot event_id status t.next now),
      record db { availability_snapshots = insert_row (new_snapshot event_id status t.next now) t },
    )
    else (err failed, db)

unfoldable pub list_snapshots_for_event : ℕ → Query (List AvailabilitySnapshot)
unfolding sort_by
list_snapshots_for_event event_id now db = (
  ok (
      sort_by (λ (a b : AvailabilitySnapshot). leb a.checked_at b.checked_at)
        (select (λ (s : AvailabilitySnapshot). s.event_id == event_id)
          db.availability_snapshots.rows)),
  db,
)
