-- ===== src/Store/Models.antt =====
-- internal/store/db/models.go: the rows, and the database that holds them. A nullable column is an
-- `Option`; a NOT NULL timestamp is an instant. Each table numbers its rows by its own sequence
-- (BIGSERIAL), so an id is never given twice; the gaps that failed inserts leave are not modelled.
use ticket_watcher.Prelude.{ℕ, Bool, Option, String, List}
use ticket_watcher.Prelude.Int.{ℤ}
use ticket_watcher.Prelude.Instant.{Instant}

pub record User : Type 0 where
  pub id : ℕ
  pub email : String
  pub created_at : Instant
  pub password_hash : String
  pub email_verified_at : Option Instant
  pub unsubscribed_at : Option Instant

pub record Event : Type 0 where
  pub id : ℕ
  pub tm_event_id : String
  pub name : String
  pub url : String
  pub venue : String
  pub event_date : Option Instant
  pub last_availability : Option String
  pub last_polled_at : Option Instant
  pub next_poll_at : Instant
  pub created_at : Instant
  pub public_onsale_at : Option Instant
  pub public_onsale_end_at : Option Instant
  pub earliest_presale_at : Option Instant
  pub earliest_presale_name : Option String
  pub presale_count : ℕ
  pub onsale_tbd : Bool

pub record Watch : Type 0 where
  pub id : ℕ
  pub user_id : ℕ
  pub event_id : ℕ
  pub condition_type : String
  pub status : String
  pub last_evaluation : Bool
  pub last_notified_at : Option Instant
  pub poll_interval_s : ℤ
  pub created_at : Instant

pub record WatchAlert : Type 0 where
  pub watch_id : ℕ
  pub kind : String
  pub fired_at : Instant

pub record AvailabilitySnapshot : Type 0 where
  pub id : ℕ
  pub event_id : ℕ
  pub availability_status : Option String
  pub checked_at : Instant

-- The JSON object that the notifier stores: its four members.
pub record Payload : Type 0 where
  pub subject : String
  pub event : String
  pub kind : String
  pub availability : String

pub record Notification : Type 0 where
  pub id : ℕ
  pub watch_id : ℕ
  pub channel : String
  pub sent_at : Instant
  pub payload : Payload

pub record AuthToken : Type 0 where
  pub id : ℕ
  pub user_id : ℕ
  pub token_hash : String
  pub purpose : String
  pub expires_at : Instant
  pub used_at : Option Instant
  pub created_at : Instant

-- A table with the next id of its sequence.
pub record Table (A : Type 0) : Type 0 where
  pub rows : List A
  pub next : ℕ

pub record Db : Type 0 where
  pub users : Table User
  pub events : Table Event
  pub watches : Table Watch
  pub watch_alerts : List WatchAlert
  pub availability_snapshots : Table AvailabilitySnapshot
  pub notifications : Table Notification
  pub auth_tokens : Table AuthToken
