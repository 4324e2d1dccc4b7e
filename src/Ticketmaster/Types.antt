-- ===== src/Ticketmaster/Types.antt =====
-- internal/ticketmaster/types.go: the normalised event, and the fields of the API's answer that the
-- client reads.
use ticket_watcher.Prelude.{ℕ, Bool, Option, List, String}
use ticket_watcher.Prelude.Instant.{Instant}

pub record EventSnapshot : Type 0 where
  pub tm_event_id : String
  pub name : String
  pub url : String
  pub venue : String
  pub event_date : Option Instant
  pub availability : String
  pub public_onsale_start : Option Instant
  pub public_onsale_end : Option Instant
  pub onsale_tbd : Bool
  pub earliest_presale_start : Option Instant
  pub earliest_presale_name : String
  pub presale_count : ℕ

-- The wire types. `EndDateTime` of a presale and `LocalDate` are read by no code, and left out.
pub record TmPublicSale : Type 0 where
  pub start_date_time : String
  pub end_date_time : String
  pub start_tbd : Bool
  pub start_tba : Bool

pub record TmPresale : Type 0 where
  pub start_date_time : String
  pub name : String

-- tmEvent, with its nested objects' fields in place.
pub record TmEvent : Type 0 where
  pub id : String
  pub name : String
  pub url : String
  pub start_date_time : String
  pub status_code : String
  pub public : TmPublicSale
  pub presales : List TmPresale
  -- The venues' names.
  pub venues : List String
