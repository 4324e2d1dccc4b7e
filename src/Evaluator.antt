-- ===== src/Evaluator.antt =====
-- internal/evaluator/evaluator.go: which sale milestones an event has reached, from one
-- observation and the state carried from earlier polls. `Kind` is the Go type of that name, with
-- its persisted texts in `kind_text`; a nil pointer to a time is `none`.
pub mod Spec
pub mod Edges
mod Tests
use ticket_watcher.Prelude.{
  Bool, true, false, not, ◌&&◌, ◌||◌, Option, none, some, List, [], ◌∷◌, ◌++◌, String, str_eq,
  if◌then◌else◌,
}
use ticket_watcher.Prelude.Instant.{Instant, after, before, is_zero}

pub data Kind : Type 0 where
  cancelled rescheduled onsale_announced presale_open public_open status_onsale sale_closed : Kind

-- `string(kind)`, which watch_alerts.kind stores.
abbrev pub kind_text : Kind → String
kind_text cancelled = "cancelled"
kind_text rescheduled = "rescheduled"
kind_text onsale_announced = "onsale_announced"
kind_text presale_open = "presale_open"
kind_text public_open = "public_open"
kind_text status_onsale = "status_onsale"
kind_text sale_closed = "sale_closed"

pub record Observation : Type 0 where
  pub now : Instant
  pub availability : String
  pub public_start : Option Instant
  pub public_end : Option Instant
  pub onsale_tbd : Bool
  pub earliest_presale : Option Instant
  pub event_date : Option Instant

pub record Prior : Type 0 where
  pub knew_public_start : Bool
  pub last_evaluation : Bool
  pub watch_created_at : Instant

pub record Result : Type 0 where
  pub kinds : List Kind
  pub status_onsale : Bool
  pub close_watch : Bool

-- `p.alreadyHappenedBeforeWatch(t)`
abbrev pub already_happened_before_watch : Prior → Option Instant → Bool
already_happened_before_watch p none = false
already_happened_before_watch p (some t) =
    if is_zero p.watch_created_at then false else not (after t p.watch_created_at)

-- `t != nil && t.Before(now)`
abbrev pub has_passed : Option Instant → Instant → Bool
has_passed none now = false
has_passed (some t) now = before t now

-- `t != nil && !t.After(now)`
abbrev pub has_come : Option Instant → Instant → Bool
has_come none now = false
has_come (some t) now = not (after t now)

-- `t != nil && t.After(now)`
abbrev pub is_ahead : Option Instant → Instant → Bool
is_ahead none now = false
is_ahead (some t) now = after t now

abbrev pub is_nil : Option Instant → Bool
is_nil none = true
is_nil (some t) = false

-- `res.Kinds = append(res.Kinds, k)` under a test.
abbrev pub append_if : Bool → Kind → List Kind → List Kind
append_if b k kinds = if b then kinds ++ (k ∷ []) else kinds

-- The triggers below the two vetoes on status, from "the onsale date just got announced".
pub sale_kinds : Observation → Prior → List Kind
sale_kinds o p =
    let onsale = str_eq o.availability "onsale" in
    let announced =
      append_if (not p.knew_public_start && is_ahead o.public_start o.now) onsale_announced [] in
    let with_presale =
      append_if
        (has_come o.earliest_presale o.now
          && not (already_happened_before_watch p o.earliest_presale))
        presale_open announced in
    let with_public =
      append_if
        (has_come o.public_start o.now
          && onsale
          && not (already_happened_before_watch p o.public_start))
        public_open with_presale in
    if has_passed o.public_end o.now
    then announced ++ (sale_closed ∷ [])
    else append_if (is_nil o.public_start && onsale && not p.last_evaluation) status_onsale
        with_public

unfoldable pub evaluate : Observation → Prior → Result
unfolding sale_kinds
evaluate o p =
    let onsale = str_eq o.availability "onsale" in
    if has_passed o.event_date o.now
    then record { kinds = []; status_onsale = onsale; close_watch = true }
    else if str_eq o.availability "cancelled"
    then record { kinds = cancelled ∷ []; status_onsale = onsale; close_watch = true }
    else if str_eq o.availability "postponed" || str_eq o.availability "rescheduled"
    then record { kinds = rescheduled ∷ []; status_onsale = onsale; close_watch = false }
    else record { kinds = sale_kinds o p; status_onsale = onsale; close_watch = false }
