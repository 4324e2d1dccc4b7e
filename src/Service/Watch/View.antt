-- ===== src/Service/Watch/View.antt =====
-- internal/service/watch.go: the view of a watch, with the one label for the state of its sale. The
-- columns that the view copies from the event are the event itself.
use ticket_watcher.Prelude.{
  Bool, true, false, not, ◌||◌, Option, none, some, String, str_eq, if◌then◌else◌,
}
use ticket_watcher.Prelude.Instant.{Instant, after, before}
use ticket_watcher.Store.Models.{Event, Watch}

-- `str`
abbrev pub str : Option String → String
str none = ""
str (some s) = s

-- `t != nil && t.Before(now)`
abbrev pub is_before : Option Instant → Instant → Bool
is_before none now = false
is_before (some t) now = before t now

-- `t != nil && !t.After(now)`
abbrev pub has_begun : Option Instant → Instant → Bool
has_begun none now = false
has_begun (some t) now = not (after t now)

abbrev pub is_known : Option Instant → Bool
is_known none = false
is_known (some t) = true

unfoldable pub derive_sale_state :
    Bool
    → Option String
    → Option Instant
    → Option Instant
    → Option Instant
    → Bool
    → Instant
    → String
derive_sale_state polled availability public_start public_end presale onsale_tbd now =
    let status = str availability in
    if not polled
    then "checking"
    else if str_eq status "cancelled"
    then "cancelled"
    else if str_eq status "postponed" || str_eq status "rescheduled"
    then "rescheduled"
    else if is_before public_end now
    then "sale_closed"
    else if str_eq status "onsale"
    then "on_sale"
    else if has_begun presale now
    then "presale_open"
    else if is_known public_start
    then "onsale_scheduled"
    else if onsale_tbd
    then "onsale_tbd"
    else "unknown"

pub record WatchView : Type 0 where
  pub watch : Watch
  pub event : Event
  pub sale_state : String

unfoldable pub watch_view : Instant → Watch → Event → WatchView
unfolding derive_sale_state
watch_view now w ev = record {
  watch = w;
  event = ev;
  sale_state =
      derive_sale_state (is_known ev.last_polled_at) ev.last_availability ev.public_onsale_at
        ev.public_onsale_end_at ev.earliest_presale_at ev.onsale_tbd now;
}
