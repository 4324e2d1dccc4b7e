-- ===== src/Service/Notifications.antt =====
-- internal/service/notification.go and search.go: a user's log of alerts, and the search for events.
use ticket_watcher.Prelude.{ℕ, Bool, ◌||◌, List, map, String, str_eq, if◌then◌else◌}
use ticket_watcher.Prelude.Int.{ℤ, pos, pos_part, leb_ℤ, ltb_ℤ}
use ticket_watcher.Prelude.Instant.{Instant}
use ticket_watcher.Store.Models.{Notification, Payload}
use ticket_watcher.Store.Query.{DbError}
use ticket_watcher.Store.Users.{list_notifications_for_user}
use ticket_watcher.Ticketmaster.Types.{EventSnapshot}
use ticket_watcher.World.{Action, pure, throw, ◌>>=◌, wrap, query}

pub record NotificationView : Type 0 where
  pub id : ℕ
  pub watch_id : ℕ
  pub channel : String
  pub sent_at : Instant
  pub payload : Payload

abbrev pub notification_view : Notification → NotificationView
notification_view n = record {
  id = n.id;
  watch_id = n.watch_id;
  channel = n.channel;
  sent_at = n.sent_at;
  payload = n.payload;
}

-- At most 200 rows, and 50 unless the caller asks for less than that.
abbrev pub clamp_limit : ℤ → ℕ
clamp_limit limit = if leb_ℤ limit (pos 0) || ltb_ℤ (pos 200) limit then 50 else pos_part limit

-- NotificationService.List
unfoldable pub list_notifications : ℕ → ℤ → Action DbError (List NotificationView)
list_notifications user_id limit = do
  rows ← query (list_notifications_for_user user_id (clamp_limit limit))
  pure (map notification_view rows)

pub data SearchError : Type 0 where
  empty_query : SearchError
  upstream_failed : String → SearchError

-- SearchService.Search, over the client's
unfoldable pub search_for :
    (String → Bool → Action String (List EventSnapshot))
    → String
    → Bool
    → Action SearchError (List EventSnapshot)
search_for search q upcoming_only =
    if str_eq q "" then throw empty_query else wrap upstream_failed (search q upcoming_only)
