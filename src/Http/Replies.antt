-- ===== src/Http/Replies.antt =====
-- internal/httpapi/router.go: what a route answers, and the status of each error.
use ticket_watcher.Prelude.{ℕ, Option, none, List, String}
use ticket_watcher.Prelude.Instant.{Instant}
use ticket_watcher.Prelude.Outcome.{Outcome, ok, err}
use ticket_watcher.Ticketmaster.Types.{EventSnapshot}
use ticket_watcher.World.{World, Action}
use ticket_watcher.Service.Auth.{
  AuthError, email_taken, invalid_credentials, weak_password, invalid_email, invalid_token,
  already_verified, no_account, UserView,
}
use ticket_watcher.Service.Account.{AccountError, account_not_found}
use ticket_watcher.Service.Watch.{
  WatchError, invalid_condition, missing_event_id, watch_limit_reached, watch_not_found,
  invalid_status,
}
use ticket_watcher.Service.Watch.View.{WatchView}
use ticket_watcher.Service.Notifications.{NotificationView, SearchError, empty_query}

-- The JSON that is written, or what stands in its place.
pub data Body : Type 0 where
  empty : Body
  error token redirect : String → Body
  healthy unsubscribed_page unsubscribe_failed_page : Body
  account : UserView → Body
  watch : WatchView → Body
  watches : List WatchView → Body
  past : List (Option String × Instant) → Body
  notifications : List NotificationView → Body
  events : List EventSnapshot → Body

pub record Reply : Type 0 where
  pub status : ℕ
  pub body : Body
  -- The Retry-After header, in seconds.
  pub retry_after : Option ℕ

-- writeJSON, and a bare status
abbrev pub reply : ℕ → Body → Reply
reply status body = record { status = status; body = body; retry_after = none }

-- writeError
abbrev pub failure : ℕ → String → Reply
failure status msg = reply status (error msg)

abbrev pub no_content : Reply
no_content = reply 204 empty

-- handleAuthError
abbrev pub auth_failure : AuthError → Reply
auth_failure email_taken = failure 409 "email already registered"
auth_failure invalid_credentials = failure 401 "invalid email or password"
auth_failure weak_password = failure 400 "password must be at least 8 characters"
auth_failure invalid_email = failure 400 "a valid email is required"
auth_failure invalid_token = failure 400 "this link is invalid or has expired"
auth_failure already_verified = failure 400 "email is already verified"
auth_failure e = failure 500 "internal error"

-- The errors of meHandler.
abbrev pub me_failure : AuthError → Reply
me_failure no_account = failure 401 "this account no longer exists"
me_failure e = failure 500 "internal error"

-- The errors of deleteAccountHandler.
abbrev pub delete_failure : AccountError → Reply
delete_failure account_not_found = failure 404 "account not found"
delete_failure e = failure 500 "could not delete account"

-- The errors of searchHandler.
abbrev pub search_failure : SearchError → Reply
search_failure empty_query = failure 400 "query parameter 'q' is required"
search_failure e = failure 502 "upstream search failed"

-- The errors of createWatchHandler.
abbrev pub create_failure : WatchError → Reply
create_failure invalid_condition = failure 400 "condition_type must be 'becomes_available'"
create_failure missing_event_id = failure 400 "tm_event_id is required"
create_failure watch_limit_reached = failure 403 "watch limit reached"
create_failure e = failure 502 "could not create watch (event lookup failed?)"

-- handleWatchError
abbrev pub watch_failure : WatchError → Reply
watch_failure watch_not_found = failure 404 "watch not found"
watch_failure e = failure 500 "internal error"

-- The errors of updateWatchHandler.
abbrev pub update_failure : WatchError → Reply
update_failure invalid_status = failure 400 "status must be 'active' or 'paused'"
update_failure e = watch_failure e

abbrev pub reply_of : {E A : Type 0} → (A → Reply) → (E → Reply) → Outcome E A → Reply
reply_of f g (ok a) = f a
reply_of f g (err e) = g e

-- A handler that calls a service and writes what came of it.
unfoldable pub answer_with :
    {E A : Type 0} → (A → Reply) → (E → Reply) → Action E A → World → Reply × World
answer_with f g m w = let (r, w') = m w in (reply_of f g r, w')
