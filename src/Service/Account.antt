-- ===== src/Service/Account.antt =====
-- internal/service/account.go: the opt-out, and the erasure of an account.
pub mod OptOut
mod Tests
use ticket_watcher.Prelude.{ℕ, ◌==◌, String, ◌<>◌, if◌then◌else◌}
use ticket_watcher.Prelude.Outcome.{ok, err}
use ticket_watcher.Store.Query.{DbError}
use ticket_watcher.Store.Users.{set_unsubscribed, set_resubscribed, delete_user}
use ticket_watcher.World.{Action, pure, throw, ◌>>=◌, wrap, query}
use ticket_watcher.Auth.Unsubscribe.{Signer, new_unsubscribe_token, parse_unsubscribe_token}

pub data AccountError : Type 0 where
  account_not_found invalid_link : AccountError
  store_failed : DbError → AccountError

-- UnsubscribeURL
abbrev pub unsubscribe_url : Signer → String → String → ℕ → String
unsubscribe_url g secret base_url user_id =
    base_url <> "/api/unsubscribe?token=" <> new_unsubscribe_token g secret user_id

-- Unsubscribe
unfoldable pub unsubscribe : Signer → String → String → Action AccountError (Unit {0})
unsubscribe g secret token = elim (parse_unsubscribe_token g secret token) [
  | err e ↦ throw invalid_link
  | ok user_id ↦ wrap store_failed (query (set_unsubscribed user_id))
]

-- Resubscribe
unfoldable pub resubscribe : ℕ → Action AccountError (Unit {0})
resubscribe user_id = wrap store_failed (query (set_resubscribed user_id))

-- Delete
unfoldable pub delete_account : ℕ → Action AccountError (Unit {0})
delete_account user_id = do
  n ← wrap store_failed (query (delete_user user_id))
  if n == 0 then throw account_not_found else pure tt
