-- ===== src/Store/Users.antt =====
-- internal/store/db/queries.sql.go, the statements on users, auth_tokens and notifications.
use ticket_watcher.Prelude.{
  ℕ, Bool, true, false, not, ◌&&◌, Option, none, some, List, String, str_eq, ◌==◌, leb, ltb, select,
  find?, any, take, count, update_where, if◌then◌else◌,
}
use ticket_watcher.Prelude.Sort.{sort_by}
use ticket_watcher.Prelude.Instant.{Instant}
use ticket_watcher.Prelude.Outcome.{ok, err}
use ticket_watcher.Store.Models.{User, Watch, AuthToken, Notification, Payload, Db}
use ticket_watcher.Store.Query.{Query, failed, unique_violation, one, insert_row, with_rows}
use ticket_watcher.Store.Watches.{has_watch, delete_watches}

abbrev pub has_user : ℕ → Db → Bool
has_user id db = any (λ (u : User). u.id == id) db.users.rows

abbrev pub set_users : (User → Bool) → (User → User) → Db → Db
set_users p f db = record db { users = with_rows (update_where p f db.users.rows) db.users }

unfoldable pub get_user_by_email : String → Query User
get_user_by_email email now db =
    (one (find? (λ (u : User). str_eq u.email email) db.users.rows), db)

unfoldable pub get_user_by_id : ℕ → Query User
get_user_by_id id now db = (one (find? (λ (u : User). u.id == id) db.users.rows), db)

abbrev pub new_user : String → String → ℕ → Instant → User
new_user email password_hash id now = record {
  id = id;
  email = email;
  created_at = now;
  password_hash = password_hash;
  email_verified_at = none;
  unsubscribed_at = none;
}

-- `email` is UNIQUE.
unfoldable pub create_user : String → String → Query User
create_user email password_hash now db =
    if any (λ (u : User). str_eq u.email email) db.users.rows then (err unique_violation, db) else (
      ok (new_user email password_hash db.users.next now),
      record db { users = insert_row (new_user email password_hash db.users.next now) db.users },
    )

unfoldable pub mark_email_verified : ℕ → Query (Unit {0})
mark_email_verified id now db = (
  ok tt,
  set_users (λ (u : User). u.id == id) (λ u. record u { email_verified_at = some now }) db,
)

unfoldable pub update_user_password : ℕ → String → Query (Unit {0})
update_user_password id password_hash now db = (
  ok tt,
  set_users (λ (u : User). u.id == id) (λ u. record u { password_hash = password_hash }) db,
)

unfoldable pub set_unsubscribed : ℕ → Query (Unit {0})
set_unsubscribed id now db =
    (ok tt, set_users (λ (u : User). u.id == id) (λ u. record u { unsubscribed_at = some now }) db)

unfoldable pub set_resubscribed : ℕ → Query (Unit {0})
set_resubscribed id now db =
    (ok tt, set_users (λ (u : User). u.id == id) (λ u. record u { unsubscribed_at = none }) db)

-- The user's watches and tokens cascade, and with the watches their alerts and notifications.
unfoldable pub delete_user : ℕ → Query ℕ
delete_user id now db =
    let db' = delete_watches (λ (w : Watch). w.user_id == id) db in
    (
      ok (count (λ (u : User). u.id == id) db.users.rows),
      record db' {
        users = with_rows (select (λ (u : User). not (u.id == id)) db.users.rows) db.users;
        auth_tokens =
            with_rows (select (λ (t : AuthToken). not (t.user_id == id)) db.auth_tokens.rows)
              db.auth_tokens;
      },
    )

pub record CreateAuthTokenParams : Type 0 where
  pub user_id : ℕ
  pub token_hash : String
  pub purpose : String
  pub expires_at : Instant

abbrev pub new_auth_token : CreateAuthTokenParams → ℕ → Instant → AuthToken
new_auth_token p id now = record {
  id = id;
  user_id = p.user_id;
  token_hash = p.token_hash;
  purpose = p.purpose;
  expires_at = p.expires_at;
  used_at = none;
  created_at = now;
}

-- The foreign key on users, UNIQUE (token_hash), and the CHECK on the purpose.
unfoldable pub create_auth_token : CreateAuthTokenParams → Query AuthToken
create_auth_token p now db =
    let t = db.auth_tokens in
    if any (λ (a : AuthToken). str_eq a.token_hash p.token_hash) t.rows
    then (err unique_violation, db)
    else if has_user p.user_id db
        && (if str_eq p.purpose "verify_email" then true else str_eq p.purpose "password_reset")
    then (
      ok (new_auth_token p t.next now),
      record db { auth_tokens = insert_row (new_auth_token p t.next now) t },
    )
    else (err failed, db)

abbrev pub is_none : Option Instant → Bool
is_none none = true
is_none (some t) = false

-- Unused and unexpired, with this hash and purpose.
abbrev pub is_valid_token : String → String → Instant → AuthToken → Bool
is_valid_token token_hash purpose now t =
    str_eq t.token_hash token_hash
    && str_eq t.purpose purpose
    && is_none t.used_at
    && ltb now t.expires_at

unfoldable pub get_valid_auth_token : String → String → Query AuthToken
get_valid_auth_token token_hash purpose now db =
    (one (find? (is_valid_token token_hash purpose now) db.auth_tokens.rows), db)

unfoldable pub mark_auth_token_used : ℕ → Query (Unit {0})
mark_auth_token_used id now db = (
  ok tt,
  record db {
    auth_tokens =
        with_rows
          (update_where (λ (t : AuthToken). t.id == id) (λ t. record t { used_at = some now })
            db.auth_tokens.rows)
          db.auth_tokens;
  },
)

unfoldable pub delete_auth_tokens_for_user : ℕ → String → Query (Unit {0})
delete_auth_tokens_for_user user_id purpose now db = (
  ok tt,
  record db {
    auth_tokens =
        with_rows
          (select (λ (t : AuthToken). not (t.user_id == user_id && str_eq t.purpose purpose))
            db.auth_tokens.rows)
          db.auth_tokens;
  },
)

abbrev pub new_notification : ℕ → String → Payload → ℕ → Instant → Notification
new_notification watch_id channel payload id now = record {
  id = id;
  watch_id = watch_id;
  channel = channel;
  sent_at = now;
  payload = payload;
}

-- The foreign key on watches must hold.
unfoldable pub insert_notification : ℕ → String → Payload → Query Notification
insert_notification watch_id channel payload now db =
    let t = db.notifications in
    if has_watch watch_id db
    then (
      ok (new_notification watch_id channel payload t.next now),
      record db {
        notifications = insert_row (new_notification watch_id channel payload t.next now) t;
      },
    )
    else (err failed, db)

-- `JOIN watches w ON w.id = n.watch_id WHERE w.user_id = $1`
abbrev pub is_for_user : ℕ → List Watch → Notification → Bool
is_for_user user_id watches n =
    any (λ (w : Watch). w.id == n.watch_id && w.user_id == user_id) watches

unfoldable pub list_notifications_for_user : ℕ → ℕ → Query (List Notification)
unfolding sort_by
list_notifications_for_user user_id limit now db = (
  ok (
      take limit (
        sort_by (λ (a b : Notification). leb b.sent_at a.sent_at)
          (select (is_for_user user_id db.watches.rows) db.notifications.rows))),
  db,
)
