-- ===== src/Http/Handlers.antt =====
-- internal/httpapi/router.go: the handlers. A request's JSON body and its numbers are decoded by Go,
-- so a route carries what was decoded, or `none` where decoding failed.
use ticket_watcher.Prelude.{ℕ, Bool, true, false, Option, none, some, List, String, str_eq}
use ticket_watcher.Prelude.Int.{ℤ, int32}
use ticket_watcher.Prelude.Outcome.{Outcome}
use ticket_watcher.Ticketmaster.Types.{EventSnapshot}
use ticket_watcher.World.{World, Action}
use ticket_watcher.Auth.Unsubscribe.{Signer}
use ticket_watcher.Service.Auth.{
  AuthService, register, login, me, resend_verification, verify_email, request_password_reset,
  reset_password,
}
use ticket_watcher.Service.Account.{unsubscribe, resubscribe, delete_account}
use ticket_watcher.Service.Watch.{CreateWatchInput, create, list, history, update, delete}
use ticket_watcher.Service.Notifications.{list_notifications, search_for}
use ticket_watcher.Http.Replies.{
  Reply, reply, failure, no_content, answer_with, auth_failure, me_failure, delete_failure,
  search_failure, create_failure, watch_failure, update_failure, empty, token, redirect, healthy,
  unsubscribed_page, unsubscribe_failed_page, account, watch, watches, past, notifications, events,
}

-- The public routes under the rate limit.
pub data Throttled : Type 0 where
  post_register post_login post_reset : Option (String × String) → Throttled
  post_forgot : Option String → Throttled
  get_verify : String → Throttled

-- The public routes without it.
pub data Open : Type 0 where
  get_healthz : Open
  get_unsubscribe post_unsubscribe : String → Open

-- The routes that need a token. A watch's id is `none` where the path has no number.
pub data Private : Type 0 where
  get_me post_resend get_watches post_resubscribe delete_my_account : Private
  get_search : String → String → Private
  post_watch : Option CreateWatchInput → Private
  get_history delete_one : Option ℕ → Private
  patch_watch : Option ℕ → Option (Option String) → Private
  -- The query's `limit`, and 50 where it is no number.
  get_notifications : ℤ → Private

-- What the handlers call, and, of the client, its answers to `Search` and `GetEvent`.
pub record Services : Type 0 where
  pub auth : AuthService
  pub signer : Signer
  pub max_per_user : ℤ
  pub search : String → Bool → Action String (List EventSnapshot)
  pub fetch : String → Outcome String EventSnapshot

abbrev pub Handler : Type 0
Handler = World → Reply × World

abbrev pub reply_with : Reply → Handler
reply_with r w = (r, w)

abbrev pub bad_json : Handler
bad_json = reply_with (failure 400 "invalid JSON body")

abbrev pub bad_id : Handler
bad_id = reply_with (failure 400 "invalid watch id")

module _ (s : Services) where
  abbrev pub register_handler : Option (String × String) → Handler
  register_handler none = bad_json
  register_handler (some (email, password)) =
      answer_with (λ t. reply 201 (token t)) auth_failure (register s.auth email password)

  abbrev pub login_handler : Option (String × String) → Handler
  login_handler none = bad_json
  login_handler (some (email, password)) =
      answer_with (λ t. reply 200 (token t)) auth_failure (login s.auth email password)

  abbrev pub me_handler : ℕ → Handler
  me_handler user = answer_with (λ v. reply 200 (account v)) me_failure (me s.auth user)

  abbrev pub verify_email_handler : String → Handler
  verify_email_handler raw =
      answer_with (λ _. reply 303 (redirect "/?verified=1"))
        (λ _. reply 303 (redirect "/?verify_error=1")) (verify_email s.auth raw)

  abbrev pub resend_verification_handler : ℕ → Handler
  resend_verification_handler user =
      answer_with (λ _. no_content) auth_failure (resend_verification s.auth user)

  abbrev pub forgot_password_handler : Option String → Handler
  forgot_password_handler none = bad_json
  forgot_password_handler (some email) =
      answer_with (λ _. no_content) (λ _. no_content) (request_password_reset s.auth email)

  abbrev pub reset_password_handler : Option (String × String) → Handler
  reset_password_handler none = bad_json
  reset_password_handler (some (raw, password)) =
      answer_with (λ _. no_content) auth_failure (reset_password s.auth raw password)

  -- unsubscribeHandler, for a reader and for a mail program
  abbrev pub unsubscribe_handler : Bool → String → Handler
  unsubscribe_handler false link =
      answer_with (λ _. reply 200 unsubscribed_page) (λ _. reply 400 unsubscribe_failed_page)
        (unsubscribe s.signer s.auth.secret link)
  unsubscribe_handler true link =
      answer_with (λ _. reply 200 empty) (λ _. failure 400 "invalid unsubscribe link")
        (unsubscribe s.signer s.auth.secret link)

  abbrev pub resubscribe_handler : ℕ → Handler
  resubscribe_handler user =
      answer_with (λ _. no_content) (λ _. failure 500 "could not re-enable alerts")
        (resubscribe user)

  abbrev pub delete_account_handler : ℕ → Handler
  delete_account_handler user = answer_with (λ _. no_content) delete_failure (delete_account user)

  abbrev pub search_handler : String → String → Handler
  search_handler q upcoming =
      answer_with (λ es. reply 200 (events es)) search_failure
        (search_for s.search q (str_eq upcoming "1"))

  abbrev pub create_watch_handler : ℕ → Option CreateWatchInput → Handler
  create_watch_handler user none = bad_json
  create_watch_handler user (some i) =
      answer_with (λ v. reply 201 (watch v)) create_failure (create s.max_per_user s.fetch user i)

  abbrev pub list_watches_handler : ℕ → Handler
  list_watches_handler user =
      answer_with (λ vs. reply 200 (watches vs)) (λ _. failure 500 "could not list watches")
        (list user)

  abbrev pub watch_history_handler : ℕ → Option ℕ → Handler
  watch_history_handler user none = bad_id
  watch_history_handler user (some id) =
      answer_with (λ h. reply 200 (past h)) watch_failure (history user id)

  abbrev pub update_watch_handler : ℕ → Option ℕ → Option (Option String) → Handler
  update_watch_handler user none status = bad_id
  update_watch_handler user (some id) none = bad_json
  update_watch_handler user (some id) (some status) =
      answer_with (λ v. reply 200 (watch v)) update_failure (update user id status)

  abbrev pub delete_watch_handler : ℕ → Option ℕ → Handler
  delete_watch_handler user none = bad_id
  delete_watch_handler user (some id) = answer_with (λ _. no_content) watch_failure (delete user id)

  -- `int32(limit)` drops the high bits.
  abbrev pub list_notifications_handler : ℕ → ℤ → Handler
  list_notifications_handler user limit =
      answer_with (λ ns. reply 200 (notifications ns))
        (λ _. failure 500 "could not list notifications") (list_notifications user (int32 limit))

  unfoldable pub handle_throttled : Throttled → Handler
  unfolding answer_with
  handle_throttled (post_register body) = register_handler body
  handle_throttled (post_login body) = login_handler body
  handle_throttled (post_reset body) = reset_password_handler body
  handle_throttled (post_forgot body) = forgot_password_handler body
  handle_throttled (get_verify raw) = verify_email_handler raw

  unfoldable pub handle_open : Open → Handler
  unfolding answer_with
  handle_open get_healthz = reply_with (reply 200 healthy)
  handle_open (get_unsubscribe link) = unsubscribe_handler false link
  handle_open (post_unsubscribe link) = unsubscribe_handler true link

  -- The handlers behind the token, for its user.
  unfoldable pub handle_private : ℕ → Private → Handler
  unfolding answer_with
  handle_private user get_me = me_handler user
  handle_private user post_resend = resend_verification_handler user
  handle_private user (get_search q upcoming) = search_handler q upcoming
  handle_private user (post_watch body) = create_watch_handler user body
  handle_private user get_watches = list_watches_handler user
  handle_private user (get_history id) = watch_history_handler user id
  handle_private user (patch_watch id body) = update_watch_handler user id body
  handle_private user (delete_one id) = delete_watch_handler user id
  handle_private user (get_notifications limit) = list_notifications_handler user limit
  handle_private user post_resubscribe = resubscribe_handler user
  handle_private user delete_my_account = delete_account_handler user
