-- ===== src/Service/Auth.antt =====
-- internal/service/auth.go: accounts, passwords and the emailed links.
pub mod Links
pub mod Login
pub mod Backend
pub mod Emails
pub mod Once
use ticket_watcher.Prelude.{
  ℕ, ◌+◌, ◌*◌, ltb, Bool, true, false, not, ◌||◌, ◌==◌, Option, none, some, String, ◌<>◌, str_eq,
  if◌then◌else◌,
}
use ticket_watcher.Prelude.Instant.{Instant, second}
use ticket_watcher.Prelude.Outcome.{Outcome, ok, err, map_err}
use ticket_watcher.Store.Models.{User, AuthToken}
use ticket_watcher.Store.Query.{DbError, no_rows, unique_violation}
use ticket_watcher.Store.Users.{
  get_user_by_email, get_user_by_id, create_user, mark_email_verified, update_user_password,
  get_valid_auth_token, mark_auth_token_used, delete_auth_tokens_for_user, create_auth_token,
  CreateAuthTokenParams,
}
use ticket_watcher.World.{
  World, Message, Action, pure, throw, ◌>>=◌, ◌>>◌, wrap, attempt, time_now, query,
}
use ticket_watcher.Notifier.AuthMail.{verification_message, password_reset_message}
use ticket_watcher.Auth.{Crypto, hash_token, new_opaque_token, new_token}
use Prim.Native.String.{[], ◌∷◌, len}
use Prim.Native.Char.{Char, code}

pub data AuthError : Type 0 where
  email_taken invalid_credentials weak_password invalid_email invalid_token already_verified
        no_account :
      AuthError
  store_failed clear_tokens_failed store_token_failed : DbError → AuthError
  crypto_failed mail_failed : String → AuthError

abbrev pub Call : Type 0 → Type 0
Call = Action AuthError

-- The service's fields but the store; and, of Go, `strings.ToLower`, `strings.TrimSpace` and
-- `url.QueryEscape`. `mail` is the mailer, or nil.
pub record AuthService : Type 0 where
  pub crypto : Crypto
  pub secret : String
  pub ttl : ℕ
  pub mail : Option (Message → Action String (Unit {0}))
  pub base_url : String
  pub to_lower : String → String
  pub trim_space : String → String
  pub query_escape : String → String

abbrev pub purpose_verify_email : String
purpose_verify_email = "verify_email"

abbrev pub purpose_password_reset : String
purpose_password_reset = "password_reset"

-- 24 hours, and one.
abbrev pub verify_token_ttl : ℕ
verify_token_ttl = 86_400 * second

abbrev pub reset_token_ttl : ℕ
reset_token_ttl = 3_600 * second

-- `strings.Contains(email, "@")`
abbrev pub has_at : String → Bool
has_at [] = false
has_at (c ∷ s) = code c == 64 || has_at s

-- `len(password) < 8`, in bytes.
abbrev pub is_weak : String → Bool
is_weak password = ltb (len password) 8

abbrev pub is_verified : User → Bool
is_verified u = elim u.email_verified_at [ none ↦ false | some t ↦ true ]

abbrev pub is_unsubscribed : User → Bool
is_unsubscribed u = elim u.unsubscribed_at [ none ↦ false | some t ↦ true ]

-- A missing row is one error, and any other failure the store's.
abbrev pub unless_missing : AuthError → DbError → AuthError
unless_missing missing no_rows = missing
unless_missing missing e = store_failed e

-- SQLSTATE 23505 is a taken address.
abbrev pub create_error : DbError → AuthError
create_error unique_violation = email_taken
create_error e = store_failed e

-- UserView
pub record UserView : Type 0 where
  pub id : ℕ
  pub email : String
  pub email_verified : Bool
  pub unsubscribed : Bool

abbrev pub user_view : User → UserView
user_view u = record {
  id = u.id;
  email = u.email;
  email_verified = is_verified u;
  unsubscribed = is_unsubscribed u;
}

module _ (s : AuthService) where
  -- normalizeEmail
  abbrev pub normalize_email : String → String
  normalize_email e = s.trim_space (s.to_lower e)

  -- send, with a mailer or without
  abbrev pub send_with : Option (Message → Action String (Unit {0})) → Message → Call (Unit {0})
  send_with none msg = pure tt
  send_with (some mail) msg = wrap mail_failed (mail msg)

  abbrev pub send : Message → Call (Unit {0})
  send msg = send_with s.mail msg

  abbrev pub token_params : ℕ → String → String → Instant → CreateAuthTokenParams
  token_params user_id purpose hash expires_at = record {
    user_id = user_id;
    token_hash = hash;
    purpose = purpose;
    expires_at = expires_at;
  }

  -- issueToken, once the token is made
  abbrev pub store_token : ℕ → String → ℕ → String × String → Call String
  store_token user_id purpose ttl (raw, hash) = do
    now ← time_now
    wrap store_token_failed
        (query (create_auth_token (token_params user_id purpose hash (now + ttl))))
    pure raw

  -- issueToken
  unfoldable pub issue_token : ℕ → String → ℕ → Call String
  issue_token user_id purpose ttl = do
    wrap clear_tokens_failed (query (delete_auth_tokens_for_user user_id purpose))
    token ← wrap crypto_failed (new_opaque_token s.crypto)
    store_token user_id purpose ttl token

  -- sendVerification
  unfoldable pub send_verification : ℕ → String → Call (Unit {0})
  unfolding issue_token
  send_verification user_id email = do
    raw ← issue_token user_id purpose_verify_email verify_token_ttl
    send
        (verification_message email (s.base_url <> "/api/auth/verify?token=" <> s.query_escape raw))

  -- Register, once its input is valid: the mail's error is logged.
  unfoldable pub register_valid : String → String → Call String
  unfolding send_verification
  register_valid email password = do
    hash ← wrap crypto_failed (s.crypto.hash_password password)
    u ← wrap create_error (query (create_user email hash))
    sent ← attempt (send_verification u.id u.email)
    wrap crypto_failed (new_token s.crypto s.secret u.id s.ttl)

  -- Register
  unfoldable pub register : String → String → Call String
  unfolding register_valid
  register email password =
      if not (has_at (normalize_email email))
      then throw invalid_email
      else if is_weak password
      then throw weak_password
      else register_valid (normalize_email email) password

  -- Login
  unfoldable pub login : String → String → Call String
  login email password = do
    u ←
        wrap (unless_missing invalid_credentials)
          (query (get_user_by_email (normalize_email email)))
    if not (s.crypto.check_password u.password_hash password)
        then throw invalid_credentials
        else wrap crypto_failed (new_token s.crypto s.secret u.id s.ttl)

  -- Me
  unfoldable pub me : ℕ → Call UserView
  me user_id = do
    u ← wrap (unless_missing no_account) (query (get_user_by_id user_id))
    pure (user_view u)

  -- ResendVerification
  unfoldable pub resend_verification : ℕ → Call (Unit {0})
  unfolding send_verification
  resend_verification user_id = do
    u ← wrap store_failed (query (get_user_by_id user_id))
    if is_verified u then throw already_verified else send_verification u.id u.email

  -- redeemToken
  unfoldable pub redeem_token : String → String → Call AuthToken
  redeem_token raw purpose =
      if str_eq raw ""
      then throw invalid_token
      else wrap (unless_missing invalid_token)
          (query (get_valid_auth_token (hash_token s.crypto raw) purpose))
        >>= λ tok. wrap store_failed (query (mark_auth_token_used tok.id)) >> pure tok

  -- VerifyEmail: the last error is dropped.
  unfoldable pub verify_email : String → Call (Unit {0})
  unfolding redeem_token
  verify_email raw = do
    tok ← redeem_token raw purpose_verify_email
    wrap store_failed (query (mark_email_verified tok.user_id))
    cleared ← attempt (query (delete_auth_tokens_for_user tok.user_id purpose_verify_email))
    pure tt

  -- RequestPasswordReset, once the account is found
  unfoldable pub send_reset : User → Call (Unit {0})
  unfolding issue_token
  send_reset u = do
    raw ← issue_token u.id purpose_password_reset reset_token_ttl
    send (
        password_reset_message u.email
          (s.base_url <> "/reset-password?token=" <> s.query_escape raw))

  abbrev pub reset_for : Outcome DbError User → Call (Unit {0})
  reset_for (ok u) = send_reset u
  reset_for (err no_rows) = pure tt
  reset_for (err e) = throw (store_failed e)

  -- RequestPasswordReset
  unfoldable pub request_password_reset : String → Call (Unit {0})
  unfolding send_reset
  request_password_reset email = do
    r ← attempt (query (get_user_by_email (normalize_email email)))
    reset_for r

  -- ResetPassword, once the password is long enough
  unfoldable pub install_password : String → String → Call (Unit {0})
  unfolding redeem_token
  install_password raw password = do
    tok ← redeem_token raw purpose_password_reset
    hash ← wrap crypto_failed (s.crypto.hash_password password)
    wrap store_failed (query (update_user_password tok.user_id hash))
    cleared ← attempt (query (delete_auth_tokens_for_user tok.user_id purpose_password_reset))
    pure tt

  -- ResetPassword
  unfoldable pub reset_password : String → String → Call (Unit {0})
  unfolding install_password
  reset_password raw password =
      if is_weak password then throw weak_password else install_password raw password
