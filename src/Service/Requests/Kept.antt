-- ===== src/Service/Requests/Kept.antt =====
-- What a relation needs to be kept by every call on accounts: that it is kept by the statements that
-- write, by the mailer, and by the making of a token. The erasure of an account stands apart.
use ticket_watcher.Prelude.{arith, sym, ℕ, ◌≡◌, refl, List, [], ◌∷◌, String}
use ticket_watcher.Prelude.Outcome.{Outcome, ok, err, map_err}
use ticket_watcher.Prelude.Instant.{Instant}
use ticket_watcher.Store.Models.{User}
use ticket_watcher.Store.Query.{DbError, no_rows}
use ticket_watcher.Store.Users.{
  get_user_by_email, get_user_by_id, create_user, mark_email_verified, update_user_password,
  get_valid_auth_token, mark_auth_token_used, delete_auth_tokens_for_user, create_auth_token,
  set_unsubscribed, set_resubscribed, delete_user,
}
use ticket_watcher.World.{throw, follow, World, Message, query, wrap, pure, ◌>>=◌}
use ticket_watcher.World.Rules.{
  Keeps-time_now, Relation, On, Keeps, Keeps-query_of_read, Keeps-pure, Keeps-throw, Keeps-bind,
  Keeps-bind_of, Keeps-wrap, keeps_rules,
}
use ticket_watcher.Auth.{hash_token, new_opaque_token, new_token}
use ticket_watcher.Auth.Unsubscribe.{TokenError, parse_unsubscribe_token, Signer}
use ticket_watcher.Service.Auth.{
  normalize_email, crypto_failed, AuthService, send, token_params, store_token, issue_token,
  send_verification, register, register_valid, login, me, resend_verification, redeem_token,
  verify_email, send_reset, reset_for, request_password_reset, install_password, reset_password,
}
use ticket_watcher.Service.Account.{
  store_failed as account_store_failed, invalid_link, unsubscribe, resubscribe, delete_account,
}
use ticket_watcher.Service.Requests.{
  registering, logging_in, resetting, verifying, requesting_reset, unsubscribing, reading_account,
  resending, resubscribing, deleting_account, AccountRequest, serve_account, serve_accounts,
}

pub record KeptByRequests (s : AuthService) (Fresh : String → Type 0) (R : Relation) : Type 0 where
  -- Only a normalised address is stored.
  pub by_create_user : (e h : String) → Keeps R (query (create_user (normalize_email s e) h))
  pub by_mark_verified : (i : ℕ) → Keeps R (query (mark_email_verified i))
  pub by_update_password : (i : ℕ) (h : String) → Keeps R (query (update_user_password i h))
  pub by_mark_used : (i : ℕ) → Keeps R (query (mark_auth_token_used i))
  pub by_delete_tokens : (i : ℕ) (p : String) → Keeps R (query (delete_auth_tokens_for_user i p))
  pub by_set_unsubscribed : (i : ℕ) → Keeps R (query (set_unsubscribed i))
  pub by_set_resubscribed : (i : ℕ) → Keeps R (query (set_resubscribed i))
  pub by_hash_password : (p : String) → Keeps R (s.crypto.hash_password p)
  pub by_send : (m : Message) → Keeps R (send s m)
  pub by_random : Keeps R s.crypto.random_token
  -- What every random token has that is drawn meanwhile.
  pub of_random :
      (w : World) → On R w → (raw : String) → (s.crypto.random_token w).0 ≡ ok raw → Fresh raw
  pub by_create_token :
      (i : ℕ) (p raw : String) (e : Instant)
      → Fresh raw
      → Keeps R (query (create_auth_token (token_params s i p (hash_token s.crypto raw) e)))

module _ (s : AuthService) (g : Signer) (Fresh : String → Type 0) (R : Relation)
    (kept : KeptByRequests s Fresh R) where
  new_token-Keeps : (secret : String) (u ttl : ℕ) → Keeps R (new_token s.crypto secret u ttl)
  unfolding new_token ◌>>=◌
  new_token-Keeps secret u ttl = record { at = λ w h. h }

  -- A token that was made is fresh, and its hash is its own.
  abbrev IsMade : String × String → Type 0
  IsMade t = Fresh t.0 × (t.1 ≡ hash_token s.crypto t.0)

  new_opaque_token-Keeps : Keeps R (new_opaque_token s.crypto)
  unfolding new_opaque_token
  new_opaque_token-Keeps = search (keeps_rules, kept.by_random)

  store_token-Keeps :
      (u : ℕ) (p : String) (ttl : ℕ) (t : String × String)
      → IsMade t
      → Keeps R (store_token s u p ttl t)
  store_token-Keeps u p ttl (raw, hash) made = rw made.1 (
      Keeps-bind _ _ Keeps-time_now λ now.
        Keeps-bind _ _ (Keeps-wrap _ _ (kept.by_create_token u p raw _ made.0)) λ t. Keeps-pure raw)

  IsMade-lem :
      (o : Outcome String String) (w : World) (t : String × String)
      → ((raw : String) → o ≡ ok raw → Fresh raw)
      → map_err crypto_failed (follow (λ raw. pure (raw, hash_token s.crypto raw)) o w).0 ≡ ok t
      → IsMade t
  unfolding pure
  IsMade-lem (ok raw) w t fresh e =
      let same : (raw, hash_token s.crypto raw) ≡ t = cc in rw (sym same) (fresh raw refl, refl)
  IsMade-lem (err e') w t fresh e = ground (arith, e)

  new_opaque_token-IsMade :
      (w : World) (t : String × String)
      → On R w
      → (wrap crypto_failed (new_opaque_token s.crypto) w).0 ≡ ok t
      → IsMade t
  unfolding new_opaque_token wrap ◌>>=◌ pure
  new_opaque_token-IsMade w t h e =
      IsMade-lem (s.crypto.random_token w).0 (s.crypto.random_token w).1 t (kept.of_random w h) e

  issue_token-Keeps : (u : ℕ) (p : String) (ttl : ℕ) → Keeps R (issue_token s u p ttl)
  unfolding issue_token
  issue_token-Keeps u p ttl = Keeps-bind _ _ (Keeps-wrap _ _ (kept.by_delete_tokens u p)) λ _.
      Keeps-bind_of IsMade _ _ (Keeps-wrap _ _ new_opaque_token-Keeps)
        (λ w h t e. new_opaque_token-IsMade w t h e) (store_token-Keeps u p ttl)

  send_verification-Keeps : (u : ℕ) (e : String) → Keeps R (send_verification s u e)
  unfolding send_verification
  send_verification-Keeps u e = search (keeps_rules, issue_token-Keeps, kept.by_send)

  pub register-Keeps : (e p : String) → Keeps R (register s e p)
  unfolding register register_valid
  register-Keeps e p =
      search
        (
          keeps_rules, kept.by_hash_password, kept.by_create_user, send_verification-Keeps,
          new_token-Keeps,
        )
        depth 14

  read_by_email-Keeps : (e : String) → Keeps R (query (get_user_by_email e))
  unfolding get_user_by_email
  read_by_email-Keeps e = Keeps-query_of_read _ (λ now db. refl)

  read_by_id-Keeps : (i : ℕ) → Keeps R (query (get_user_by_id i))
  unfolding get_user_by_id
  read_by_id-Keeps i = Keeps-query_of_read _ (λ now db. refl)

  read_token-Keeps : (h p : String) → Keeps R (query (get_valid_auth_token h p))
  unfolding get_valid_auth_token
  read_token-Keeps h p = Keeps-query_of_read _ (λ now db. refl)

  pub login-Keeps : (e p : String) → Keeps R (login s e p)
  unfolding login
  login-Keeps e p = search (keeps_rules, read_by_email-Keeps, new_token-Keeps) depth 12

  pub me-Keeps : (i : ℕ) → Keeps R (me s i)
  unfolding me
  me-Keeps i = search (keeps_rules, read_by_id-Keeps)

  pub resend_verification-Keeps : (i : ℕ) → Keeps R (resend_verification s i)
  unfolding resend_verification
  resend_verification-Keeps i = search (keeps_rules, read_by_id-Keeps, send_verification-Keeps)

  pub redeem_token-Keeps : (t p : String) → Keeps R (redeem_token s t p)
  unfolding redeem_token
  redeem_token-Keeps t p = search (keeps_rules, read_token-Keeps, kept.by_mark_used) depth 12

  pub verify_email-Keeps : (t : String) → Keeps R (verify_email s t)
  unfolding verify_email
  verify_email-Keeps t =
      search (keeps_rules, redeem_token-Keeps, kept.by_mark_verified, kept.by_delete_tokens) depth
        12

  send_reset-Keeps : (u : User) → Keeps R (send_reset s u)
  unfolding send_reset
  send_reset-Keeps u = search (keeps_rules, issue_token-Keeps, kept.by_send)

  reset_for-Keeps : (r : Outcome DbError User) → Keeps R (reset_for s r)
  reset_for-Keeps (ok u) = send_reset-Keeps u
  reset_for-Keeps (err no_rows) = Keeps-pure tt
  reset_for-Keeps (err e) = Keeps-throw _

  pub request_password_reset-Keeps : (e : String) → Keeps R (request_password_reset s e)
  unfolding request_password_reset
  request_password_reset-Keeps e = search (keeps_rules, read_by_email-Keeps, reset_for-Keeps)

  -- What follows the redemption of a reset token.
  pub reset_password-Keeps : (t p : String) → Keeps R (reset_password s t p)
  unfolding reset_password install_password
  reset_password-Keeps t p =
      search
        (
          keeps_rules, redeem_token-Keeps, kept.by_hash_password, kept.by_update_password,
          kept.by_delete_tokens,
        )
        depth 14

  opt_out-Keeps :
      (o : Outcome TokenError ℕ)
      → Keeps R (elim o [
        | err e ↦ throw invalid_link
        | ok user_id ↦ wrap account_store_failed (query (set_unsubscribed user_id))
      ])
  opt_out-Keeps (err e) = Keeps-throw _
  opt_out-Keeps (ok u) = Keeps-wrap _ _ (kept.by_set_unsubscribed u)

  pub unsubscribe-Keeps : (t : String) → Keeps R (unsubscribe g s.secret t)
  unfolding unsubscribe
  unsubscribe-Keeps t = opt_out-Keeps (parse_unsubscribe_token g s.secret t)

  pub resubscribe-Keeps : (i : ℕ) → Keeps R (resubscribe i)
  unfolding resubscribe
  resubscribe-Keeps i = search (keeps_rules, kept.by_set_resubscribed)

  module _ (erase : (i : ℕ) → Keeps R (query (delete_user i))) where
    delete_account-Keeps : (i : ℕ) → Keeps R (delete_account i)
    unfolding delete_account
    delete_account-Keeps i = search (keeps_rules, erase)

    serve_account-Keeps : (r : AccountRequest) (w : World) → On R w → On R (serve_account s g r w)
    unfolding serve_account
    serve_account-Keeps (registering e p) w = (register-Keeps e p).at w
    serve_account-Keeps (logging_in e p) w = (login-Keeps e p).at w
    serve_account-Keeps (resetting t p) w = (reset_password-Keeps t p).at w
    serve_account-Keeps (verifying t) w = (verify_email-Keeps t).at w
    serve_account-Keeps (requesting_reset e) w = (request_password_reset-Keeps e).at w
    serve_account-Keeps (unsubscribing t) w = (unsubscribe-Keeps t).at w
    serve_account-Keeps (reading_account i) w = (me-Keeps i).at w
    serve_account-Keeps (resending i) w = (resend_verification-Keeps i).at w
    serve_account-Keeps (resubscribing i) w = (resubscribe-Keeps i).at w
    serve_account-Keeps (deleting_account i) w = (delete_account-Keeps i).at w

    -- Any calls on accounts.
    pub serve_accounts-Keeps :
        (rs : List AccountRequest) (w : World) → On R w → On R (serve_accounts s g rs w)
    unfolding serve_accounts
    serve_accounts-Keeps [] w h = h
    serve_accounts-Keeps (r ∷ rs) w h =
        serve_accounts-Keeps rs (serve_account s g r w) (serve_account-Keeps r w h)
