-- ===== src/Service/Requests.antt =====
-- The calls of internal/service on accounts, one after another: what each leaves of the world, whether
-- it returns or fails.
pub mod Kept
pub mod Tests
use ticket_watcher.Prelude.{ℕ, String, List, [], ◌∷◌}
use ticket_watcher.World.{World}
use ticket_watcher.Auth.Unsubscribe.{Signer}
use ticket_watcher.Service.Auth.{
  AuthService, register, login, me, resend_verification, verify_email, request_password_reset,
  reset_password,
}
use ticket_watcher.Service.Account.{unsubscribe, resubscribe, delete_account}

pub data AccountRequest : Type 0 where
  registering logging_in resetting : String → String → AccountRequest
  verifying requesting_reset unsubscribing : String → AccountRequest
  reading_account resending resubscribing deleting_account : ℕ → AccountRequest

module _ (s : AuthService) (g : Signer) where
  unfoldable pub serve_account : AccountRequest → World → World
  unfolding register login me resend_verification verify_email request_password_reset reset_password
      unsubscribe resubscribe delete_account
  serve_account (registering email password) w = (register s email password w).1
  serve_account (logging_in email password) w = (login s email password w).1
  serve_account (resetting token password) w = (reset_password s token password w).1
  serve_account (verifying token) w = (verify_email s token w).1
  serve_account (requesting_reset email) w = (request_password_reset s email w).1
  serve_account (unsubscribing token) w = (unsubscribe g s.secret token w).1
  serve_account (reading_account id) w = (me s id w).1
  serve_account (resending id) w = (resend_verification s id w).1
  serve_account (resubscribing id) w = (resubscribe id w).1
  serve_account (deleting_account id) w = (delete_account id w).1

  unfoldable pub serve_accounts : List AccountRequest → World → World
  unfolding serve_account
  serve_accounts [] w = w
  serve_accounts (r ∷ rs) w = serve_accounts rs (serve_account r w)
