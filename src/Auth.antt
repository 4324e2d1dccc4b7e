-- ===== src/Auth.antt =====
-- internal/auth: passwords, tokens, and who a request is from. bcrypt, JWT, SHA-256, HMAC, base64 and
-- the random numbers are Go's or another module's, and parameters; so are Go's decimal numbers.
pub mod Unsubscribe
pub mod Tests
use ticket_watcher.Prelude.{ℕ, ◌+◌, Bool, true, false, Option, none, some, String, if◌then◌else◌}
use ticket_watcher.Prelude.Int.{ℤ}
use ticket_watcher.Prelude.Instant.{Instant}
use ticket_watcher.Prelude.Outcome.{Outcome, ok, err}
use ticket_watcher.World.{Action, pure, ◌>>=◌, time_now}

-- Claims: the user, and when the token expires and was issued.
pub record Claims : Type 0 where
  pub user_id : ℕ
  pub expires_at : Instant
  pub issued_at : Instant

pub record Crypto : Type 0 where
  -- bcrypt.GenerateFromPassword, whose salt is random, and CompareHashAndPassword.
  pub hash_password : String → Action String String
  pub check_password : String → String → Bool
  -- The signed JWT of some claims, under a secret; and the claims of one that is valid at an instant.
  pub sign : String → Claims → Outcome String String
  pub verify : String → Instant → String → Outcome String Claims
  -- base64 of 32 bytes of rand.Read.
  pub random_token : Action String String
  -- hex of SHA-256, and base64 of HMAC-SHA-256 under a secret.
  pub sha256 : String → String
  pub hmac_sha256 : String → String → String

module _ (c : Crypto) where
  -- HashToken
  abbrev pub hash_token : String → String
  hash_token raw = c.sha256 raw

  -- NewOpaqueToken: the token and its hash.
  unfoldable pub new_opaque_token : Action String (String × String)
  new_opaque_token = c.random_token >>= λ raw. pure (raw, hash_token raw)

  -- NewToken
  unfoldable pub new_token : String → ℕ → ℕ → Action String String
  new_token secret user_id ttl = do
    expires_from ← time_now
    issued ← time_now
    λ w. (
      c.sign secret
          (record { user_id = user_id; expires_at = expires_from + ttl; issued_at = issued }),
      w,
    )

  -- ParseToken
  abbrev pub parse_token : String → Instant → String → Outcome String ℕ
  parse_token secret now token = elim (c.verify secret now token) [
    | ok claims ↦ ok claims.user_id
    | err e ↦ err "invalid token"
  ]
