-- ===== src/Service/Requests/Tests.antt =====
-- Calls on accounts, on a small database.
use ticket_watcher.Prelude.{
  if◌then◌else◌, String, count, ℕ, ap, ◌≤◌, Bool-cases, inl, inr, str_eq_iff, true, any, ◌≡◌, refl,
  sym, arith, false, none, List, [], ◌∷◌, str_eq,
}
use ticket_watcher.Prelude.Outcome.{ok, err, is_ok}
use ticket_watcher.Store.Users.{
  create_user, get_user_by_email, update_user_password, get_valid_auth_token, mark_auth_token_used,
  delete_auth_tokens_for_user, create_auth_token,
}
use ticket_watcher.World.{World, query, ◌>>=◌}
use ticket_watcher.Worker.Sample.{start, user}
use ticket_watcher.Auth.{new_token, new_opaque_token, Crypto}
use ticket_watcher.Auth.Tests.{strokes, strokes_of, strokes_of-strokes}
use ticket_watcher.Auth.Unsubscribe.{Signer}
use ticket_watcher.Service.Auth.{
  login, AuthService, register, register_valid, email_taken, reset_password, request_password_reset,
  send_reset, issue_token, redeem_token, install_password,
}
use ticket_watcher.Service.Auth.Login.{accepts, login-HasAccount}
use ticket_watcher.Service.Auth.Backend.{IsBackend}
use ticket_watcher.Service.Auth.Once.{reset_password-once}
use ticket_watcher.Service.Auth.Once.Spent.{IsFresh, IsUnique}
use ticket_watcher.Service.Auth.Emails.{IsText, IsDistinct, is_alike, serve_accounts-IsDistinct}
use ticket_watcher.Service.Requests.{
  AccountRequest, registering, resetting, requesting_reset, serve_accounts,
}

-- A random token is as many strokes as the sequence of the tokens says.
abbrev pub crypto : Crypto
crypto = record {
  hash_password = λ p w. (ok p, w);
  check_password = str_eq;
  sign = λ secret claims. ok "jwt";
  verify = λ secret now t. err "invalid";
  random_token = λ w. (ok (strokes w.db.auth_tokens.next), w);
  sha256 = λ t. t;
  hmac_sha256 = λ secret t. t;
}

-- One address that is written in two ways.
abbrev lowered : String → String
lowered e = if str_eq e "A@x" then "a@x" else e

lowered_twice : (e : String) → lowered (lowered e) ≡ lowered e
lowered_twice e = elim (Bool-cases (str_eq e "A@x")) [
  | inl same ↦ rw same refl
  | inr other ↦ rw (other, other) refl
]

abbrev pub service : AuthService
service = record {
  crypto = crypto;
  secret = "k";
  ttl = 10;
  mail = none;
  base_url = "https://t";
  to_lower = lowered;
  trim_space = λ s. s;
  query_escape = λ s. s;
}

pub service-IsBackend : IsBackend service
service-IsBackend = record {
  hash_keeps = λ p w. refl;
  random_keeps = λ w. refl;
  mail_keeps = λ mail e m w. ground (arith, e);
}

abbrev pub signer : Signer
signer = record { format_int = λ n. ""; parse_int = λ s. none; hmac = λ secret t. t }

-- One account.
abbrev world : World
world = record start {
  db = record start.db { users = record { rows = user 1 "a@x" none none ∷ []; next = 2 } };
}

-- The user asks for a link, and is sent the first token.
abbrev issued : World
issued = (request_password_reset service "a@x" world).1

issued-next : issued.db.auth_tokens.next ≡ 2
unfolding request_password_reset send_reset issue_token new_opaque_token query ◌>>=◌
    get_user_by_email delete_auth_tokens_for_user create_auth_token
issued-next = refl

issued-IsUnique : IsUnique "|" issued.db
unfolding request_password_reset send_reset issue_token new_opaque_token query ◌>>=◌
    get_user_by_email delete_auth_tokens_for_user create_auth_token
issued-IsUnique = omega arith

reset-ok : (reset_password service "|" "password1" issued).0 ≡ ok tt
unfolding request_password_reset send_reset issue_token new_opaque_token query ◌>>=◌
    get_user_by_email delete_auth_tokens_for_user create_auth_token reset_password install_password
    redeem_token get_valid_auth_token mark_auth_token_used update_user_password
reset-ok = refl

abbrev requests : List AccountRequest
requests =
    requesting_reset "a@x"
    ∷ registering "A@x" "password2"
    ∷ registering "b@x" "password2"
    ∷ resetting "||" "password3"
    ∷ []

-- Later tokens have two strokes at least.
strokes-other : (n : ℕ) → 2 ≤ n → str_eq (strokes n) "|" ≡ false
strokes-other n le = elim (Bool-cases (str_eq (strokes n) "|")) [
  | inl e ↦
      let one_stroke : strokes_of (strokes n) ≡ 1 =
        ap strokes_of ((str_eq_iff (strokes n) "|").0 e) in
      ground (arith, le, one_stroke, strokes_of-strokes n)
  | inr e ↦ e
]

issued-IsFresh : IsFresh service "|" issued.db.auth_tokens.next
issued-IsFresh = record {
  other = λ w raw le e.
      let same : strokes w.db.auth_tokens.next ≡ raw = cc in
      rw (sym same) (strokes-other w.db.auth_tokens.next (omega (arith, le, issued-next)));
}

reset_password-once_example :
    let w' =
      serve_accounts service signer requests (reset_password service "|" "password1" issued).1 in
    (is_ok (reset_password service "|" "password4" w').0 ≡ false)
    × ((reset_password service "|" "password4" w').1.db.users.rows ≡ w'.db.users.rows)
reset_password-once_example =
    reset_password-once service signer "|" "password1" "password4" requests issued service-IsBackend
      issued-IsFresh issued-IsUnique reset-ok

service-IsText : IsText service
service-IsText = record {
  lower_lower = lowered_twice;
  trim_trim = λ e. refl;
  lower_trim = λ e. refl;
}

world-IsDistinct : IsDistinct service world.db
world-IsDistinct = record { normal = (refl, tt); unique = λ email. ground arith }

taken : (register service "A@x" "password2" world).0 ≡ err email_taken
unfolding register register_valid query ◌>>=◌ create_user
taken = refl

serve_accounts-IsDistinct_example :
    let w' = serve_accounts service signer requests world in
    IsDistinct service w'.db
    × ((email : String) → count (is_alike service email) w'.db.users.rows ≤ 1)
serve_accounts-IsDistinct_example =
    serve_accounts-IsDistinct service signer service-IsBackend service-IsText requests world
      world-IsDistinct

-- The account with a password.
abbrev known : World
known = record world {
  db = record world.db {
    users = record {
      rows = record (user 1 "a@x" none none) { password_hash = "password1" } ∷ [];
      next = 2;
    };
  };
}

logged_in : (login service "a@x" "password1" known).0 ≡ ok "jwt"
unfolding login query ◌>>=◌ get_user_by_email new_token
logged_in = refl

login-HasAccount_example : any (accepts service "a@x" "password1") known.db.users.rows ≡ true
login-HasAccount_example = login-HasAccount service "a@x" "password1" "jwt" known logged_in
