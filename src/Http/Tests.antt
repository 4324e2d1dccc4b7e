-- ===== src/Http/Tests.antt =====
-- Requests to a small server.
use ticket_watcher.Prelude.{
  ℕ, ◌*◌, ◌≤◌, ◌≡◌, refl, arith, Bool, true, false, none, some, List, [], ◌∷◌, String, All,
}
use ticket_watcher.Prelude.Int.{pos}
use ticket_watcher.Prelude.Instant.{Instant, second}
use ticket_watcher.Prelude.Outcome.{ok, err}
use ticket_watcher.Worker.Sample.{start}
use ticket_watcher.Service.Requests.Tests.{service, signer}
use ticket_watcher.Service.Watch.Isolation.{watches_of}
use ticket_watcher.Http.Handlers.{Services, post_login, delete_one, delete_my_account, Throttled}
use ticket_watcher.Http.Router.{
  Router, Request, Route, throttled, behind_token, authenticate, client_ip, serve_route,
  serve_requests,
}
use ticket_watcher.Http.Limits.{serve_route-limited}
use ticket_watcher.Http.Isolation.{IsClosed, IsForeign, serve_requests-isolated}

-- Any token is one of the second user.
abbrev services : Services
services = record {
  auth = record service {
    crypto = record service.crypto {
      verify = λ secret now t. ok (record { user_id = 2; expires_at = 1000; issued_at = 1 });
    };
  };
  signer = signer;
  max_per_user = pos 5;
  search = λ q b w. (ok [], w);
  fetch = λ id. err "down";
}

services-IsClosed : IsClosed services
services-IsClosed = record {
  backend = record {
    hash_keeps = λ p w. refl;
    random_keeps = λ w. refl;
    mail_keeps = λ mail e m w. ground (arith, e);
  };
  search_keeps = λ q b w. refl;
}

-- A limiter that lets one more request through, and asks for a second and a half after that.
abbrev allow : String → Instant → Bool → Bool × ℕ × Bool
allow ip now left = (left, 1_500_000_000, false)

abbrev router : Router Bool
router = record {
  services = services;
  allow = some allow;
  trim_space = λ s. s;
  split_host = λ a. none;
}

abbrev request : String → Route → Request
request authorization route = record {
  authorization = authorization;
  fly_client_ip = "";
  forwarded_for = "1.2.3.4,10.0.0.1";
  remote_addr = "10.0.0.1:80";
  route = route;
}

abbrev log_in : Throttled
log_in = post_login (some ("a@x", "password1"))

abbrev logging_in : Request
logging_in = request "" (throttled log_in)

client_ip-test : client_ip router logging_in ≡ "1.2.3.4"
client_ip-test = refl

serve_route-limited_example :
    let (a, w', l') = serve_route router (throttled log_in) logging_in start false in
    (w' ≡ start)
    × (a.status ≡ 429)
    × ((secs : ℕ) × (a.retry_after ≡ some secs)
        × (1 ≤ secs)
        × ((allow (client_ip router logging_in) start.clock false).1 ≤ secs * second))
serve_route-limited_example =
    serve_route-limited router allow refl log_in logging_in start false refl

-- The second user, who tries the first user's watch and then leaves, and a stranger.
abbrev requests : List Request
requests =
    request "Bearer t" (behind_token (delete_one (some 11)))
    ∷ request "Bearer t" (behind_token delete_my_account)
    ∷ logging_in
    ∷ []

requests-IsForeign : All (IsForeign router 1) requests
unfolding authenticate
requests-IsForeign =
    (λ now e. ground (arith, e), (λ now e. ground (arith, e), (λ now e. ground (arith, e), tt)))

serve_requests-isolated_example :
    watches_of 1 (serve_requests router requests start true).0.db.watches.rows
    ≡ watches_of 1 start.db.watches.rows
serve_requests-isolated_example =
    serve_requests-isolated router services-IsClosed 1 requests start true requests-IsForeign
