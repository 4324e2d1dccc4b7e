-- ===== src/Http/Router.antt =====
-- internal/httpapi/router.go, `NewRouter`, with ratelimit.go and auth.Middleware: a request passes the
-- guard of its group, and then its handler runs. Which route a path and a method name is chi's to
-- say, and an argument; the pages of the web client are not modelled.
use ticket_watcher.Prelude.{
  List, [], ◌∷◌, ℕ, ◌+◌, ◌-◌, ◌/◌, ltb, Bool, true, false, Option, none, some, String, str_eq,
  if◌then◌else◌,
}
use ticket_watcher.Prelude.Instant.{Instant, second}
use ticket_watcher.Prelude.Outcome.{Outcome, ok, err}
use ticket_watcher.Prelude.Text.{cut, strip_prefix}
use ticket_watcher.World.{World}
use ticket_watcher.Auth.{Crypto, parse_token}
use ticket_watcher.Http.Replies.{Reply, failure, error}
use ticket_watcher.Http.Handlers.{
  Throttled, Open, Private, Services, handle_throttled, handle_open, handle_private,
}

pub data Route : Type 0 where
  throttled : Throttled → Route
  open_to_all : Open → Route
  behind_token : Private → Route

pub record Request : Type 0 where
  pub authorization : String
  pub fly_client_ip : String
  pub forwarded_for : String
  pub remote_addr : String
  pub route : Route

-- The router's parts, over the state of its limiter, which may be nil; and, of Go,
-- `strings.TrimSpace` and the host of `net.SplitHostPort`.
pub record Router (L : Type 0) : Type 0 where
  pub services : Services
  pub allow : Option (String → Instant → L → Bool × ℕ × L)
  pub trim_space : String → String
  pub split_host : String → Option String

-- UserID of the request's token, and what Middleware says of one without.
abbrev pub token_user : Crypto → String → Instant → Option String → Outcome String ℕ
token_user c secret now none = err "missing bearer token"
token_user c secret now (some t) = elim (parse_token c secret now t) [
  | ok user ↦ ok user
  | err e ↦ err "invalid or expired token"
]

-- Middleware
unfoldable pub authenticate : Crypto → String → Instant → String → Outcome String ℕ
authenticate c secret now header = token_user c secret now (strip_prefix "Bearer " header)

-- Whole seconds, rounded up, and never 0.
abbrev pub retry_secs : ℕ → ℕ
retry_secs wait = let secs = (wait + (second - 1)) / second in if ltb secs 1 then 1 else secs

abbrev pub too_many : ℕ → Reply
too_many wait = record {
  status = 429;
  body = error "too many requests — please slow down and try again shortly";
  retry_after = some (retry_secs wait);
}

module _ {L : Type 0} (r : Router L) where
  abbrev pub forwarded_ip : String → Option (String × String) → String
  forwarded_ip xff none = r.trim_space xff
  forwarded_ip xff (some (first, rest)) = r.trim_space first

  abbrev pub host_or : String → Option String → String
  host_or addr none = addr
  host_or addr (some host) = host

  -- clientIP; 44 is the comma.
  abbrev pub client_ip : Request → String
  client_ip q =
      let ip = r.trim_space q.fly_client_ip in
      if str_eq ip ""
      then if str_eq q.forwarded_for ""
        then host_or q.remote_addr (r.split_host q.remote_addr)
        else forwarded_ip q.forwarded_for (cut 44 q.forwarded_for)
      else ip

  -- What follows the limiter's answer.
  abbrev pub unless_limited : Bool × ℕ × L → (World → Reply × World) → World → Reply × World × L
  unless_limited (true, wait, l) handler w = let (a, w') = handler w in (a, w', l)
  unless_limited (false, wait, l) handler w = (too_many wait, w, l)

  abbrev pub limited_by :
      Option (String → Instant → L → Bool × ℕ × L)
      → String
      → (World → Reply × World)
      → World
      → L
      → Reply × World × L
  limited_by none ip handler w l = let (a, w') = handler w in (a, w', l)
  limited_by (some allow) ip handler w l = unless_limited (allow ip w.clock l) handler w

  abbrev pub guarded : Outcome String ℕ → Private → World → Reply × World
  guarded (err msg) p w = (failure 401 msg, w)
  guarded (ok user) p w = handle_private r.services user p w

  -- The handler of a route, behind its guard.
  unfoldable pub serve_route : Route → Request → World → L → Reply × World × L
  unfolding authenticate handle_throttled handle_open handle_private
  serve_route (throttled p) q w l =
      limited_by r.allow (client_ip q) (handle_throttled r.services p) w l
  serve_route (open_to_all p) q w l = let (a, w') = handle_open r.services p w in (a, w', l)
  serve_route (behind_token p) q w l =
      let auth = r.services.auth in
      let (a, w') = guarded (authenticate auth.crypto auth.secret w.clock q.authorization) p w in
      (a, w', l)

  unfoldable pub serve_request : Request → World → L → Reply × World × L
  unfolding serve_route
  serve_request q w l = serve_route q.route q w l

  -- Requests, one after another: what they leave.
  unfoldable pub serve_requests : List Request → World → L → World × L
  unfolding serve_request
  serve_requests [] w l = (w, l)
  serve_requests (q ∷ qs) w l = let (a, w', l') = serve_request q w l in serve_requests qs w' l'
