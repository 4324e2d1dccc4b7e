-- ===== src/Http/Isolation.antt =====
-- Nobody reaches the watches of another user.
pub mod Statements
use ticket_watcher.Prelude.{
  ℕ, ◌≡◌, ◌≢◌, refl, ap, ◌∙◌, arith, Bool, true, false, not, ◌==◌, List, [], ◌∷◌, String, All,
  Option, none, some, select,
}
use ticket_watcher.Prelude.Int.{int32, ℤ}
use ticket_watcher.Prelude.Instant.{Instant}
use ticket_watcher.Prelude.Outcome.{Outcome, ok, err}
use ticket_watcher.Store.Models.{Db, Watch}
use ticket_watcher.Store.Users.{
  create_user, mark_email_verified, update_user_password, mark_auth_token_used,
  delete_auth_tokens_for_user, create_auth_token, set_unsubscribed, set_resubscribed, delete_user,
  list_notifications_for_user,
}
use ticket_watcher.World.{World, query}
use ticket_watcher.World.Rules.{
  Keeps-bind, Keeps-if, Keeps-wrap, Keeps-pure, Keeps-throw, Keeps, Keeps-query,
  Keeps-query_of_read,
}
use ticket_watcher.Service.Auth.{AuthService}
use ticket_watcher.Service.Account.{delete_account}
use ticket_watcher.Service.Notifications.{clamp_limit, list_notifications, search_for}
use ticket_watcher.Service.Auth.Backend.{IsBackend, OfDb, Keeps-of_db, send-Keeps}
use ticket_watcher.Service.Requests.Kept.{
  KeptByRequests, register-Keeps, login-Keeps, me-Keeps, resend_verification-Keeps,
  verify_email-Keeps, request_password_reset-Keeps, reset_password-Keeps, unsubscribe-Keeps,
  resubscribe-Keeps,
}
use ticket_watcher.Service.Watch.{
  Request as WatchRequest, creating, listing, reading_history, updating, deleting, serve, serve_all,
}
use ticket_watcher.Service.Watch.Isolation.{watches_of, serve_all-isolated}
use ticket_watcher.Http.Replies.{Reply, answer_with}
use ticket_watcher.Http.Handlers.{
  Services, Throttled, Open, Private, post_register, post_login, post_reset, post_forgot,
  get_verify, get_healthz, get_unsubscribe, post_unsubscribe, get_me, post_resend, get_watches,
  post_resubscribe, delete_my_account, get_search, post_watch, get_history, delete_one, patch_watch,
  get_notifications, handle_throttled, handle_open, handle_private,
}
use ticket_watcher.Http.Router.{
  Router, Request, Route, throttled, open_to_all, behind_token, authenticate, guarded, limited_by,
  unless_limited, serve_route, serve_request, serve_requests,
}
use ticket_watcher.Http.Isolation.Statements.{Intact, Intact-KeptByRequests, delete_user-Intact}

-- The parameters leave the database alone.
pub record IsClosed (s : Services) : Type 0 where
  pub backend : IsBackend s.auth
  pub search_keeps : (q : String) (b : Bool) (w : World) → (s.search q b w).1.db ≡ w.db

module _ (s : Services) (closed : IsClosed s) (v : ℕ) (ws : List Watch) where
  abbrev kept : KeptByRequests s.auth (λ raw. Unit {0}) (OfDb (Intact v ws))
  kept = Intact-KeptByRequests v ws s.auth closed.backend

  abbrev After : World → Type 0
  After w = Intact v ws w.db

  handle_throttled-Intact : (p : Throttled) (w : World) → After w → After (handle_throttled s p w).1
  unfolding handle_throttled answer_with
  handle_throttled-Intact (post_register none) w h = h
  handle_throttled-Intact (post_register (some (e, p))) w h =
      (register-Keeps s.auth s.signer _ _ kept e p).at w h
  handle_throttled-Intact (post_login none) w h = h
  handle_throttled-Intact (post_login (some (e, p))) w h =
      (login-Keeps s.auth s.signer _ _ kept e p).at w h
  handle_throttled-Intact (post_reset none) w h = h
  handle_throttled-Intact (post_reset (some (t, p))) w h =
      (reset_password-Keeps s.auth s.signer _ _ kept t p).at w h
  handle_throttled-Intact (post_forgot none) w h = h
  handle_throttled-Intact (post_forgot (some e)) w h =
      (request_password_reset-Keeps s.auth s.signer _ _ kept e).at w h
  handle_throttled-Intact (get_verify t) w h =
      (verify_email-Keeps s.auth s.signer _ _ kept t).at w h

  handle_open-Intact : (p : Open) (w : World) → After w → After (handle_open s p w).1
  unfolding handle_open answer_with
  handle_open-Intact get_healthz w h = h
  handle_open-Intact (get_unsubscribe t) w h = (unsubscribe-Keeps s.auth s.signer _ _ kept t).at w h
  handle_open-Intact (post_unsubscribe t) w h =
      (unsubscribe-Keeps s.auth s.signer _ _ kept t).at w h

  module _ (user : ℕ) (ne : user ≢ v) where
    -- A call of the watch service for another user.
    serve-Intact :
        (q : WatchRequest) (w : World) → After w → After (serve s.max_per_user s.fetch user q w)
    unfolding serve_all
    serve-Intact q w h = serve_all-isolated s.max_per_user s.fetch v ((user, q) ∷ []) w (ne, tt) ∙ h

    search-Intact : (q : String) (b : Bool) → Keeps (OfDb (Intact v ws)) (search_for s.search q b)
    unfolding search_for
    search-Intact q b =
        Keeps-if _ _ _ (Keeps-throw _)
          (Keeps-wrap _ _ (Keeps-of_db (Intact v ws) (s.search q b) (closed.search_keeps q b)))

    notifications-Intact : (limit : ℤ) → Keeps (OfDb (Intact v ws)) (list_notifications user limit)
    unfolding list_notifications list_notifications_for_user
    notifications-Intact limit =
        Keeps-bind _ _
          (Keeps-query_of_read (list_notifications_for_user user (clamp_limit limit))
            (λ now db. refl))
          λ ns. Keeps-pure _

    delete_account-Intact : Keeps (OfDb (Intact v ws)) (delete_account user)
    unfolding delete_account
    delete_account-Intact =
        Keeps-bind _ _ (Keeps-wrap _ _ (delete_user-Intact v ws user ne))
          λ n. Keeps-if _ _ _ (Keeps-throw _) (Keeps-pure tt)

    handle_private-Intact :
        (p : Private) (w : World) → After w → After (handle_private s user p w).1
    unfolding handle_private answer_with serve
    handle_private-Intact get_me w h = (me-Keeps s.auth s.signer _ _ kept user).at w h
    handle_private-Intact post_resend w h =
        (resend_verification-Keeps s.auth s.signer _ _ kept user).at w h
    handle_private-Intact (get_search q up) w h = (search-Intact q _).at w h
    handle_private-Intact (post_watch none) w h = h
    handle_private-Intact (post_watch (some i)) w h = serve-Intact (creating i) w h
    handle_private-Intact get_watches w h = serve-Intact listing w h
    handle_private-Intact (get_history none) w h = h
    handle_private-Intact (get_history (some id)) w h = serve-Intact (reading_history id) w h
    handle_private-Intact (patch_watch none st) w h = h
    handle_private-Intact (patch_watch (some id) none) w h = h
    handle_private-Intact (patch_watch (some id) (some st)) w h = serve-Intact (updating id st) w h
    handle_private-Intact (delete_one none) w h = h
    handle_private-Intact (delete_one (some id)) w h = serve-Intact (deleting id) w h
    handle_private-Intact (get_notifications limit) w h =
        (notifications-Intact (int32 limit)).at w h
    handle_private-Intact post_resubscribe w h =
        (resubscribe-Keeps s.auth s.signer _ _ kept user).at w h
    handle_private-Intact delete_my_account w h = delete_account-Intact.at w h

  guarded-Intact :
      {L : Type 0} (r : Router L) (o : Outcome String ℕ) (p : Private) (w : World)
      → r.services ≡ s
      → o ≢ ok v
      → After w
      → After (guarded r o p w).1
  guarded-Intact r (err msg) p w e ne h = h
  guarded-Intact r (ok user) p w e ne h =
      rw e (handle_private-Intact user (λ same. ne (ap ok same)) p w h)

  unless_limited-Intact :
      {L : Type 0} (r : Router L) (a : Bool × ℕ × L) (handler : World → Reply × World) (w : World)
      → After (handler w).1
      → After w
      → After (unless_limited r a handler w).1
  unless_limited-Intact r (true, wait, l) handler w run h = run
  unless_limited-Intact r (false, wait, l) handler w run h = h

  limited_by-Intact :
      {L : Type 0} (r : Router L) (o : Option (String → Instant → L → Bool × ℕ × L)) (ip : String)
      (handler : World → Reply × World) (w : World) (l : L)
      → After (handler w).1
      → After w
      → After (limited_by r o ip handler w l).1
  limited_by-Intact r none ip handler w l run h = run
  limited_by-Intact r (some allow) ip handler w l run h =
      unless_limited-Intact r (allow ip w.clock l) handler w run h

-- At no instant does the request carry a valid token of the user.
abbrev pub IsForeign : {L : Type 0} → Router L → ℕ → Request → Type 0
IsForeign r v q =
    (now : Instant)
    → authenticate r.services.auth.crypto r.services.auth.secret now q.authorization ≢ ok v

module _ {L : Type 0} (r : Router L) (closed : IsClosed r.services) (v : ℕ) where
  serve_route-Intact :
      (ws : List Watch) (p : Route) (q : Request) (w : World) (l : L)
      → IsForeign r v q
      → Intact v ws w.db
      → Intact v ws (serve_route r p q w l).1.db
  unfolding serve_route
  serve_route-Intact ws (throttled p) q w l foreign h =
      limited_by-Intact r.services closed v ws r r.allow _ (handle_throttled r.services p) w l
        (handle_throttled-Intact r.services closed v ws p w h) h
  serve_route-Intact ws (open_to_all p) q w l foreign h =
      handle_open-Intact r.services closed v ws p w h
  serve_route-Intact ws (behind_token p) q w l foreign h =
      guarded-Intact r.services closed v ws r _ p w refl (foreign w.clock) h

  -- Whatever requests come in, in any order, whichever are limited and whichever of their calls fail:
  -- if none carries a valid token of a user, that user's watches stay as they are. The mailer, the
  -- random numbers and the search leave the database alone.
  pub serve_requests-isolated :
      (qs : List Request) (w : World) (l : L)
      → All (IsForeign r v) qs
      → watches_of v (serve_requests r qs w l).0.db.watches.rows ≡ watches_of v w.db.watches.rows
  unfolding serve_requests serve_request
  serve_requests-isolated [] w l foreign = refl
  serve_requests-isolated (q ∷ qs) w l foreign =
      let a = serve_request r q w l in
      serve_requests-isolated qs a.1 a.2 foreign.1
      ∙ serve_route-Intact _ q.route q w l foreign.0 refl
