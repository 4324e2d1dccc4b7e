-- ===== src/Http/Limits.antt =====
-- What the guards refuse.
use ticket_watcher.Prelude.{
  Bool, ℕ, ◌+◌, ◌-◌, ◌*◌, ◌/◌, ◌≤◌, ◌≡◌, ltb, refl, arith, false, some, String, Bool-cases, inl,
  inr,
}
use ticket_watcher.Prelude.Instant.{Instant, second}
use ticket_watcher.World.{World}
use ticket_watcher.Http.Handlers.{Throttled}
use ticket_watcher.Http.Router.{Router, Request, throttled, client_ip, retry_secs, serve_route}

retry_secs-le : (wait : ℕ) → (1 ≤ retry_secs wait) × (wait ≤ retry_secs wait * second)
retry_secs-le wait = elim (Bool-cases (ltb ((wait + (second - 1)) / second) 1)) [
  | inl e ↦ rw e (omega arith, ground (arith, e))
  | inr e ↦ rw e (ground (arith, e), ground (arith, e))
]

module _ {L : Type 0} (r : Router L) (allow : String → Instant → L → Bool × ℕ × L)
    (limited : r.allow ≡ some allow) where
  -- A client over its limit is told 429 and to wait for a whole number of seconds, at least one, that
  -- covers the limiter's delay; no handler runs, so nothing of the world changes.
  pub serve_route-limited :
      (p : Throttled) (q : Request) (w : World) (l : L)
      → (allow (client_ip r q) w.clock l).0 ≡ false
      → let (a, w', l') = serve_route r (throttled p) q w l in
        (w' ≡ w)
        × (a.status ≡ 429)
        × ((secs : ℕ) × (a.retry_after ≡ some secs)
            × (1 ≤ secs)
            × ((allow (client_ip r q) w.clock l).1 ≤ secs * second))
  unfolding serve_route
  serve_route-limited p q w l refused =
      rw (limited, refused)
        (refl, refl, (retry_secs _, refl, (retry_secs-le _).0, (retry_secs-le _).1))
