-- ===== src/Ratelimit/Ip/Tests.antt =====
-- Two clients, with buckets that never refill.
use ticket_watcher.Prelude.{
  ℕ, ◌+◌, ◌-◌, ◌*◌, ◌≤◌, ◌≡◌, refl, true, List, [], ◌∷◌, String, ltb, map, All, if◌then◌else◌,
}
use ticket_watcher.Prelude.Instant.{Instant}
use ticket_watcher.Ratelimit.Ip.{Reservation, Entry, IpLimiter, allow, allow_all}
use ticket_watcher.Ratelimit.Ip.Eviction.{allow_all-recent, last_instant}

abbrev reserve_one : Instant → ℕ → Reservation × ℕ
reserve_one now b =
    if ltb 0 b
    then (record { is_ok = true; delay = 0 }, b - 1)
    else (record { is_ok = true; delay = 7 }, b)

abbrev cancel : Instant → ℕ → ℕ
cancel now b = b

abbrev empty : IpLimiter ℕ
empty = record { buckets = []; ttl = 10; last_sweep = 100 }

abbrev calls : List (String × Instant)
calls = ("a", 101) ∷ ("b", 105) ∷ ("b", 112) ∷ ("b", 120) ∷ []

-- The client that stays away is forgotten by the sweep.
calls-tracked :
    map (λ (e : Entry ℕ). e.key) (allow_all 2 reserve_one cancel calls empty).buckets ≡ "b" ∷ []
unfolding allow_all
calls-tracked = refl

-- The fourth call of a client is told how long to wait.
calls-refused :
    (allow 2 reserve_one cancel "b" 121 (allow_all 2 reserve_one cancel calls empty)).1 ≡ 7
unfolding allow_all allow
calls-refused = refl

allow_all-recent_example :
    All
      (λ (e : Entry ℕ). last_instant empty.last_sweep calls ≤ e.bucket.last_seen + 2 * empty.ttl)
      (allow_all 2 reserve_one cancel calls empty).buckets
allow_all-recent_example = allow_all-recent 2 reserve_one cancel calls empty tt refl
