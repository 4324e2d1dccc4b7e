-- ===== src/Ratelimit/Ip.antt =====
-- internal/ratelimit/ip.go: a token bucket per client address, and the eviction of idle ones. The
-- buckets are golang.org/x/time/rate's: a new one, a reservation of one token and its cancellation
-- are parameters. The map is a list of entries, one per key.
pub mod Eviction
mod Tests
use ticket_watcher.Prelude.{
  ℕ, ◌-◌, Bool, true, false, not, Option, none, some, List, [], ◌∷◌, String, str_eq, ltb, select,
  if◌then◌else◌,
}
use ticket_watcher.Prelude.Instant.{Instant, second}

-- `OK()` and `DelayFrom(now)` of a reservation.
pub record Reservation : Type 0 where
  pub is_ok : Bool
  pub delay : ℕ

pub record IpBucket (B : Type 0) : Type 0 where
  pub lim : B
  pub last_seen : Instant

pub record Entry (B : Type 0) : Type 0 where
  pub key : String
  pub bucket : IpBucket B

pub record IpLimiter (B : Type 0) : Type 0 where
  pub buckets : List (Entry B)
  pub ttl : ℕ
  pub last_sweep : Instant

module _ {B : Type 0} where
  abbrev pub lookup : String → List (Entry B) → Option (IpBucket B)
  lookup key [] = none
  lookup key (e ∷ es) = let rest = lookup key es in if str_eq e.key key then some e.bucket else rest

  -- `l.buckets[key] = b`
  abbrev pub store : String → IpBucket B → List (Entry B) → List (Entry B)
  store key b [] = record { key = key; bucket = b } ∷ []
  store key b (e ∷ es) =
      let rest = store key b es in
      if str_eq e.key key then record { key = key; bucket = b } ∷ es else e ∷ rest

  -- `now.Sub(b.lastSeen) > l.ttl`
  abbrev pub is_idle : ℕ → Instant → Entry B → Bool
  is_idle ttl now e = ltb ttl (now - e.bucket.last_seen)

  pub sweep : Instant → IpLimiter B → IpLimiter B
  sweep now l = if ltb (now - l.last_sweep) l.ttl then l else record l {
    last_sweep = now;
    buckets = select (λ (e : Entry B). not (is_idle l.ttl now e)) l.buckets;
  }

-- The bucket of a key that has one, or a new one.
abbrev pub bucket_or : {B : Type 0} → B → Option (IpBucket B) → B
bucket_or fresh none = fresh
bucket_or fresh (some b) = b.lim

module _ {B : Type 0} (new_bucket : B) (reserve_one : Instant → B → Reservation × B)
    (cancel : Instant → B → B) where
  -- What a reservation answers: whether the caller may proceed, how long it must wait otherwise,
  -- and the bucket, into which a token that is not used goes back.
  abbrev pub decide : Instant → Reservation × B → Bool × ℕ × B
  decide now (res, b) =
      if not res.is_ok
      then (false, second, b)
      else if ltb 0 res.delay
      then (false, res.delay, cancel now b)
      else (true, 0, b)

  pub allow : String → Instant → IpLimiter B → Bool × ℕ × IpLimiter B
  unfolding sweep
  allow key now l =
      let swept = sweep now l in
      let (allowed, wait, b) =
        decide now (reserve_one now (bucket_or new_bucket (lookup key swept.buckets))) in
      (
        allowed,
        wait,
        record swept { buckets = store key (record { lim = b; last_seen = now }) swept.buckets },
      )

  -- The calls of clients, one after another.
  pub allow_all : List (String × Instant) → IpLimiter B → IpLimiter B
  unfolding allow
  allow_all [] l = l
  allow_all ((key, now) ∷ calls) l = allow_all calls (allow key now l).2
