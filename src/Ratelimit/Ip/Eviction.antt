-- ===== src/Ratelimit/Ip/Eviction.antt =====
-- The limiter forgets idle clients.
use ticket_watcher.Prelude.{
  Bool, true, ◌∙◌, ◌&&◌, ◌*◌, leb, All-mono, ℕ, ◌+◌, ◌-◌, ◌≤◌, ◌≡◌, refl, not, List, [], ◌∷◌,
  String, str_eq, ltb, select, All, arith, Bool-cases, inl, inr,
}
use ticket_watcher.Prelude.Instant.{Instant}
use ticket_watcher.Ratelimit.Ip.{
  Reservation, allow, allow_all, Entry, IpLimiter, store, is_idle, sweep,
}

module _ {B : Type 0} where
  -- Seen no earlier than a ttl before the instant.
  abbrev pub IsRecent : ℕ → Instant → Entry B → Type 0
  IsRecent ttl t e = t ≤ e.bucket.last_seen + ttl

  -- Every entry was recent at the last sweep.
  abbrev pub IsFresh : IpLimiter B → Type 0
  IsFresh l = All (IsRecent l.ttl l.last_sweep) l.buckets

  store-IsRecent :
      (ttl : ℕ) (t now : Instant) (key : String) (b : B) (es : List (Entry B))
      → t ≤ now
      → All (IsRecent ttl t) es
      → All (IsRecent ttl t) (store key (record { lim = b; last_seen = now }) es)
  store-IsRecent ttl t now key b [] le h = (ground arith, tt)
  store-IsRecent ttl t now key b (e ∷ es) le h = elim (Bool-cases (str_eq e.key key)) [
    | inl same ↦ rw same (omega (arith, le), h.1)
    | inr other ↦ rw other (h.0, store-IsRecent ttl t now key b es le h.1)
  ]

  select-IsRecent :
      (ttl : ℕ) (now : Instant) (es : List (Entry B))
      → All (IsRecent ttl now) (select (λ (e : Entry B). not (is_idle ttl now e)) es)
  select-IsRecent ttl now [] = tt
  select-IsRecent ttl now (e ∷ es) = elim (Bool-cases (ltb ttl (now - e.bucket.last_seen))) [
    | inl idle ↦ rw idle (select-IsRecent ttl now es)
    | inr recent ↦ rw recent (ground (arith, recent), select-IsRecent ttl now es)
  ]

  sweep-IsFresh :
      (now : Instant) (l : IpLimiter B)
      → IsFresh l
      → l.last_sweep ≤ now
      → let l' = sweep now l in
        IsFresh l' × (l'.last_sweep ≤ now) × (l'.ttl ≡ l.ttl) × (now ≤ l'.last_sweep + l.ttl)
  unfolding sweep
  sweep-IsFresh now l fresh le = elim (Bool-cases (ltb (now - l.last_sweep) l.ttl)) [
    | inl early ↦ rw early (fresh, le, refl, ground (arith, early, le))
    | inr due ↦ rw due (select-IsRecent l.ttl now l.buckets, ground arith, refl, ground arith)
  ]

-- The calls come in the order of their instants, from `t` on.
abbrev pub in_order : Instant → List (String × Instant) → Bool
in_order t [] = true
in_order t ((key, now) ∷ calls) = leb t now && in_order now calls

abbrev pub last_instant : Instant → List (String × Instant) → Instant
last_instant t [] = t
last_instant t ((key, now) ∷ calls) = last_instant now calls

module _ {B : Type 0} (new_bucket : B) (reserve_one : Instant → B → Reservation × B)
    (cancel : Instant → B → B) where
  -- The limiter at an instant: no sweep is overdue, and every entry was recent at the last one.
  record IsTracked (t : Instant) (l : IpLimiter B) : Type 0 where
    fresh : IsFresh l
    swept : l.last_sweep ≤ t
    on_time : t ≤ l.last_sweep + l.ttl

  allow-IsTracked :
      (key : String) (t now : Instant) (l : IpLimiter B)
      → t ≤ now
      → IsTracked t l
      → IsTracked now (allow new_bucket reserve_one cancel key now l).2
        × ((allow new_bucket reserve_one cancel key now l).2.ttl ≡ l.ttl)
  unfolding allow
  allow-IsTracked key t now l le h =
      let swept = sweep-IsFresh now l h.fresh (omega (arith, h.swept, le)) in
      (
        record {
          fresh =
              store-IsRecent (sweep now l).ttl (sweep now l).last_sweep now key _
                (sweep now l).buckets swept.1 swept.0;
          swept = swept.1;
          on_time = rw swept.2 swept.3;
        },
        swept.2,
      )

  allow_all-IsTracked :
      (t : Instant) (calls : List (String × Instant)) (l : IpLimiter B)
      → IsTracked t l
      → in_order t calls ≡ true
      → IsTracked (last_instant t calls) (allow_all new_bucket reserve_one cancel calls l)
        × ((allow_all new_bucket reserve_one cancel calls l).ttl ≡ l.ttl)
  unfolding allow_all
  allow_all-IsTracked t [] l h order = (h, refl)
  allow_all-IsTracked t ((key, now) ∷ calls) l h order =
      let once = allow-IsTracked key t now l (ground (arith, order)) h in
      let rest =
        allow_all-IsTracked now calls (allow new_bucket reserve_one cancel key now l).2 once.0
          (ground (arith, order)) in
      (rest.0, rest.1 ∙ once.1)

  -- The map does not grow with the clients that come and go: after any calls in the order of their
  -- instants, every client that is still tracked was seen within two ttls before the last call.
  -- At the start, every entry was within a ttl of the last sweep.
  pub allow_all-recent :
      (calls : List (String × Instant)) (l : IpLimiter B)
      → IsFresh l
      → in_order l.last_sweep calls ≡ true
      → All
          (λ (e : Entry B). last_instant l.last_sweep calls ≤ e.bucket.last_seen + 2 * l.ttl)
          (allow_all new_bucket reserve_one cancel calls l).buckets
  allow_all-recent calls l fresh order =
      let l' = allow_all new_bucket reserve_one cancel calls l in
      let h =
        allow_all-IsTracked l.last_sweep calls l
          (record { fresh = fresh; swept = omega arith; on_time = omega arith }) order in
      All-mono _ _ l'.buckets (λ e recent. omega (arith, recent, h.0.on_time, h.1)) h.0.fresh
