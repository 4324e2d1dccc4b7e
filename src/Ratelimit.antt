-- ===== src/Ratelimit.antt =====
-- internal/ratelimit/quota.go and limiter.go: the daily budget of calls to Ticketmaster, per class
-- of traffic. Each operation holds the mutex, so it is one step; `now` is read where the source
-- reads it, once for the test and once more for the reset. The midnight that follows an instant,
-- which the time package finds in the local zone, is a parameter, as is the outcome of the token
-- bucket's wait.
pub mod Bounds
pub mod Ip
mod Tests
use ticket_watcher.Prelude.{List, [], ◌∷◌, ℕ, ◌+◌, ◌-◌, Bool, true, false, not, ltb, if◌then◌else◌}
use ticket_watcher.Prelude.Int.{ℤ, pos, pos_part, leb_ℤ}
use ticket_watcher.Prelude.Instant.{Instant, before}
use ticket_watcher.Prelude.Outcome.{Outcome, ok, err}

pub data Class : Type 0 where
  class_poll class_search : Class

-- A number per class; a class without one counts as 0, as in Go's map.
pub record PerClass (A : Type 0) : Type 0 where
  pub poll : A
  pub search : A

abbrev pub get : {A : Type 0} → Class → PerClass A → A
get class_poll m = m.poll
get class_search m = m.search

abbrev pub put : {A : Type 0} → Class → A → PerClass A → PerClass A
put class_poll a m = record m { poll = a }
put class_search a m = record m { search = a }

pub record DailyQuota : Type 0 where
  pub reset_at : Instant
  pub used : PerClass ℕ
  pub budget : PerClass ℤ

-- The two readings of the clock in an operation.
pub record Reading : Type 0 where
  pub now : Instant
  pub again : Instant

abbrev pub none_used : PerClass ℕ
none_used = record { poll = 0; search = 0 }

pub data AcquireError : Type 0 where
  daily_budget_exhausted wait_failed : AcquireError

module _ (next_midnight : Instant → Instant) where
  unfoldable pub new_daily_quota : ℤ → ℤ → Instant → DailyQuota
  new_daily_quota poll_budget search_budget now = record {
    reset_at = next_midnight now;
    used = none_used;
    budget = record { poll = poll_budget; search = search_budget };
  }

  abbrev pub maybe_reset : Reading → DailyQuota → DailyQuota
  maybe_reset t q =
      if not (before t.now q.reset_at)
      then record q { used = none_used; reset_at = next_midnight t.again }
      else q

  -- The outcome, which is an error when the budget is used up, and the quota after.
  pub reserve : Class → Reading → DailyQuota → Bool × DailyQuota
  reserve c t q =
      let q' = maybe_reset t q in
      if leb_ℤ (get c q'.budget) (pos (get c q'.used))
      then (false, q')
      else (true, record q' { used = put c (get c q'.used + 1) q'.used })

  pub release : Class → DailyQuota → DailyQuota
  release c q =
      if ltb 0 (get c q.used) then record q { used = put c (get c q.used - 1) q.used } else q

  unfoldable pub remaining : Class → Reading → DailyQuota → ℕ × DailyQuota
  remaining c t q = let q' = maybe_reset t q in (pos_part (get c q'.budget) - get c q'.used, q')

  pub snapshot : Reading → DailyQuota → (PerClass ℕ × PerClass ℤ × Instant) × DailyQuota
  snapshot t q = let q' = maybe_reset t q in ((q'.used, q'.budget, q'.reset_at), q')

  -- Limiter.Acquire: `waited` is whether the bucket's wait succeeded.
  pub acquire : Class → Bool → Reading → DailyQuota → Outcome AcquireError (Unit {0}) × DailyQuota
  unfolding reserve release
  acquire c waited t q =
      let (granted, q') = reserve c t q in
      if granted
      then if waited then (ok tt, q') else (err wait_failed, release c q')
      else (err daily_budget_exhausted, q')

-- The calls on a quota that is shared by the scheduler and the client.
pub data Op : Type 0 where
  reserving : Class → Reading → Op
  releasing : Class → Op
  reading_remaining : Class → Reading → Op
  taking_snapshot : Reading → Op

module _ (next_midnight : Instant → Instant) where
  -- Whether a call was granted to the class, and the quota after.
  pub step : Op → DailyQuota → Bool × DailyQuota
  unfolding reserve release remaining snapshot
  step (reserving c t) q = reserve next_midnight c t q
  step (releasing c) q = (false, release next_midnight c q)
  step (reading_remaining c t) q = (false, (remaining next_midnight c t q).1)
  step (taking_snapshot t) q = (false, (snapshot next_midnight t q).1)

  pub run_ops : List Op → DailyQuota → DailyQuota
  unfolding step
  run_ops [] q = q
  run_ops (o ∷ os) q = run_ops os (step o q).1
