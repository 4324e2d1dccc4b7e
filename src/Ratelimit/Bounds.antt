-- ===== src/Ratelimit/Bounds.antt =====
-- The daily budget holds over any order of the operations.
use ticket_watcher.Prelude.{
  refl, ◌-◌, ◌⊎◌, ltb, ◌≡◌, ℕ, ◌+◌, ◌≤◌, Bool, true, false, ◌&&◌, List, [], ◌∷◌, arith,
  if◌then◌else◌,
}
use ticket_watcher.Prelude.Int.{pos_part}
use ticket_watcher.Prelude.Instant.{Instant, before}
use ticket_watcher.Prelude.Outcome.{ok, err}
use ticket_watcher.Ratelimit.{
  wait_failed, daily_budget_exhausted, acquire, maybe_reset, remaining, err, ok, Reading, reserve,
  Class, class_poll, class_search, get, DailyQuota, Op, reserving, releasing, reading_remaining,
  taking_snapshot, step, run_ops,
}

-- What the class has used is within its budget, which counts as 0 when it is negative.
abbrev pub IsWithin : Class → DailyQuota → Type 0
IsWithin c q = get c q.used ≤ pos_part (get c q.budget)

abbrev same_class : Class → Class → Bool
same_class class_poll class_poll = true
same_class class_search class_search = true
same_class class_poll class_search = false
same_class class_search class_poll = false

abbrev is_reserve : Class → Op → Bool
is_reserve c (reserving d t) = same_class c d
is_reserve c (releasing d) = false
is_reserve c (reading_remaining d t) = false
is_reserve c (taking_snapshot t) = false

abbrev is_release : Class → Op → Bool
is_release c (reserving d t) = false
is_release c (releasing d) = same_class c d
is_release c (reading_remaining d t) = false
is_release c (taking_snapshot t) = false

module _ (next_midnight : Instant → Instant) where
  step-IsWithin :
      (c : Class) (o : Op) (q : DailyQuota) → IsWithin c q → IsWithin c (step next_midnight o q).1
  unfolding step
  step-IsWithin c (reserving d t) q h = ground arith
  step-IsWithin c (releasing d) q h = ground arith
  step-IsWithin c (reading_remaining d t) q h = ground arith
  step-IsWithin c (taking_snapshot t) q h = ground arith

  -- Whatever the operations, their order, and the readings of the clock, a class that is within its
  -- budget stays within it.
  pub run_ops-IsWithin :
      (c : Class) (os : List Op) (q : DailyQuota)
      → IsWithin c q
      → IsWithin c (run_ops next_midnight os q)
  unfolding run_ops
  run_ops-IsWithin c [] q h = h
  run_ops-IsWithin c (o ∷ os) q h =
      run_ops-IsWithin c os (step next_midnight o q).1 (step-IsWithin c o q h)

  -- The operation reads the clock before the reset is due.
  abbrev pub is_today : Instant → Op → Bool
  is_today reset_at (reserving d t) = before t.now reset_at
  is_today reset_at (releasing d) = true
  is_today reset_at (reading_remaining d t) = before t.now reset_at
  is_today reset_at (taking_snapshot t) = before t.now reset_at

  abbrev pub all_today : Instant → List Op → Bool
  all_today reset_at [] = true
  all_today reset_at (o ∷ os) = is_today reset_at o && all_today reset_at os

  -- How many calls of a class were granted.
  unfoldable pub granted : Class → List Op → DailyQuota → ℕ
  unfolding step
  granted c [] q = 0
  granted c (o ∷ os) q =
      (if is_reserve c o && (step next_midnight o q).0 then 1 else 0)
      + granted c os (step next_midnight o q).1

  -- How many reservations of a class were handed back.
  unfoldable pub released : Class → List Op → ℕ
  released c [] = 0
  released c (o ∷ os) = (if is_release c o then 1 else 0) + released c os

  -- One operation of a day: what it grants fits the budget, and what is used afterwards accounts
  -- for it.
  step_today :
      (c : Class) (o : Op) (q : DailyQuota)
      → IsWithin c q
      → is_today q.reset_at o ≡ true
      → let (r, q') = step next_midnight o q in
        (get c q.used + (if is_reserve c o && r then 1 else 0)
          ≤ get c q'.used + (if is_release c o then 1 else 0))
        × (get c q'.budget ≡ get c q.budget)
        × (q'.reset_at ≡ q.reset_at)
  unfolding step
  step_today c (reserving d t) q h today = ground arith
  step_today c (releasing d) q h today = ground arith
  step_today c (reading_remaining d t) q h today = ground arith
  step_today c (taking_snapshot t) q h today = ground arith

  -- Between two resets a class is granted at most its budget, less what it had used, plus one call
  -- for each reservation that is handed back. The class is within its budget at the start, and
  -- every operation reads the clock before the reset is due.
  pub granted-le_budget :
      (c : Class) (os : List Op) (q : DailyQuota)
      → IsWithin c q
      → all_today q.reset_at os ≡ true
      → get c q.used + granted c os q ≤ pos_part (get c q.budget) + released c os
  unfolding granted released
  granted-le_budget c [] q h today = ground arith
  granted-le_budget c (o ∷ os) q h today =
      let now_today : is_today q.reset_at o ≡ true = ground arith in
      let st = step_today c o q h now_today in
      let q' = (step next_midnight o q).1 in
      let rest_today : all_today q'.reset_at os ≡ true = rw st.2 (ground arith) in
      let rest = granted-le_budget c os q' (step-IsWithin c o q h) rest_today in
      let budget : pos_part (get c q'.budget) ≡ pos_part (get c q.budget) = rw st.1 refl in
      omega (arith, st.0, rest, budget)

  -- A call is granted exactly when the class has calls remaining, and then it has one fewer.
  pub reserve-remaining_iff :
      (c : Class) (t : Reading) (q : DailyQuota)
      → let (r, q') = reserve next_midnight c t q in
        let left = (remaining next_midnight c t q).0 in
        (r ≡ ltb 0 left)
        × (pos_part (get c q'.budget) - get c q'.used + (if r then 1 else 0) ≡ left)
  unfolding reserve remaining
  reserve-remaining_iff class_poll t q = ground arith
  reserve-remaining_iff class_search t q = ground arith

  -- An acquisition whose wait fails is refunded in full: the quota is what it would be if only its
  -- day had been brought up to date. Without calls left, the bucket is not waited for.
  pub acquire-refund :
      (c : Class) (waited : Bool) (t : Reading) (q : DailyQuota)
      → let (r, q') = acquire next_midnight c waited t q in
        ((r ≡ ok tt)
          × (waited ≡ true)
          × (get c q'.used ≡ get c (maybe_reset next_midnight t q).used + 1))
        ⊎ ((r ≡ err wait_failed) × (waited ≡ false) × (q' ≡ maybe_reset next_midnight t q))
        ⊎ ((r ≡ err daily_budget_exhausted)
            × ((remaining next_midnight c t q).0 ≡ 0)
            × (q' ≡ maybe_reset next_midnight t q))
  unfolding acquire remaining
  acquire-refund class_poll true t q = ground arith
  acquire-refund class_poll false t q = ground arith
  acquire-refund class_search true t q = ground arith
  acquire-refund class_search false t q = ground arith
