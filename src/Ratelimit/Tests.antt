-- ===== src/Ratelimit/Tests.antt =====
-- A small budget, used up, refunded and reset.
use ticket_watcher.Prelude.{
  ◌+◌, ◌-◌, ◌≤◌, ◌≡◌, refl, true, false, List, [], ◌∷◌, ltb, arith, ◌⊎◌, if◌then◌else◌,
}
use ticket_watcher.Prelude.Int.{pos, pos_part}
use ticket_watcher.Prelude.Instant.{Instant}
use ticket_watcher.Prelude.Outcome.{ok, err}
use ticket_watcher.Ratelimit.{
  daily_budget_exhausted, wait_failed, class_poll, class_search, get, DailyQuota, Reading, Op,
  reserving, releasing, new_daily_quota, run_ops, maybe_reset, acquire, remaining, reserve,
}
use ticket_watcher.Ratelimit.Bounds.{
  IsWithin, run_ops-IsWithin, granted, released, granted-le_budget, reserve-remaining_iff,
  acquire-refund,
}

-- Days of a hundred instants.
abbrev midnight : Instant → Instant
midnight t = t + 100

abbrev at_ : Instant → Reading
at_ t = record { now = t; again = t }

abbrev quota : DailyQuota
quota = new_daily_quota midnight (pos 2) (pos 1) 0

abbrev busy : List Op
busy =
    reserving class_poll (at_ 1)
    ∷ reserving class_search (at_ 2)
    ∷ reserving class_poll (at_ 3)
    ∷ reserving class_poll (at_ 4)
    ∷ releasing class_poll
    ∷ reserving class_poll (at_ 5)
    ∷ []

busy-granted : granted midnight class_poll busy quota ≡ 3
unfolding granted new_daily_quota
busy-granted = refl

-- A reservation of one day that is handed back on the next refunds a call of the next.
abbrev across_midnight : List Op
across_midnight =
    reserving class_search (at_ 99)
    ∷ reserving class_search (at_ 100)
    ∷ releasing class_search
    ∷ reserving class_search (at_ 101)
    ∷ []

across_midnight-granted : granted midnight class_search across_midnight quota ≡ 3
unfolding granted new_daily_quota
across_midnight-granted = refl

run_ops-IsWithin_example : IsWithin class_poll (run_ops midnight busy quota)
unfolding new_daily_quota
run_ops-IsWithin_example = run_ops-IsWithin midnight class_poll busy quota (ground arith)

granted-le_budget_example :
    get class_poll quota.used + granted midnight class_poll busy quota
    ≤ pos_part (get class_poll quota.budget) + released midnight class_poll busy
unfolding new_daily_quota
granted-le_budget_example = granted-le_budget midnight class_poll busy quota (ground arith) refl

reserve-remaining_iff_example :
    let (r, q') = reserve midnight class_search (at_ 3) quota in
    let left = (remaining midnight class_search (at_ 3) quota).0 in
    (r ≡ ltb 0 left)
    × (pos_part (get class_search q'.budget) - get class_search q'.used + (if r then 1 else 0)
        ≡ left)
reserve-remaining_iff_example = reserve-remaining_iff midnight class_search (at_ 3) quota

acquire-refund_example :
    let (r, q') = acquire midnight class_poll false (at_ 3) quota in
    ((r ≡ ok tt)
      × (false ≡ true)
      × (get class_poll q'.used ≡ get class_poll (maybe_reset midnight (at_ 3) quota).used + 1))
    ⊎ ((r ≡ err wait_failed) × (false ≡ false) × (q' ≡ maybe_reset midnight (at_ 3) quota))
    ⊎ ((r ≡ err daily_budget_exhausted)
        × ((remaining midnight class_poll (at_ 3) quota).0 ≡ 0)
        × (q' ≡ maybe_reset midnight (at_ 3) quota))
acquire-refund_example = acquire-refund midnight class_poll false (at_ 3) quota
