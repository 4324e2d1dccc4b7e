-- ===== src/Evaluator/Spec.antt =====
-- The milestones stated one by one, each by its own condition, and `evaluate` against them.
use ticket_watcher.Prelude.{
  ◌≤◌, ◌<◌, ◌≡◌, ◌≢◌, ◌↔◌, ◌⊎◌, inl, inr, Bool, true, false, Option, none, some, List, String,
  str_eq, str_eq_iff, arith, any,
}
use ticket_watcher.Prelude.Instant.{Instant}
use ticket_watcher.Evaluator.{
  Kind, cancelled, rescheduled, onsale_announced, presale_open, public_open, status_onsale,
  sale_closed, kind_text, Observation, Prior, sale_kinds, evaluate,
}

-- `k` is among the reported kinds.
abbrev pub reports : Kind → List Kind → Bool
reports k = any (λ j. str_eq (kind_text j) (kind_text k))

-- The instant is known, and strictly before `now`.
abbrev pub Passed : Option Instant → Instant → Type 0
Passed t now = (u : Instant) × (t ≡ some u) × (u < now)

-- The event has a date, and that is in the past.
abbrev pub IsOver : Observation → Type 0
IsOver o = Passed o.event_date o.now

-- The event is still to come, and its status is none of the three that stop sale alerts.
pub record IsSelling (o : Observation) : Type 0 where
  pub not_over : ¬ IsOver o
  pub not_cancelled : o.availability ≢ "cancelled"
  pub not_postponed : o.availability ≢ "postponed"
  pub not_rescheduled : o.availability ≢ "rescheduled"

-- The milestone's instant has come, and not before the user began to watch.
abbrev pub IsNews : Observation → Prior → Option Instant → Type 0
IsNews o p t =
    (u : Instant) × (t ≡ some u)
    × (u ≤ o.now)
    × ((p.watch_created_at ≡ 0) ⊎ (p.watch_created_at < u))

-- When each sale milestone holds of an event that is selling.
abbrev pub Reached : Observation → Prior → Kind → Type 0
Reached o p cancelled = ⊥
Reached o p rescheduled = ⊥
Reached o p onsale_announced =
    (p.knew_public_start ≡ false) × ((u : Instant) × (o.public_start ≡ some u) × (o.now < u))
Reached o p sale_closed = Passed o.public_end o.now
Reached o p presale_open = ¬ Passed o.public_end o.now × IsNews o p o.earliest_presale
Reached o p public_open =
    ¬ Passed o.public_end o.now × (o.availability ≡ "onsale") × IsNews o p o.public_start
Reached o p status_onsale =
    ¬ Passed o.public_end o.now
    × (o.availability ≡ "onsale")
    × (o.public_start ≡ none)
    × (p.last_evaluation ≡ false)

-- When each milestone holds.
abbrev pub Holds : Observation → Prior → Kind → Type 0
Holds o p cancelled = ¬ IsOver o × (o.availability ≡ "cancelled")
Holds o p rescheduled =
    ¬ IsOver o × ((o.availability ≡ "postponed") ⊎ (o.availability ≡ "rescheduled"))
Holds o p k = IsSelling o × Reached o p k

sale_kinds→Reached :
    (o : Observation) (p : Prior) (k : Kind) → reports k (sale_kinds o p) ≡ true → Reached o p k
unfolding sale_kinds
sale_kinds→Reached o p cancelled h = ground arith
sale_kinds→Reached o p _ h = ground (arith, str_eq_iff o.availability "onsale")

Reached→sale_kinds :
    (o : Observation) (p : Prior) (k : Kind) → Reached o p k → reports k (sale_kinds o p) ≡ true
unfolding sale_kinds
Reached→sale_kinds o p cancelled h = absurd h
Reached→sale_kinds o p _ h = ground (arith, str_eq_iff o.availability "onsale")

-- The statuses that the vetoes test differ.
not_cancelled_of_moved :
    (a : String) → (a ≡ "postponed") ⊎ (a ≡ "rescheduled") → str_eq a "cancelled" ≡ false
not_cancelled_of_moved a (inl e) = rw e
not_cancelled_of_moved a (inr e) = rw e

reports→Holds :
    (o : Observation) (p : Prior) (k : Kind) → reports k (evaluate o p).kinds ≡ true → Holds o p k
unfolding evaluate
reports→Holds o p cancelled h =
    ground (arith, str_eq_iff o.availability "cancelled", sale_kinds→Reached o p cancelled)
reports→Holds o p rescheduled h = ground (
  arith,
  str_eq_iff o.availability "cancelled",
  str_eq_iff o.availability "postponed",
  str_eq_iff o.availability "rescheduled",
  sale_kinds→Reached o p rescheduled,
)
reports→Holds o p k h = ground (
  arith,
  str_eq_iff o.availability "cancelled",
  str_eq_iff o.availability "postponed",
  str_eq_iff o.availability "rescheduled",
  sale_kinds→Reached o p k,
)

Holds→reports :
    (o : Observation) (p : Prior) (k : Kind) → Holds o p k → reports k (evaluate o p).kinds ≡ true
unfolding evaluate
Holds→reports o p cancelled h = ground (arith, str_eq_iff o.availability "cancelled")
Holds→reports o p rescheduled h = ground (
  arith,
  not_cancelled_of_moved o.availability,
  str_eq_iff o.availability "postponed",
  str_eq_iff o.availability "rescheduled",
)
Holds→reports o p k h = ground (
  arith,
  str_eq_iff o.availability "cancelled",
  str_eq_iff o.availability "postponed",
  str_eq_iff o.availability "rescheduled",
  Reached→sale_kinds o p k,
)

-- `evaluate` reports a milestone exactly when that milestone holds, for every observation and
-- prior state: cancellation and rescheduling only of an event that is not over; a sale milestone
-- only while the event is neither over, cancelled, postponed nor rescheduled; no open sale once
-- the sale's end has passed; and no presale or public opening that was not after the watch began.
pub evaluate-reports_iff :
    (o : Observation) (p : Prior) (k : Kind) → (reports k (evaluate o p).kinds ≡ true) ↔ Holds o p k
evaluate-reports_iff o p k = (reports→Holds o p k, Holds→reports o p k)
