-- ===== src/Evaluator/Tests.antt =====
-- The evaluator at concrete observations: instants are small numbers.
use ticket_watcher.Prelude.{◌≡◌, ◌≢◌, ◌↔◌, ◌⊎◌, refl, true, false, none, some, [], ◌∷◌}
use ticket_watcher.Evaluator.{
  cancelled, presale_open, public_open, onsale_announced, sale_closed, status_onsale, Observation,
  Prior, evaluate,
}
use ticket_watcher.Evaluator.Spec.{reports, IsOver, Holds, evaluate-reports_iff}
use ticket_watcher.Evaluator.Edges.{evaluate-close_watch_iff, evaluate_edges}

-- At 100: on sale since 90, a presale since 80, the event at 500.
abbrev open_now : Observation
open_now = record {
  now = 100;
  availability = "onsale";
  public_start = some 90;
  public_end = some 400;
  onsale_tbd = false;
  earliest_presale = some 80;
  event_date = some 500;
}

-- The watch began at 85, between the two openings.
abbrev watched : Prior
watched = record { knew_public_start = true; last_evaluation = false; watch_created_at = 85 }

only_the_public_opening : (evaluate open_now watched).kinds ≡ public_open ∷ []
unfolding evaluate
only_the_public_opening = refl

both_openings :
    (evaluate open_now (record watched { watch_created_at = 0 })).kinds
    ≡ presale_open ∷ public_open ∷ []
unfolding evaluate
both_openings = refl

announced_and_closed :
    (evaluate
      (record open_now { public_start = some 120; public_end = some 60 })
      (record watched { knew_public_start = false })).kinds
    ≡ onsale_announced ∷ sale_closed ∷ []
unfolding evaluate
announced_and_closed = refl

over_reports_nothing : (evaluate (record open_now { event_date = some 99 }) watched).kinds ≡ []
unfolding evaluate
over_reports_nothing = refl

evaluate-reports_iff_example :
    (reports public_open (evaluate open_now watched).kinds ≡ true)
    ↔ Holds open_now watched public_open
evaluate-reports_iff_example = evaluate-reports_iff open_now watched public_open

abbrev called_off : Observation
called_off = record open_now { availability = "cancelled" }

evaluate-close_watch_iff_example :
    (((evaluate called_off watched).close_watch ≡ true)
      ↔ (IsOver called_off ⊎ (called_off.availability ≡ "cancelled")))
    × ((evaluate called_off watched).close_watch ≡ true
        → ((evaluate called_off watched).kinds ≡ [])
          ⊎ ((evaluate called_off watched).kinds ≡ cancelled ∷ []))
evaluate-close_watch_iff_example = evaluate-close_watch_iff called_off watched

-- Off sale with no date, and later on sale with no date: the flip fires.
abbrev before_flip : Observation
before_flip = record open_now { availability = "offsale"; public_start = none }

abbrev after_flip : Observation
after_flip = record open_now { now = 110; public_start = none }

abbrev undated : Prior
undated = record watched { knew_public_start = false }

flip_fires : reports status_onsale (evaluate after_flip undated).kinds ≡ true
unfolding evaluate
flip_fires = refl

evaluate_edges_example :
    (reports status_onsale (evaluate after_flip undated).kinds ≡ true
      → (before_flip.availability ≢ "onsale") × (after_flip.availability ≡ "onsale"))
    × (reports onsale_announced (evaluate after_flip undated).kinds ≡ true
        → (before_flip.public_start ≡ none) × (after_flip.public_start ≢ none))
unfolding evaluate
evaluate_edges_example = evaluate_edges before_flip after_flip undated undated refl refl
