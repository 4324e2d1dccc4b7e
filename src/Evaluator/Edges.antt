-- ===== src/Evaluator/Edges.antt =====
-- What `evaluate` says from one poll to the next: edges, repeats, and when a watch closes.
use ticket_watcher.Prelude.{
  ℕ, ◌≤◌, ◌≡◌, ◌≢◌, ◌↔◌, ◌⊎◌, true, none, str_eq, str_eq_iff, arith, count, List, [], ◌∷◌, not,
}
use ticket_watcher.Evaluator.{
  Kind, cancelled, onsale_announced, status_onsale, kind_text, Observation, Prior, is_nil,
  sale_kinds, evaluate,
}
use ticket_watcher.Evaluator.Spec.{reports, IsOver, evaluate-reports_iff}

-- A watch is closed exactly when its event is over or cancelled, and whenever it is closed the
-- report is empty or the cancellation alone.
pub evaluate-close_watch_iff :
    (o : Observation) (p : Prior)
    → (((evaluate o p).close_watch ≡ true) ↔ (IsOver o ⊎ (o.availability ≡ "cancelled")))
      × ((evaluate o p).close_watch ≡ true
          → ((evaluate o p).kinds ≡ []) ⊎ ((evaluate o p).kinds ≡ cancelled ∷ []))
unfolding evaluate
evaluate-close_watch_iff o p =
    (ground (arith, str_eq_iff o.availability "cancelled"), λ h. ground arith)

-- The fallback signal is the status test, on every branch.
pub evaluate-status_onsale :
    (o : Observation) (p : Prior) → (evaluate o p).status_onsale ≡ str_eq o.availability "onsale"
unfolding evaluate
evaluate-status_onsale o p = ground arith

-- Between two consecutive polls, whose second gets what the first left: the status fallback fires
-- only if the status became "onsale" in between, and an onsale date is announced only if it was
-- unknown before.
pub evaluate_edges :
    (o o' : Observation) (p p' : Prior)
    → p'.last_evaluation ≡ (evaluate o p).status_onsale
    → p'.knew_public_start ≡ not (is_nil o.public_start)
    → (reports status_onsale (evaluate o' p').kinds ≡ true
        → (o.availability ≢ "onsale") × (o'.availability ≡ "onsale"))
      × (reports onsale_announced (evaluate o' p').kinds ≡ true
          → (o.public_start ≡ none) × (o'.public_start ≢ none))
evaluate_edges o o' p p' e n = (
  λ h.
      let holds = (evaluate-reports_iff o' p' status_onsale).0 h in
      ground (arith, evaluate-status_onsale o p, str_eq_iff o.availability "onsale"),
  λ h. let holds = (evaluate-reports_iff o' p' onsale_announced).0 h in ground arith,
)

-- How often a milestone is listed.
abbrev pub times : Kind → List Kind → ℕ
times k = count (λ j. str_eq (kind_text j) (kind_text k))

sale_kinds-times_le_one : (o : Observation) (p : Prior) (k : Kind) → times k (sale_kinds o p) ≤ 1
unfolding sale_kinds
sale_kinds-times_le_one o p cancelled = ground arith
sale_kinds-times_le_one o p _ = ground arith

-- One poll lists no milestone twice.
pub evaluate-times_le_one :
    (o : Observation) (p : Prior) (k : Kind) → times k (evaluate o p).kinds ≤ 1
unfolding evaluate
evaluate-times_le_one o p cancelled = ground (arith, sale_kinds-times_le_one o p cancelled)
evaluate-times_le_one o p k = ground (arith, sale_kinds-times_le_one o p k)
