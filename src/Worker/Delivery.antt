-- ===== src/Worker/Delivery.antt =====
-- One row after another: in a poll in which nothing fails, every milestone that is reported is
-- handed over.
pub mod Statements
pub mod Poll
pub mod Whole
use ticket_watcher.Prelude.{
  ℕ, ◌≡◌, ◌∙◌, refl, Bool, true, false, not, ◌&&◌, ◌||◌, Option, none, some, List, [], ◌∷◌, String,
  str_eq, ◌==◌, any, arith, Bool-cases, inl, inr, if◌then◌else◌, All,
}
use ticket_watcher.Prelude.Outcome.{ok}
use ticket_watcher.Evaluator.{Kind, kind_text, Observation, evaluate}
use ticket_watcher.Store.Models.{Event, Db}
use ticket_watcher.Store.Watches.{
  has_watch, is_claimed, set_last_evaluation, ListActiveWatchesForEventRow, mark_notified,
}
use ticket_watcher.Ticketmaster.Types.{EventSnapshot}
use ticket_watcher.World.{◌>>=◌, World, Alert, pure, query, run_}
use ticket_watcher.World.Runs.{
  Condition, Runs, Runs-pure, Runs-if_of, Runs-wrap, Runs-bind, Runs-weaken,
}
use ticket_watcher.Worker.{
  Deps, Notifier, claim, deliver, alert_kind, alert_kinds, prior_for, evaluate_watch, evaluate_each,
  is_withheld, notify_with, alert_for, mark_notified_failed, set_last_evaluation_failed,
}
use ticket_watcher.Worker.Quiet.{IsQuiet}
use ticket_watcher.Worker.Once.Statements.{is_call_for}
use ticket_watcher.Worker.Delivery.Statements.{
  Due, Cleared, is_mine, claim-Cleared, mark_notified-Due, set_last_evaluation-Due,
  close_watches_for_event-Due, weaken-Due, notify_with-Due,
}

or_false : (a : Bool) → (a || false) ≡ a
or_false a = ground arith

or_assoc : (a b c : Bool) → ((a || b) || c) ≡ (a || (b || c))
or_assoc a b c = ground arith

module _ (db₀ : Db) (id : ℕ) (kind : String) (n : Notifier) (url : Option (ℕ → String)) (ev : Event)
    (snap : EventSnapshot) (obs : Observation) where
  abbrev deps : Deps
  deps = record { notifier = some n; unsubscribe_url = url }

  -- The row's watch exists, and if it is the pair's it may be mailed.
  abbrev pub IsReady : ListActiveWatchesForEventRow → Type 0
  IsReady row = (has_watch row.id db₀ ≡ true) × (row.id ≡ id → is_withheld row ≡ false)

  deliver-Due :
      (done : Bool) (c : ℕ) (row : ListActiveWatchesForEventRow) (k : Kind)
      → IsQuiet n
      → Runs
          (Cleared db₀ id kind done (is_mine db₀ id kind row.id (kind_text k)) c)
          (deliver deps ev snap obs row k)
          (λ _. Due db₀ id kind (done || is_mine db₀ id kind row.id (kind_text k)))
  unfolding deliver ◌>>=◌
  deliver-Due done c row k quiet = record {
    at = λ w p.
        (Runs-wrap mark_notified_failed _ (
            mark_notified-Due db₀ id kind (done || is_mine db₀ id kind row.id (kind_text k))
              row.id)).at
          (notify_with (some n) (alert_for deps ev snap obs row k) w)
          (notify_with-Due db₀ id kind n (alert_for deps ev snap obs row k) done
            (is_mine db₀ id kind row.id (kind_text k)) c w quiet (λ m. m) p);
  }

  alert_kind-Due :
      (done : Bool) (row : ListActiveWatchesForEventRow) (k : Kind)
      → IsQuiet n
      → IsReady row
      → Runs
          (Due db₀ id kind done)
          (alert_kind deps ev snap obs row k)
          (λ _. Due db₀ id kind (done || is_mine db₀ id kind row.id (kind_text k)))
  unfolding alert_kind
  alert_kind-Due done row k quiet ready =
      Runs-bind _ _ _ _ _ (claim-Cleared db₀ id kind done row k ready.0) λ c.
        Runs-if_of (c == 0 || is_withheld row) _ _
          (λ stop. Runs-pure tt λ w p. record {
            calm = p.calm;
            known = p.known;
            due = ground (arith, p.cleared, ready.1);
          })
          (λ go. deliver-Due done c row k quiet)

  -- The row reports the pair's milestone.
  abbrev pub is_listed : ListActiveWatchesForEventRow → List Kind → Bool
  is_listed row ks = any (λ k. is_mine db₀ id kind row.id (kind_text k)) ks

  alert_kinds-Due :
      (done : Bool) (row : ListActiveWatchesForEventRow) (ks : List Kind)
      → IsQuiet n
      → IsReady row
      → Runs
          (Due db₀ id kind done)
          (alert_kinds deps ev snap obs row ks)
          (λ _. Due db₀ id kind (done || is_listed row ks))
  unfolding alert_kinds
  alert_kinds-Due done row [] quiet ready = Runs-pure tt (λ w p. rw (or_false done) p)
  alert_kinds-Due done row (k ∷ ks) quiet ready =
      Runs-bind _ _ _ _ _ (alert_kind-Due done row k quiet ready) λ _.
        rw (or_assoc done (is_mine db₀ id kind row.id (kind_text k)) (is_listed row ks)) at
          (alert_kinds-Due (done || is_mine db₀ id kind row.id (kind_text k)) row ks quiet ready)

  abbrev pub is_reported : Bool → ListActiveWatchesForEventRow → Bool
  is_reported knew row = is_listed row (evaluate obs (prior_for deps ev snap obs knew row)).kinds

  evaluate_watch-Due :
      (done knew : Bool) (row : ListActiveWatchesForEventRow)
      → IsQuiet n
      → IsReady row
      → Runs
          (Due db₀ id kind done)
          (evaluate_watch deps ev snap obs knew row)
          (λ _. Due db₀ id kind (done || is_reported knew row))
  unfolding evaluate_watch
  evaluate_watch-Due done knew row quiet ready =
      Runs-bind _ _ _ _ _ (alert_kinds-Due done row _ quiet ready) λ _.
        Runs-bind _ _ _ _ _
          (Runs-wrap set_last_evaluation_failed _ (set_last_evaluation-Due _ _ _ _ row.id _))
          λ _. Runs-pure _ (λ w p. p)

  evaluate_each-Due :
      (done knew close : Bool) (rows : List ListActiveWatchesForEventRow)
      → IsQuiet n
      → All IsReady rows
      → Runs
          (Due db₀ id kind done)
          (evaluate_each deps ev snap obs knew close rows)
          (λ _. Due db₀ id kind (done || any (is_reported knew) rows))
  unfolding evaluate_each
  evaluate_each-Due done knew close [] quiet ready = Runs-pure close (λ w p. rw (or_false done) p)
  evaluate_each-Due done knew close (row ∷ rows) quiet ready =
      Runs-bind _ _ _ _ _ (evaluate_watch-Due done knew row quiet ready.0) λ c.
        rw (or_assoc done (is_reported knew row) (any (is_reported knew) rows)) at
          (evaluate_each-Due (done || is_reported knew row) knew (c || close) rows quiet ready.1)
