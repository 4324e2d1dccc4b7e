-- ===== src/Worker/Process/Alone.antt =====
-- Alone, a poll cut into moves does what ProcessEvent does.
use ticket_watcher.Prelude.{
  ℕ, ◌≡◌, refl, ap, ◌∙◌, Bool, true, false, Option, List, [], ◌∷◌, String, if◌then◌else◌, ◌||◌,
}
use ticket_watcher.Prelude.Outcome.{Outcome, ok, err}
use ticket_watcher.Evaluator.{Kind, Observation}
use ticket_watcher.Store.Models.{Event}
use ticket_watcher.Store.Query.{Query, DbError}
use ticket_watcher.Store.Watches.{ListActiveWatchesForEventRow}
use ticket_watcher.Ticketmaster.Types.{EventSnapshot}
use ticket_watcher.World as W
use ticket_watcher.World.{World, Action, Alert, query, follow, wrap, attempt}
use ticket_watcher.Worker.{
  Fetch, fetched, evaluate_watch, process_snapshot, alert_kinds, evaluate_each, poll_interval,
  process_event, record_change, evaluate_watches, Deps, Notifier, close_if, deliver, alert_kind,
  notify_with, observation_of, is_valid,
}
use ticket_watcher.Worker.Process.{
  Process, returns, asks, reads_clock, hands_over, ◌>>=◌, pure, throw, ask, ask_any, time_now, run,
}
use ticket_watcher.Worker.Process.Poll.{
  evaluating_each, alerting_kinds, polling_snapshot, recording_change, asking_interval, polling,
  fetching, evaluating_watches, evaluating_watch, closing_watches, delivering, alerting,
}

pub record Implements {E A : Type 0} (n : Option Notifier) (p : Process E A) (m : Action E A)
    : Type 0 where
  pub at : (w : World) → run n p w ≡ m w

module _ {E A B : Type 0} (n : Option Notifier) where
  run-bind :
      (p : Process E A) (f : A → Process E B) (w : World)
      → run n (p >>= f) w ≡ follow (λ a. run n (f a)) (run n p w).0 (run n p w).1
  unfolding run
  run-bind (returns (ok a)) f w = refl
  run-bind (returns (err e)) f w = refl
  run-bind (asks C q k) f w = run-bind (k (query q w).0) f (query q w).1
  run-bind (reads_clock k) f w = run-bind (k w.clock) f w
  run-bind (hands_over a p) f w = run-bind p f (notify_with n a w)

  follow-same :
      (g : A → Process E B) (h : A → Action E B)
      → ((a : A) → Implements n (g a) (h a))
      → (o : Outcome E A) (w : World) → follow (λ a. run n (g a)) o w ≡ follow h o w
  follow-same g h same (ok a) w = (same a).at w
  follow-same g h same (err e) w = refl

  Implements-bind :
      {p : Process E A} {m : Action E A} (g : A → Process E B) (h : A → Action E B)
      → Implements n p m
      → ((a : A) → Implements n (g a) (h a))
      → Implements n (p >>= g) (W.◌>>=◌ m h)
  unfolding W.◌>>=◌
  Implements-bind {p} {m} g h first then' = record {
    at = λ w.
        run-bind p g w
        ∙ ap (λ (o : Outcome E A × World). follow (λ a. run n (g a)) o.0 o.1) (first.at w)
        ∙ follow-same g h then' (m w).0 (m w).1;
  }

module _ (n : Option Notifier) {E A : Type 0} where
  Implements-pure : (a : A) → Implements {E = E} n (pure a) (W.pure a)
  unfolding run W.pure
  Implements-pure a = record { at = λ w. refl }

  Implements-throw : (e : E) → Implements {A = A} n (throw e) (W.throw e)
  unfolding run W.throw
  Implements-throw e = record { at = λ w. refl }

  Implements-ask : (f : DbError → E) (q : Query A) → Implements n (ask f q) (wrap f (query q))
  unfolding run wrap
  Implements-ask f q = record { at = λ w. refl }

  Implements-ask_any : (q : Query A) → Implements {E = E} n (ask_any q) (attempt (query q))
  unfolding run attempt
  Implements-ask_any q = record { at = λ w. refl }

  Implements-if :
      (b : Bool) (p q : Process E A) (m o : Action E A)
      → Implements n p m
      → Implements n q o
      → Implements n (if b then p else q) (if b then m else o)
  Implements-if true p q m o hp hq = hp
  Implements-if false p q m o hp hq = hq

Implements-time_now : (n : Option Notifier) {E : Type 0} → Implements {E = E} n time_now W.time_now
unfolding run W.time_now
Implements-time_now n = record { at = λ w. refl }

ruleset implementations = (
  Implements-bind, Implements-pure, Implements-throw, Implements-ask, Implements-ask_any,
  Implements-if, Implements-time_now,
)

closing_watches-Implements :
    (n : Option Notifier) (b : Bool) (i : ℕ) → Implements n (closing_watches b i) (close_if b i)
closing_watches-Implements n false i = search implementations
closing_watches-Implements n true i = search implementations

module _ (d : Deps) (ev : Event) (snap : EventSnapshot) (obs : Observation) where
  delivering-Implements :
      (row : ListActiveWatchesForEventRow) (k : Kind)
      → Implements d.notifier (delivering d ev snap obs row k) (deliver d ev snap obs row k)
  unfolding run deliver wrap W.◌>>=◌
  delivering-Implements row k = record { at = λ w. refl }

  alerting-Implements :
      (row : ListActiveWatchesForEventRow) (k : Kind)
      → Implements d.notifier (alerting d ev snap obs row k) (alert_kind d ev snap obs row k)
  unfolding alert_kind
  alerting-Implements row k = search (implementations, delivering-Implements)

  alerting_kinds-Implements :
      (row : ListActiveWatchesForEventRow) (ks : List Kind)
      → Implements d.notifier
          (alerting_kinds d ev snap obs row ks)
          (alert_kinds d ev snap obs row ks)
  unfolding alert_kinds
  alerting_kinds-Implements row [] = search implementations
  alerting_kinds-Implements row (k ∷ ks) =
      Implements-bind d.notifier _ _ (alerting-Implements row k)
        (λ _. alerting_kinds-Implements row ks)

  evaluating_watch-Implements :
      (knew : Bool) (row : ListActiveWatchesForEventRow)
      → Implements d.notifier
          (evaluating_watch d ev snap obs knew row)
          (evaluate_watch d ev snap obs knew row)
  unfolding evaluate_watch
  evaluating_watch-Implements knew row =
      Implements-bind d.notifier _ _ (alerting_kinds-Implements row _) (λ _. search implementations)

  evaluating_each-Implements :
      (knew close : Bool) (rows : List ListActiveWatchesForEventRow)
      → Implements d.notifier
          (evaluating_each d ev snap obs knew close rows)
          (evaluate_each d ev snap obs knew close rows)
  unfolding evaluate_each
  evaluating_each-Implements knew close [] = search implementations
  evaluating_each-Implements knew close (row ∷ rows) =
      Implements-bind d.notifier _ _ (evaluating_watch-Implements knew row)
        (λ c. evaluating_each-Implements knew (c || close) rows)

  evaluating_watches-Implements :
      (knew : Bool)
      → Implements d.notifier
          (evaluating_watches d ev snap obs knew)
          (evaluate_watches d ev snap obs knew)
  unfolding evaluate_watches
  evaluating_watches-Implements knew =
      Implements-bind d.notifier _ _ (Implements-ask d.notifier _ _) λ rows.
        Implements-bind d.notifier _ _ (evaluating_each-Implements knew false rows)
          (λ b. closing_watches-Implements d.notifier b ev.id)

fetching-Implements :
    (n : Option Notifier) (r : Outcome String EventSnapshot) → Implements n (fetching r) (fetched r)
fetching-Implements n (ok snap) = Implements-pure n snap
fetching-Implements n (err e) = Implements-throw n _

recording_change-Implements :
    (n : Option Notifier) (i : ℕ) (ev : Event) (s : String)
    → Implements n (recording_change i ev s) (record_change i ev s)
unfolding record_change
recording_change-Implements n i ev s = search implementations

asking_interval-Implements :
    (n : Option Notifier) (i : ℕ) → Implements n (asking_interval i) (poll_interval i)
unfolding poll_interval
asking_interval-Implements n i = search implementations

polling_snapshot-Implements :
    (d : Deps) (i : ℕ) (ev : Event) (snap : EventSnapshot)
    → Implements d.notifier (polling_snapshot d i ev snap) (process_snapshot d i ev snap)
unfolding process_snapshot
polling_snapshot-Implements d i ev snap =
    Implements-bind d.notifier _ _ (recording_change-Implements d.notifier i ev snap.availability)
      λ _. Implements-bind d.notifier _ _ (asking_interval-Implements d.notifier i) λ interval.
        Implements-bind d.notifier _ _ (Implements-time_now d.notifier) λ now.
          Implements-bind d.notifier _ _ (Implements-ask d.notifier _ _) λ _.
            Implements-bind d.notifier _ _ (Implements-time_now d.notifier) λ later.
              evaluating_watches-Implements d ev snap (observation_of ev snap later)
                (is_valid ev.public_onsale_at)

-- Run without a break, the moves of a poll do exactly what ProcessEvent does, in every world: they
-- return or fail alike, and leave the same world.
pub run-polling :
    (d : Deps) (fetch : Fetch) (event_id : ℕ) (w : World)
    → run d.notifier (polling d fetch event_id) w ≡ process_event d fetch event_id w
unfolding process_event polling
run-polling d fetch event_id w =
    (Implements-bind d.notifier _ _ (Implements-ask d.notifier _ _) λ ev.
        Implements-bind d.notifier _ _ (fetching-Implements d.notifier (fetch ev.tm_event_id))
          (λ snap. polling_snapshot-Implements d event_id ev snap)).at
      w
