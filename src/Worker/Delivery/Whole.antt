-- ===== src/Worker/Delivery/Whole.antt =====
-- ProcessEvent, when nothing fails in it.
use ticket_watcher.Prelude.{
  ◌≤◌, ◌+◌, [], ◌∷◌, ◌==◌, find?, any, List, ℕ, ◌≡◌, refl, Bool, true, false, Option, some, String,
  arith, All,
}
use ticket_watcher.Prelude.Instant.{Instant}
use ticket_watcher.Store.Models.{Event}
use ticket_watcher.Store.Watches.{
  is_claimed, ListActiveWatchesForEventRow, min_poll_interval_for_event,
}
use ticket_watcher.Store.Events.{
  get_event, has_event, update_event_latest, insert_availability_snapshot, UpdateEventLatestParams,
}
use ticket_watcher.Ticketmaster.Types.{EventSnapshot}
use ticket_watcher.World.{World, query}
use ticket_watcher.World.Runs.{
  Runs-of_fact, Ended_unit, Runs-time_now, IsCalm, Runs, Runs-pure, Runs-if_of, Runs-wrap,
  Runs-bind, Runs-query, Lasts, IsCalm-Lasts, time_of, Runs-attempt, weaken-Ended,
}
use ticket_watcher.Worker.{
  get_event_failed, ok, Fetch, process_event, update_event_failed, is_valid, process_snapshot, Deps,
  Notifier, evaluate_watches, is_withheld, changed, record_change, poll_interval, observation_of,
  insert_snapshot_failed,
}
use ticket_watcher.Worker.Quiet.{IsQuiet}
use ticket_watcher.Worker.Delivery.{Runs-weaken, Due, is_reported}
use ticket_watcher.Worker.Delivery.Statements.{is_handed_over}
use ticket_watcher.Worker.Delivery.Poll.{listed, evaluate_watches-Due}

find?-any :
    {A : Type 0} (p : A → Bool) (xs : List A) (x : A) → find? p xs ≡ some x → any p xs ≡ true
find?-any p [] x h = ground arith
find?-any p (y ∷ xs) x h = ground (arith, find?-any p xs x)

module _ (w₀ : World) where
  -- Nothing failed, no more time passed than the script says, and the poll has only touched events
  -- and snapshots.
  pub record Same (w : World) : Type 0 where
    pub calm : IsCalm w
    pub since : w₀.clock ≤ w.clock
    pub until : w.clock + time_of w.script ≤ w₀.clock + time_of w₀.script
    pub same_users : w.db.users ≡ w₀.db.users
    pub same_watches : w.db.watches ≡ w₀.db.watches
    pub same_alerts : w.db.watch_alerts ≡ w₀.db.watch_alerts
    pub same_calls : w.notify_calls ≡ w₀.notify_calls

  Same-Lasts : Lasts Same
  Same-Lasts w t ts e s = record {
    calm = IsCalm-Lasts w t ts e s.calm;
    since = omega (arith, s.since);
    until = omega (arith, rw e at s.until);
    same_users = s.same_users;
    same_watches = s.same_watches;
    same_alerts = s.same_alerts;
    same_calls = s.same_calls;
  }

  -- And the event is there.
  abbrev Found : ℕ → World → Type 0
  Found event_id w = Same w × (has_event event_id w.db ≡ true)

  Found-Lasts : (event_id : ℕ) → Lasts (Found event_id)
  Found-Lasts event_id w t ts e p = (Same-Lasts w t ts e p.0, p.1)

  insert_snapshot-Found :
      (event_id : ℕ) (s : Option String)
      → Runs
          (Found event_id)
          (query (insert_availability_snapshot event_id s))
          (λ _. Found event_id)
  unfolding insert_availability_snapshot
  insert_snapshot-Found event_id s =
      Runs-query _ (λ w p. p.0.calm) (Found-Lasts event_id)
        λ w p. rw p.1 (
          record {
            calm = p.0.calm;
            since = p.0.since;
            until = p.0.until;
            same_users = p.0.same_users;
            same_watches = p.0.same_watches;
            same_alerts = p.0.same_alerts;
            same_calls = p.0.same_calls;
          },
          p.1,
        )

  record_change-Found :
      (event_id : ℕ) (ev : Event) (s : String)
      → Runs (Found event_id) (record_change event_id ev s) (λ _. Found event_id)
  unfolding record_change
  record_change-Found event_id ev s =
      Runs-if_of (changed ev s) _ _
        (λ yes.
          Runs-bind _ _ _ _ _
            (Runs-wrap insert_snapshot_failed _ (insert_snapshot-Found event_id (some s)))
            (λ _. Runs-pure tt (λ w p. p)))
        (λ no. Runs-pure tt (λ w p. p))

  poll_interval-Found :
      (event_id : ℕ) → Runs (Found event_id) (poll_interval event_id) (λ _. Found event_id)
  unfolding poll_interval min_poll_interval_for_event
  poll_interval-Found event_id =
      Runs-bind _ (λ _. Found event_id) _ _ _
        (Runs-attempt _ _ _ (Runs-query _ (λ w p. p.0.calm) (Found-Lasts event_id) (λ w p. p)))
        (λ r. Runs-pure _ (λ w p. p))

  update_event_latest-Same :
      (event_id : ℕ) (p : UpdateEventLatestParams)
      → Runs (Found event_id) (query (update_event_latest p)) (λ _. Same)
  unfolding update_event_latest
  update_event_latest-Same event_id p =
      Runs-query _ (λ w s. s.0.calm) (Found-Lasts event_id)
        λ w s. record {
          calm = s.0.calm;
          since = s.0.since;
          until = s.0.until;
          same_users = s.0.same_users;
          same_watches = s.0.same_watches;
          same_alerts = s.0.same_alerts;
          same_calls = s.0.same_calls;
        }

module _ (w₀ : World) (id : ℕ) (kind : String) (n : Notifier) (url : Option (ℕ → String))
    (ev : Event) (snap : EventSnapshot) where
  -- Evaluate reports the milestone for a watch of the event, at an instant.
  abbrev IsReportedAt : Bool → Instant → Type 0
  IsReportedAt knew t =
      any (is_reported w₀.db id kind n url ev snap (observation_of ev snap t) knew)
        (listed ev.id w₀.db)
      ≡ true

  -- And it does at every instant at which the poll may come to evaluate.
  abbrev pub IsReportedThroughout : Bool → Type 0
  IsReportedThroughout knew =
      (t : Instant) → w₀.clock ≤ t → t ≤ w₀.clock + time_of w₀.script → IsReportedAt knew t

  abbrev deps : Deps
  deps = record { notifier = some n; unsubscribe_url = url }

  evaluate_watches-delivers :
      (knew : Bool) (now : Instant)
      → IsQuiet n
      → All
          (λ (row : ListActiveWatchesForEventRow). row.id ≡ id → is_withheld row ≡ false)
          (listed ev.id w₀.db)
      → IsReportedThroughout knew
      → is_claimed id kind w₀.db ≡ false
      → Runs
          (λ w. (now ≡ w.clock) × Same w₀ w)
          (evaluate_watches deps ev snap (observation_of ev snap now) knew)
          (λ _ w. is_handed_over id kind w ≡ true)
  evaluate_watches-delivers knew now quiet open_gates reported unclaimed = record {
    at = λ w p.
        let in_time =
          reported now (omega (arith, p.0, p.1.since)) (omega (arith, p.0, p.1.until)) in
        let due : Due w.db id kind false w = record {
          calm = p.1.calm;
          known = λ i. refl;
          due = rw (p.1.same_alerts, unclaimed) (ground arith);
        } in
        weaken-Ended (λ x x'. is_handed_over id kind x' ≡ true) (λ x. Due w.db id kind true)
          (λ a w' d. ground (arith, d.due)) _ _
          ((evaluate_watches-Due w.db id kind n url ev snap (observation_of ev snap now) knew quiet
              (rw (p.1.same_users, p.1.same_watches) open_gates)
              (rw (p.1.same_users, p.1.same_watches) in_time)).at
            w (due, refl));
  }

  get_event-Found :
      (event_id : ℕ)
      → find? (λ (e : Event). e.id == event_id) w₀.db.events.rows ≡ some ev
      → Runs
          (λ w. Same w₀ w × (w.db.events ≡ w₀.db.events))
          (query (get_event event_id))
          (λ e w. (e ≡ ev) × Found w₀ event_id w)
  unfolding get_event
  get_event-Found event_id found =
      Runs-query _ (λ w p. p.0.calm) (λ w t ts e p. (Same-Lasts w₀ w t ts e p.0, p.1))
        λ w p.
          let there : find? (λ (e : Event). e.id == event_id) w.db.events.rows ≡ some ev =
            rw p.1 found in
          rw there (refl, (p.0, find?-any _ w.db.events.rows ev there))

  process_snapshot-delivers :
      (event_id : ℕ)
      → IsQuiet n
      → All
          (λ (row : ListActiveWatchesForEventRow). row.id ≡ id → is_withheld row ≡ false)
          (listed ev.id w₀.db)
      → IsReportedThroughout (is_valid ev.public_onsale_at)
      → is_claimed id kind w₀.db ≡ false
      → Runs
          (Found w₀ event_id)
          (process_snapshot deps event_id ev snap)
          (λ _ w. is_handed_over id kind w ≡ true)
  unfolding process_snapshot
  process_snapshot-delivers event_id quiet open_gates reported unclaimed =
      Runs-bind _ _ _ _ _ (record_change-Found w₀ event_id ev snap.availability) λ _.
        Runs-bind _ _ _ _ _ (poll_interval-Found w₀ event_id) λ interval.
          Runs-bind _ (λ _. Found w₀ event_id) _ _ _
            (Runs-weaken _ _ _ _ _ Runs-time_now (λ w p. p) (λ t w p. p.1))
            λ now.
              Runs-bind _ _ _ _ _
                (Runs-wrap update_event_failed _ (update_event_latest-Same w₀ event_id _))
                λ _. Runs-bind _ _ _ _ _ Runs-time_now λ later.
                  evaluate_watches-delivers (is_valid ev.public_onsale_at) later quiet open_gates
                    reported unclaimed

  -- In a poll in which nothing fails, however long its calls take, an alert that is reported is handed
  -- over: the poll returns without an error, and the alert of the milestone is among those that the
  -- notifier was given, for a watch whose rows all pass the consent gates, when the milestone is one
  -- that Evaluate reports for it at every instant from the start of the poll until all the time of the
  -- script has passed, and its claim has not been taken. The event is in the table and the client
  -- answers with a snapshot of it; the notifier is quiet.
  pub process_event-delivers :
      (fetch : Fetch) (event_id : ℕ)
      → IsQuiet n
      → IsCalm w₀
      → find? (λ (e : Event). e.id == event_id) w₀.db.events.rows ≡ some ev
      → fetch ev.tm_event_id ≡ ok snap
      → All
          (λ (row : ListActiveWatchesForEventRow). row.id ≡ id → is_withheld row ≡ false)
          (listed ev.id w₀.db)
      → IsReportedThroughout (is_valid ev.public_onsale_at)
      → is_claimed id kind w₀.db ≡ false
      → let (r, w) = process_event deps fetch event_id w₀ in
        (r ≡ ok tt) × (is_handed_over id kind w ≡ true)
  unfolding process_event
  process_event-delivers fetch event_id quiet calm found answered open_gates reported unclaimed =
      let start : Same w₀ w₀ = record {
        calm = calm;
        since = omega arith;
        until = omega arith;
        same_users = refl;
        same_watches = refl;
        same_alerts = refl;
        same_calls = refl;
      } in
      Ended_unit (λ w. is_handed_over id kind w ≡ true) _ _
        ((Runs-bind _ _ _ _ _ (Runs-wrap get_event_failed _ (get_event-Found event_id found)) λ e.
            Runs-of_fact _ _ _ _ λ same.
              rw (same, answered)
                (Runs-bind (Found w₀ event_id) (λ s w. (s ≡ snap) × Found w₀ event_id w) _ _ _
                  (Runs-pure snap (λ w p. (refl, p)))
                  (λ s. Runs-of_fact _ _ _ _ λ e.
                    rw e
                      (process_snapshot-delivers event_id quiet open_gates reported unclaimed)))).at
          w₀ (start, refl))
