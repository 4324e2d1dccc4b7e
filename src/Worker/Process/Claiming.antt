-- ===== src/Worker/Process/Claiming.antt =====
-- Every poll hands an alert over only with a claim that it has won.
use ticket_watcher.Prelude.{
  some, ℕ, ◌+◌, ◌*◌, ◌≡◌, ◌≢◌, ◌⊎◌, inl, inr, refl, Bool, true, false, ◌||◌, List, [], ◌∷◌, String,
  str_eq, str_eq_iff, ◌==◌, arith, if◌then◌else◌, Bool-cases,
}
use ticket_watcher.Prelude.Instant.{Instant, second}
use ticket_watcher.Prelude.Outcome.{Outcome, ok, err, map_err}
use ticket_watcher.Evaluator.{Kind, kind_text, status_onsale, Observation, evaluate}
use ticket_watcher.Store.Models.{Db, Event}
use ticket_watcher.Store.Query.{DbError}
use ticket_watcher.Store.Claims.{is_spent, claim_watch_alert_lem}
use ticket_watcher.Store.Ids.{
  claim_watch_alert-Respects, mark_notified-Respects, set_last_evaluation-Respects,
  close_watches_for_event-Respects, update_event_latest-Respects,
  insert_availability_snapshot-Respects,
}
use ticket_watcher.Store.Events.{get_event, update_event_latest, UpdateEventLatestParams}
use ticket_watcher.Store.Watches.{
  ListActiveWatchesForEventRow, claim_watch_alert, list_active_watches_for_event,
  min_poll_interval_for_event, set_last_evaluation,
}
use ticket_watcher.Ticketmaster.Types.{EventSnapshot}
use ticket_watcher.Worker.{
  is_valid, observation_of, changed, latest_params, Deps, WorkerError, claim_failed, alert_for,
  is_withheld, Fetch, needs_claim, prior_for, set_last_evaluation_failed, update_event_failed,
}
use ticket_watcher.Worker.Once.Statements.{is_call_for}
use ticket_watcher.Worker.Process.{returns, pure, ◌>>=◌, ask}
use ticket_watcher.Worker.Process.Poll.{
  Goroutine, closing_watches, delivering, alerting, alerting_kinds, evaluating_watch,
  evaluating_each, evaluating_watches, recording_change, asking_interval, fetching,
  polling_snapshot, polling,
}
use ticket_watcher.Worker.Process.Safe.{
  Safe, IsSafe, IsSafe-bind, IsSafe-returns, IsSafe-if, IsSafe-ask, IsSafe-hands_over,
  IsSafe-ask_any, IsSafe-time_now,
}

module _ (id : ℕ) (kind : String) where
  module _ (d : Deps) (ev : Event) (snap : EventSnapshot) (obs : Observation)
      (row : ListActiveWatchesForEventRow) where
    abbrev mine : Kind → Bool
    mine k = is_call_for id kind (alert_for d ev snap obs row k)

    delivering-IsSafe :
        (c : Bool) (k : Kind)
        → (mine k ≡ true → c ≡ true)
        → IsSafe id kind c (delivering d ev snap obs row k)
    delivering-IsSafe c k credit =
        IsSafe-hands_over id kind c _ _ credit
          (IsSafe-ask id kind false _ _ (λ now db. mark_notified-Respects id kind now db row.id))

    -- What follows the claim.
    abbrev proceeding : Kind → ℕ → Goroutine (Unit {0})
    proceeding k claimed =
        if claimed == 0 || is_withheld row then pure tt else delivering d ev snap obs row k

    proceeding-IsSafe :
        (c : Bool) (k : Kind) (claimed : ℕ)
        → (claimed ≢ 0 → mine k ≡ true → c ≡ true)
        → IsSafe id kind c (proceeding k claimed)
    proceeding-IsSafe c k claimed credit = elim (Bool-cases (claimed == 0 || is_withheld row)) [
      | inl stop ↦ rw stop (IsSafe-returns id kind c _)
      | inr go ↦ rw go (delivering-IsSafe c k (credit (λ z. ground (arith, z, go))))
    ]

    -- What follows the answer to the claim.
    abbrev claimed : Kind → Outcome DbError ℕ → Goroutine (Unit {0})
    claimed k r = returns (map_err (claim_failed k) r) >>= proceeding k

    claimed-IsSafe :
        (c : Bool) (k : Kind) (r : Outcome DbError ℕ)
        → ((n : ℕ) → r ≡ ok n → n ≢ 0 → mine k ≡ true → c ≡ true)
        → IsSafe id kind c (claimed k r)
    claimed-IsSafe c k (ok n) credit = proceeding-IsSafe c k n (credit n refl)
    claimed-IsSafe c k (err e) credit = IsSafe-returns id kind c _

    -- What a claim of any pair does.
    abbrev IsWonOrLost : Kind → Instant → Db → Outcome DbError ℕ → Db → Type 0
    IsWonOrLost k now db r db' =
        Safe id kind false (claimed k r)
        ⊎ ((is_spent id kind db ≡ false)
            × (is_spent id kind db' ≡ true)
            × Safe id kind true (claimed k r))

    own_claim :
        (k : Kind) (now : Instant) (db : Db) (i : ℕ) (s : String)
        → i ≡ id
        → s ≡ kind
        → let (r, db') = claim_watch_alert i s now db in IsWonOrLost k now db r db'
    own_claim k now db i s same_id same_kind =
        let (r, db') = claim_watch_alert id kind now db in
        rw (same_id, same_kind)
          (elim (claim_watch_alert_lem id kind now db) [
            | inl won ↦ inr (won.1, won.2, (claimed-IsSafe true k r (λ n e nz own. refl)).at)
            | inr lost ↦
                inl (claimed-IsSafe false k r (λ n e nz own. ground (arith, lost.0, e, nz))).at
          ])

    some_claim :
        (k : Kind) (own : Bool) (now : Instant) (db : Db)
        → mine k ≡ own
        → let (r, db') = claim_watch_alert row.id (kind_text k) now db in IsWonOrLost k now db r db'
    some_claim k false now db other =
        inl
          (claimed-IsSafe false k (claim_watch_alert row.id (kind_text k) now db).0
            (λ n e nz own. ground (arith, other, own))).at
    some_claim k true now db own =
        own_claim k now db row.id (kind_text k) (ground (arith, own))
          (ground (arith, own, str_eq_iff (kind_text k) kind))

    alerting-IsSafe :
        (k : Kind)
        → str_eq kind (kind_text status_onsale) ≡ false
        → IsSafe id kind false (alerting d ev snap obs row k)
    alerting-IsSafe k ne = elim (Bool-cases (needs_claim k)) [
      | inl e ↦ rw e (record {
        at = (
          tt,
          λ now db. (
            claim_watch_alert-Respects id kind now db row.id (kind_text k),
            some_claim k _ now db refl,
          ),
        );
      })
      | inr e ↦ rw e (
          proceeding-IsSafe false k 1 (λ nz own. ground (
            arith,
            e,
            own,
            ne,
            str_eq_iff (kind_text k) kind,
            str_eq_iff (kind_text k) (kind_text status_onsale),
            str_eq_iff kind (kind_text status_onsale),
          )))
    ]

  module _ (d : Deps) (ne : str_eq kind (kind_text status_onsale) ≡ false) where
    module _ (ev : Event) (snap : EventSnapshot) (obs : Observation) where
      alerting_kinds-IsSafe :
          (row : ListActiveWatchesForEventRow) (ks : List Kind)
          → IsSafe id kind false (alerting_kinds d ev snap obs row ks)
      alerting_kinds-IsSafe row [] = IsSafe-returns id kind false _
      alerting_kinds-IsSafe row (k ∷ ks) =
          IsSafe-bind id kind false _ _ (alerting-IsSafe d ev snap obs row k ne)
            (λ _. alerting_kinds-IsSafe row ks)

      set_last-IsSafe :
          (f : DbError → WorkerError) (i : ℕ) (b : Bool)
          → IsSafe id kind false (ask f (set_last_evaluation i b))
      set_last-IsSafe f i b =
          IsSafe-ask id kind false f _ (λ now db. set_last_evaluation-Respects id kind now db i b)

      evaluating_watch-IsSafe :
          (knew : Bool) (row : ListActiveWatchesForEventRow)
          → IsSafe id kind false (evaluating_watch d ev snap obs knew row)
      evaluating_watch-IsSafe knew row =
          let res = evaluate obs (prior_for d ev snap obs knew row) in
          IsSafe-bind id kind false _ _ (alerting_kinds-IsSafe row res.kinds) λ _.
            IsSafe-bind id kind false _ _
              (set_last-IsSafe set_last_evaluation_failed row.id res.status_onsale)
              (λ _. IsSafe-returns id kind false (ok res.close_watch))

      evaluating_each-IsSafe :
          (knew close : Bool) (rows : List ListActiveWatchesForEventRow)
          → IsSafe id kind false (evaluating_each d ev snap obs knew close rows)
      evaluating_each-IsSafe knew close [] = IsSafe-returns id kind false _
      evaluating_each-IsSafe knew close (row ∷ rows) =
          IsSafe-bind id kind false _ _ (evaluating_watch-IsSafe knew row)
            (λ c. evaluating_each-IsSafe knew (c || close) rows)

      closing_watches-IsSafe : (b : Bool) (i : ℕ) → IsSafe id kind false (closing_watches b i)
      closing_watches-IsSafe false i = IsSafe-returns id kind false _
      closing_watches-IsSafe true i =
          IsSafe-bind id kind false _ _
            (IsSafe-ask id kind false _ _
              (λ now db. close_watches_for_event-Respects id kind now db i))
            (λ _. IsSafe-returns id kind false _)

      listing-IsSafe :
          (f : DbError → WorkerError) (i : ℕ)
          → IsSafe id kind false (ask f (list_active_watches_for_event i))
      unfolding list_active_watches_for_event
      listing-IsSafe f i = IsSafe-ask id kind false f _ (λ now db known. (λ h. h, known))

      evaluating_watches-IsSafe :
          (knew : Bool) → IsSafe id kind false (evaluating_watches d ev snap obs knew)
      evaluating_watches-IsSafe knew =
          IsSafe-bind id kind false _ _ (listing-IsSafe _ ev.id) λ rows.
            IsSafe-bind id kind false _ _ (evaluating_each-IsSafe knew false rows)
              (λ b. closing_watches-IsSafe b ev.id)

    recording_change-IsSafe :
        (i : ℕ) (ev : Event) (s : String) → IsSafe id kind false (recording_change i ev s)
    recording_change-IsSafe i ev s =
        IsSafe-if id kind false (changed ev s) _ _
          (IsSafe-bind id kind false _ _
            (IsSafe-ask id kind false _ _
              (λ now db. insert_availability_snapshot-Respects id kind now db i (some s)))
            (λ _. IsSafe-returns id kind false _))
          (IsSafe-returns id kind false _)

    asking_interval-IsSafe : (i : ℕ) → IsSafe id kind false (asking_interval i)
    unfolding min_poll_interval_for_event
    asking_interval-IsSafe i =
        IsSafe-bind id kind false _ _
          (IsSafe-ask_any id kind false (min_poll_interval_for_event i)
            (λ now db known. (λ h. h, known)))
          (λ r. IsSafe-returns id kind false _)

    fetching-IsSafe : (r : Outcome String EventSnapshot) → IsSafe id kind false (fetching r)
    fetching-IsSafe (ok snap) = IsSafe-returns id kind false _
    fetching-IsSafe (err e) = IsSafe-returns id kind false _

    updating-IsSafe :
        (f : DbError → WorkerError) (p : UpdateEventLatestParams)
        → IsSafe id kind false (ask f (update_event_latest p))
    updating-IsSafe f p =
        IsSafe-ask id kind false f _ (λ now db. update_event_latest-Respects id kind now db p)

    polling_snapshot-IsSafe :
        (i : ℕ) (ev : Event) (snap : EventSnapshot)
        → IsSafe id kind false (polling_snapshot d i ev snap)
    polling_snapshot-IsSafe i ev snap =
        IsSafe-bind id kind false _ _ (recording_change-IsSafe i ev snap.availability) λ _.
          IsSafe-bind id kind false _ _ (asking_interval-IsSafe i) λ interval.
            IsSafe-bind id kind false _ _ (IsSafe-time_now id kind false) λ now.
              IsSafe-bind id kind false _ _
                (updating-IsSafe update_event_failed
                  (latest_params i snap (now + interval * second)))
                λ _. IsSafe-bind id kind false _ _ (IsSafe-time_now id kind false) λ later.
                  evaluating_watches-IsSafe ev snap (observation_of ev snap later)
                    (is_valid ev.public_onsale_at)

    getting-IsSafe :
        (f : DbError → WorkerError) (i : ℕ) → IsSafe id kind false (ask f (get_event i))
    unfolding get_event
    getting-IsSafe f i = IsSafe-ask id kind false f _ (λ now db known. (λ h. h, known))

    -- A poll begins without a claim, and hands the pair's alert over only with one.
    pub polling-IsSafe : (fetch : Fetch) (i : ℕ) → IsSafe id kind false (polling d fetch i)
    unfolding polling
    polling-IsSafe fetch i = IsSafe-bind id kind false _ _ (getting-IsSafe _ i) λ ev.
        IsSafe-bind id kind false _ _ (fetching-IsSafe (fetch ev.tm_event_id))
          (λ snap. polling_snapshot-IsSafe i ev snap)
