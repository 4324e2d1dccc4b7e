-- ===== src/Worker/Once/Statements.antt =====
-- How the statements of a poll count and spend the alerts of one (watch, kind) pair.
use ticket_watcher.Prelude.{
  ℕ, ◌+◌, ◌≤◌, ◌≡◌, ◌≢◌, refl, Bool, true, false, ◌&&◌, Option, none, some, List, ◌∷◌, String,
  str_eq, str_eq_iff, ◌==◌, count, arith, if◌then◌else◌,
}
use ticket_watcher.Prelude.Instant.{Instant}
use ticket_watcher.Prelude.Outcome.{Outcome, ok, map_err-eq_ok}
use ticket_watcher.Evaluator.{Kind, kind_text, status_onsale, Observation}
use ticket_watcher.Worker.Quiet.{HasQuiet}
use ticket_watcher.Store.Models.{Event, Db}
use ticket_watcher.Store.Query.{DbError}
use ticket_watcher.Store.Claims.{
  is_spent-update_event_latest, is_spent-insert_availability_snapshot,
  is_spent-close_watches_for_event, is_spent, claim_watch_alert_lem, is_spent-mark_notified,
  is_spent-set_last_evaluation, is_spent-claim_watch_alert,
}
use ticket_watcher.Store.Watches.{
  close_watches_for_event, set_last_evaluation, ListActiveWatchesForEventRow, claim_watch_alert,
  mark_notified,
}
use ticket_watcher.Ticketmaster.Types.{EventSnapshot}
use ticket_watcher.World.{Sent, ◌>>=◌, wrap, World, Alert, pure, query}
use ticket_watcher.World.Rules.{Relation, On, Keeps, query_post, Keeps-query}
use ticket_watcher.Worker.{
  wrap, ◌>>=◌, update_event_latest, insert_availability_snapshot, UpdateEventLatestParams,
  claim_failed, Deps, Notifier, claim, notify_with, alert_for, deliver,
}

abbrev pub is_call_for : ℕ → String → Alert → Bool
is_call_for id kind a = a.watch_id == id && str_eq a.kind kind

-- How often the alert of one kind was handed over for one watch.
abbrev pub calls_for : ℕ → String → List Alert → ℕ
calls_for id kind = count (is_call_for id kind)

-- None was handed over, or one, and then no later claim can succeed.
abbrev pub AtMostOnce : ℕ → String → Relation
AtMostOnce id kind sent db =
    calls_for id kind sent.notify_calls ≤ (if is_spent id kind db then 1 else 0)

-- Handing an alert over counts one call if it is this pair's, and spends nothing.
pub notify_with_lem :
    (n : Option Notifier) (id : ℕ) (kind : String) (a : Alert) (w : World)
    → HasQuiet n
    → (calls_for id kind (notify_with n a w).notify_calls
        ≤ (if is_call_for id kind a then 1 else 0) + calls_for id kind w.notify_calls)
      × (is_spent id kind (notify_with n a w).db ≡ is_spent id kind w.db)
notify_with_lem none id kind a w quiet = (ground arith, refl)
notify_with_lem (some n) id kind a w quiet =
    let w' = record w { notify_calls = a ∷ w.notify_calls } in
    rw (quiet.keeps_calls a w', quiet.keeps_watches a w', quiet.keeps_alerts a w')
      (ground arith, refl)

module _ (id : ℕ) (kind : String) where
  -- The pair is spent, and its alert was never handed over.
  abbrev pub Open : Relation
  Open sent db = (calls_for id kind sent.notify_calls ≡ 0) × (is_spent id kind db ≡ true)

  -- A claim that inserted a row is the pair's first, if it is this pair's.
  abbrev pub Claimed : Bool → Outcome DbError ℕ → Relation
  Claimed mine r sent db =
      AtMostOnce id kind sent db × ((c : ℕ) → r ≡ ok c → c ≢ 0 → mine ≡ true → Open sent db)

  abbrev pub is_pair : ℕ → String → Bool
  is_pair i k = i == id && str_eq k kind

  pub claim_statement_self :
      (now : Instant) (sent : Sent) (db : Db) (c : ℕ)
      → AtMostOnce id kind sent db
      → (claim_watch_alert id kind now db).0 ≡ ok c
      → c ≢ 0
      → Open sent (claim_watch_alert id kind now db).1
  claim_statement_self now sent db c h e nz = ground (arith, claim_watch_alert_lem id kind now db)

  pub claim_statement_lem :
      (i : ℕ) (k : String) (now : Instant) (sent : Sent) (db : Db)
      → AtMostOnce id kind sent db
      → Claimed (is_pair i k) (claim_watch_alert i k now db).0 sent (claim_watch_alert i k now db).1
  claim_statement_lem i k now sent db h = (
    ground (arith, is_spent-claim_watch_alert id kind now db i k),
    λ c e nz mine.
        let same_id : i ≡ id = ground arith in
        let same_kind : k ≡ kind = ground (arith, str_eq_iff k kind) in
        rw (same_id, same_kind)
          (claim_statement_self now sent db c h (rw (same_id, same_kind) at e) nz),
  )

  pub claim_query_lem :
      (i : ℕ) (k : String) (w : World)
      → On (AtMostOnce id kind) w
      → let (r, w') = query (claim_watch_alert i k) w in On (Claimed (is_pair i k) r) w'
  claim_query_lem i k w h =
      query_post (AtMostOnce id kind) (Claimed (is_pair i k)) (claim_watch_alert i k)
        (claim_statement_lem i k) (λ sent db r. (r, λ c e. ground arith)) w h

  pub mark_notified-AtMostOnce : (i : ℕ) → Keeps (AtMostOnce id kind) (query (mark_notified i))
  mark_notified-AtMostOnce i =
      Keeps-query (mark_notified i) λ now sent db h. rw (is_spent-mark_notified id kind now db i) h

  pub set_last_evaluation-AtMostOnce :
      (i : ℕ) (b : Bool) → Keeps (AtMostOnce id kind) (query (set_last_evaluation i b))
  set_last_evaluation-AtMostOnce i b =
      Keeps-query (set_last_evaluation i b)
        λ now sent db h. rw (is_spent-set_last_evaluation id kind now db i b) h

  pub close_watches_for_event-AtMostOnce :
      (i : ℕ) → Keeps (AtMostOnce id kind) (query (close_watches_for_event i))
  close_watches_for_event-AtMostOnce i =
      Keeps-query (close_watches_for_event i)
        λ now sent db h. rw (is_spent-close_watches_for_event id kind now db i) h

  pub update_event_latest-AtMostOnce :
      (p : UpdateEventLatestParams) → Keeps (AtMostOnce id kind) (query (update_event_latest p))
  update_event_latest-AtMostOnce p =
      Keeps-query (update_event_latest p)
        λ now sent db h. rw (is_spent-update_event_latest id kind now db p) h

  pub insert_availability_snapshot-AtMostOnce :
      (i : ℕ) (s : Option String)
      → Keeps (AtMostOnce id kind) (query (insert_availability_snapshot i s))
  insert_availability_snapshot-AtMostOnce i s =
      Keeps-query (insert_availability_snapshot i s)
        λ now sent db h. rw (is_spent-insert_availability_snapshot id kind now db i s) h

  -- The rest of an alert, once it is claimed.
  pub deliver-AtMostOnce :
      (d : Deps) (ev : Event) (snap : EventSnapshot) (obs : Observation)
      (row : ListActiveWatchesForEventRow) (k : Kind) (w : World)
      → HasQuiet d.notifier
      → On (AtMostOnce id kind) w
      → (is_call_for id kind (alert_for d ev snap obs row k) ≡ true → On Open w)
      → On (AtMostOnce id kind) (deliver d ev snap obs row k w).1
  unfolding deliver ◌>>=◌
  deliver-AtMostOnce d ev snap obs row k w quiet h credit =
      let a = alert_for d ev snap obs row k in
      (mark_notified-AtMostOnce row.id).at (notify_with d.notifier a w)
        (ground (arith, notify_with_lem d.notifier id kind a w quiet))

  -- A claim, or for the one kind that needs none its absence.
  pub claim-AtMostOnce :
      (row : ListActiveWatchesForEventRow) (k : Kind) (w : World)
      → str_eq kind (kind_text status_onsale) ≡ false
      → On (AtMostOnce id kind) w
      → let (r, w') = claim row k w in
        On (AtMostOnce id kind) w'
        × ((c : ℕ) → r ≡ ok c → c ≢ 0 → is_pair row.id (kind_text k) ≡ true → On Open w')
  unfolding pure wrap
  claim-AtMostOnce row status_onsale w ne h = (
    h,
    λ c e nz mine. ground (arith, str_eq_iff kind "status_onsale", str_eq_iff "status_onsale" kind),
  )
  claim-AtMostOnce row k w ne h =
      let q = claim_query_lem row.id (kind_text k) w h in
      (q.0, λ c e nz mine. q.1 c (map_err-eq_ok (claim_failed k) _ c e) nz mine)
