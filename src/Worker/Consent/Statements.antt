-- ===== src/Worker/Consent/Statements.antt =====
-- The statements of a poll, and the hand-over of an alert, keep to the recipients of a watch.
use ticket_watcher.Prelude.{
  select, ℕ, ◌≡◌, Bool, true, List, ◌∷◌, arith, All, String, Option, none, some,
}
use ticket_watcher.Prelude.Instant.{Instant}
use ticket_watcher.Prelude.Outcome.{Outcome, ok, map_err-eq_ok}
use ticket_watcher.Store.Models.{User, Watch, Db}
use ticket_watcher.Store.Query.{DbError}
use ticket_watcher.Store.Owners.{may_mail, IsMailable}
use ticket_watcher.Store.Ownership.{
  SameOwners, SameOwners-eq, join_users-IsMailable_of_same, SameOwners-mark_notified,
  SameOwners-set_last_evaluation, SameOwners-close_watches_for_event, SameOwners-claim_watch_alert,
  SameOwners-update_event_latest, SameOwners-insert_availability_snapshot,
}
use ticket_watcher.Store.Watches.{
  is_active_on, join_users, list_active_watches_for_event, close_watches_for_event,
  set_last_evaluation, ListActiveWatchesForEventRow, claim_watch_alert, mark_notified,
}
use ticket_watcher.Store.Events.{
  update_event_latest, insert_availability_snapshot, UpdateEventLatestParams,
}
use ticket_watcher.World.{Sent, World, Alert, wrap, query}
use ticket_watcher.World.Rules.{Relation, On, Keeps, query_post, Keeps-query}
use ticket_watcher.Worker.{Notifier, notify_with, list_watches_failed}
use ticket_watcher.Worker.Quiet.{HasQuiet}

module _ (users : List User) (watches : List Watch) where
  abbrev pub IsConsented : Alert → Type 0
  IsConsented a = may_mail a.watch_id a.to_email watches users ≡ true

  -- Users and owners are those of the start, and every alert so far went to a recipient.
  pub record Consented (sent : Sent) (db : Db) : Type 0 where
    pub same : SameOwners users watches db
    pub consented : All IsConsented sent.notify_calls

  pub of_statement :
      (sent : Sent) (db db' : Db)
      → Consented sent db
      → SameOwners users watches db'
      → Consented sent db'
  of_statement sent db db' h s = record { same = s; consented = h.consented }

  pub mark_notified-Consented : (i : ℕ) → Keeps Consented (query (mark_notified i))
  mark_notified-Consented i = Keeps-query (mark_notified i) λ now sent db h.
      of_statement sent db _ h (SameOwners-mark_notified users watches now db h.same i)

  pub set_last_evaluation-Consented :
      (i : ℕ) (b : Bool) → Keeps Consented (query (set_last_evaluation i b))
  set_last_evaluation-Consented i b = Keeps-query (set_last_evaluation i b) λ now sent db h.
      of_statement sent db _ h (SameOwners-set_last_evaluation users watches now db h.same i b)

  pub close_watches_for_event-Consented :
      (i : ℕ) → Keeps Consented (query (close_watches_for_event i))
  close_watches_for_event-Consented i = Keeps-query (close_watches_for_event i) λ now sent db h.
      of_statement sent db _ h (SameOwners-close_watches_for_event users watches now db h.same i)

  pub claim_watch_alert-Consented :
      (i : ℕ) (k : String) → Keeps Consented (query (claim_watch_alert i k))
  claim_watch_alert-Consented i k = Keeps-query (claim_watch_alert i k) λ now sent db h.
      of_statement sent db _ h (SameOwners-claim_watch_alert users watches now db h.same i k)

  pub update_event_latest-Consented :
      (p : UpdateEventLatestParams) → Keeps Consented (query (update_event_latest p))
  update_event_latest-Consented p = Keeps-query (update_event_latest p) λ now sent db h.
      of_statement sent db _ h (SameOwners-update_event_latest users watches now db h.same p)

  pub insert_availability_snapshot-Consented :
      (i : ℕ) (s : Option String) → Keeps Consented (query (insert_availability_snapshot i s))
  insert_availability_snapshot-Consented i s =
      Keeps-query (insert_availability_snapshot i s) λ now sent db h.
        of_statement sent db _ h
          (SameOwners-insert_availability_snapshot users watches now db h.same i s)

  pub notify_with-Consented :
      (n : Option Notifier) (a : Alert) (w : World)
      → HasQuiet n
      → IsConsented a
      → On Consented w
      → On Consented (notify_with n a w)
  notify_with-Consented none a w quiet c h = h
  notify_with-Consented (some n) a w quiet c h =
      let w' = record w { notify_calls = a ∷ w.notify_calls } in
      rw (quiet.keeps_calls a w') (record {
        same =
            SameOwners-eq users watches w.db _ (quiet.keeps_users a w') (quiet.keeps_watches a w')
              h.same;
        consented = (c, h.consented);
      })

  -- Every row of an answer may be mailed through both gates.
  abbrev pub ListedWith : Outcome DbError (List ListActiveWatchesForEventRow) → Relation
  ListedWith r sent db =
      (rows : List ListActiveWatchesForEventRow) → r ≡ ok rows → All (IsMailable watches users) rows

  pub list_statement_lem :
      (i : ℕ) (now : Instant) (sent : Sent) (db : Db)
      → Consented sent db
      → ListedWith
          (list_active_watches_for_event i now db).0
          sent
          (list_active_watches_for_event i now db).1
  unfolding list_active_watches_for_event
  list_statement_lem i now sent db h rows e =
      let same_rows : join_users db.users.rows (select (is_active_on i) db.watches.rows) ≡ rows =
        ground arith in
      rw same_rows at (join_users-IsMailable_of_same users watches i db h.same)

  pub list_query_lem :
      (i : ℕ) (w : World)
      → On Consented w
      → (rows : List ListActiveWatchesForEventRow)
      → (wrap list_watches_failed (query (list_active_watches_for_event i)) w).0 ≡ ok rows
      → All (IsMailable watches users) rows
  unfolding wrap
  list_query_lem i w h rows e =
      query_post Consented ListedWith (list_active_watches_for_event i) (list_statement_lem i)
        (λ sent db r rows e. ground arith) w h rows (map_err-eq_ok list_watches_failed _ rows e)
