-- ===== src/Service/Watch/Kept.antt =====
-- What a relation needs to be kept by the calls of the watch service: that it is kept by the
-- statements that write.
use ticket_watcher.Prelude.{ℕ, refl, Option, String}
use ticket_watcher.Prelude.Int.{ℤ}
use ticket_watcher.Prelude.Outcome.{Outcome, ok, err}
use ticket_watcher.Store.Models.{Event}
use ticket_watcher.Store.Query.{DbError, no_rows}
use ticket_watcher.Store.Events.{
  get_event, get_event_by_tmid, upsert_event_by_tmid, UpsertEventByTmidParams, mark_event_due,
  list_snapshots_for_event,
}
use ticket_watcher.Store.Watches.{
  count_watches_for_user, delete_watch, get_watch, update_watch, list_watches_with_event,
}
use ticket_watcher.Ticketmaster.Types.{EventSnapshot}
use ticket_watcher.World.{World, query}
use ticket_watcher.World.Rules.{
  On, Relation, Keeps, Keeps-query_of_read, Keeps-pure, Keeps-throw, keeps_rules,
}
use ticket_watcher.Service.Watch.{
  Request, creating, listing, reading_history, updating, deleting, serve, check_count, check_limit,
  stored, resolved, resolve_event, create_valid, create, list, history, update_valid, update,
  delete, CreateWatchInput,
}

pub record KeptByCalls (user_id : ℕ) (R : Relation) : Type 0 where
  pub by_upsert : (p : UpsertEventByTmidParams) → Keeps R (query (upsert_event_by_tmid p))
  pub by_mark_due : (id : ℕ) → Keeps R (query (mark_event_due id))
  pub by_update : (st : Option String) (id : ℕ) → Keeps R (query (update_watch st id user_id))
  pub by_delete : (id : ℕ) → Keeps R (query (delete_watch id user_id))

module _ (user_id : ℕ) (R : Relation) (kept : KeptByCalls user_id R) where
  count-Keeps : (id : ℕ) → Keeps R (query (count_watches_for_user id))
  unfolding count_watches_for_user
  count-Keeps id = Keeps-query_of_read _ (λ now db. refl)

  get_event-Keeps : (id : ℕ) → Keeps R (query (get_event id))
  unfolding get_event
  get_event-Keeps id = Keeps-query_of_read _ (λ now db. refl)

  get_event_by_tmid-Keeps : (id : String) → Keeps R (query (get_event_by_tmid id))
  unfolding get_event_by_tmid
  get_event_by_tmid-Keeps id = Keeps-query_of_read _ (λ now db. refl)

  get_watch-Keeps : (id u : ℕ) → Keeps R (query (get_watch id u))
  unfolding get_watch
  get_watch-Keeps id u = Keeps-query_of_read _ (λ now db. refl)

  list-Keeps : (u : ℕ) → Keeps R (query (list_watches_with_event u))
  unfolding list_watches_with_event
  list-Keeps u = Keeps-query_of_read _ (λ now db. refl)

  snapshots-Keeps : (id : ℕ) → Keeps R (query (list_snapshots_for_event id))
  unfolding list_snapshots_for_event
  snapshots-Keeps id = Keeps-query_of_read _ (λ now db. refl)

  stored-Keeps : (r : Outcome String EventSnapshot) → Keeps R (stored r)
  stored-Keeps (ok snap) = search (keeps_rules, kept.by_upsert)
  stored-Keeps (err e) = Keeps-throw _

  resolved-Keeps :
      (fetch : String → Outcome String EventSnapshot) (id : String) (r : Outcome DbError Event)
      → Keeps R (resolved fetch id r)
  resolved-Keeps fetch id (ok ev) = Keeps-pure ev
  resolved-Keeps fetch id (err no_rows) = stored-Keeps (fetch id)
  resolved-Keeps fetch id (err e) = Keeps-throw _

  pub check_limit-Keeps : (max_per_user : ℤ) (u : ℕ) → Keeps R (check_limit max_per_user u)
  unfolding check_limit check_count
  check_limit-Keeps max_per_user u = search (keeps_rules, count-Keeps)

  pub resolve_event-Keeps :
      (fetch : String → Outcome String EventSnapshot) (id : String)
      → Keeps R (resolve_event fetch id)
  unfolding resolve_event
  resolve_event-Keeps fetch id = search (keeps_rules, get_event_by_tmid-Keeps, resolved-Keeps)

  update-Keeps : (id : ℕ) (status : Option String) → Keeps R (update user_id id status)
  unfolding update update_valid
  update-Keeps id status = search (keeps_rules, kept.by_update, get_event-Keeps) depth 12

  delete-Keeps : (id : ℕ) → Keeps R (delete user_id id)
  unfolding delete
  delete-Keeps id = search (keeps_rules, kept.by_delete)

  list_call-Keeps : Keeps R (list user_id)
  unfolding list
  list_call-Keeps = search (keeps_rules, list-Keeps)

  history-Keeps : (id : ℕ) → Keeps R (history user_id id)
  unfolding history
  history-Keeps id = search (keeps_rules, get_watch-Keeps, snapshots-Keeps) depth 12

  module _ (max_per_user : ℤ) (fetch : String → Outcome String EventSnapshot)
      (by_create_valid : (i : CreateWatchInput)
        → Keeps R (create_valid max_per_user fetch user_id i)) where
    create-Keeps : (i : CreateWatchInput) → Keeps R (create max_per_user fetch user_id i)
    unfolding create
    create-Keeps i = search (keeps_rules, by_create_valid)

    -- Any call of the user, when a valid creation keeps the relation too.
    pub serve-Keeps :
        (r : Request) (w : World) → On R w → On R (serve max_per_user fetch user_id r w)
    unfolding serve
    serve-Keeps (creating i) w = (create-Keeps i).at w
    serve-Keeps listing w = list_call-Keeps.at w
    serve-Keeps (reading_history id) w = (history-Keeps id).at w
    serve-Keeps (updating id status) w = (update-Keeps id status).at w
    serve-Keeps (deleting id) w = (delete-Keeps id).at w
