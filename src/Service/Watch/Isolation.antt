-- ===== src/Service/Watch/Isolation.antt =====
-- A user's calls leave the watches of everybody else alone.
use ticket_watcher.Prelude.{
  All, ap, sym, ◌≢◌, ◌∷◌, ℕ, ◌≡◌, ◌∙◌, refl, not, Option, List, [], ◌∷◌, ◌++◌, String, ◌==◌, select,
  update_where, arith,
}
use ticket_watcher.Prelude.Int.{ℤ}
use ticket_watcher.Prelude.Outcome.{Outcome}
use ticket_watcher.Store.Models.{Event, Watch}
use ticket_watcher.Store.Events.{upsert_event_by_tmid, UpsertEventByTmidParams, mark_event_due}
use ticket_watcher.Store.Watches.{new_watch, create_watch, delete_watch, update_watch, is_owned}
use ticket_watcher.Ticketmaster.Types.{EventSnapshot}
use ticket_watcher.World.{query}
use ticket_watcher.World.Rules.{Relation, Keeps, Keeps-query, keeps_rules}
use ticket_watcher.Service.Watch.Kept.{
  KeptByCalls, check_limit-Keeps, resolve_event-Keeps, serve-Keeps,
}
use ticket_watcher.Service.Watch.{
  World, Request, serve, serve_all, create_valid, CreateWatchInput, create_params,
}

-- The watches of the other users, in order.
abbrev pub watches_of_others : ℕ → List Watch → List Watch
watches_of_others user_id = select λ (w : Watch). not (w.user_id == user_id)

others-append :
    (user_id : ℕ) (ws : List Watch) (w : Watch)
    → w.user_id ≡ user_id
    → watches_of_others user_id (ws ++ (w ∷ [])) ≡ watches_of_others user_id ws
others-append user_id [] w mine = ground (arith, mine)
others-append user_id (v ∷ ws) w mine = ground (arith, others-append user_id ws w mine)

others-update_where :
    (user_id id : ℕ) (f : Watch → Watch) (ws : List Watch)
    → ((w : Watch) → (f w).user_id ≡ w.user_id)
    → watches_of_others user_id (update_where (is_owned id user_id) f ws)
      ≡ watches_of_others user_id ws
others-update_where user_id id f [] h = refl
others-update_where user_id id f (w ∷ ws) h =
    ground (arith, h w, others-update_where user_id id f ws h)

others-delete :
    (user_id id : ℕ) (ws : List Watch)
    → watches_of_others user_id (select (λ w. not (is_owned id user_id w)) ws)
      ≡ watches_of_others user_id ws
others-delete user_id id [] = refl
others-delete user_id id (w ∷ ws) = ground (arith, others-delete user_id id ws)

module _ (user_id : ℕ) (others : List Watch) where
  abbrev Apart : Relation
  Apart calls db = watches_of_others user_id db.watches.rows ≡ others

  create_watch-Apart :
      (i : CreateWatchInput) (ev : Event)
      → Keeps Apart (query (create_watch (create_params user_id i ev)))
  unfolding create_watch
  create_watch-Apart i ev = Keeps-query _ λ now calls db h. ground (
    arith,
    h,
    others-append user_id db.watches.rows
        (new_watch (create_params user_id i ev) db.watches.next now) refl,
  )

  update_watch-Apart :
      (status : Option String) (id : ℕ) → Keeps Apart (query (update_watch status id user_id))
  unfolding update_watch
  update_watch-Apart status id =
      Keeps-query _
        λ now calls db h. others-update_where user_id id _ db.watches.rows (λ w. refl) ∙ h

  delete_watch-Apart : (id : ℕ) → Keeps Apart (query (delete_watch id user_id))
  unfolding delete_watch
  delete_watch-Apart id =
      Keeps-query _ λ now calls db h. others-delete user_id id db.watches.rows ∙ h

  mark_event_due-Apart : (id : ℕ) → Keeps Apart (query (mark_event_due id))
  unfolding mark_event_due
  mark_event_due-Apart id = Keeps-query _ (λ now calls db h. h)

  upsert-Apart : (p : UpsertEventByTmidParams) → Keeps Apart (query (upsert_event_by_tmid p))
  unfolding upsert_event_by_tmid
  upsert-Apart p = Keeps-query _ (λ now calls db h. ground (arith, h))

  Apart-KeptByCalls : KeptByCalls user_id Apart
  Apart-KeptByCalls = record {
    by_upsert = upsert-Apart;
    by_mark_due = mark_event_due-Apart;
    by_update = update_watch-Apart;
    by_delete = delete_watch-Apart;
  }

  create_valid-Apart :
      (max_per_user : ℤ) (fetch : String → Outcome String EventSnapshot) (i : CreateWatchInput)
      → Keeps Apart (create_valid max_per_user fetch user_id i)
  unfolding create_valid
  create_valid-Apart max_per_user fetch i =
      search
        (
          keeps_rules,
          check_limit-Keeps user_id Apart Apart-KeptByCalls,
          resolve_event-Keeps user_id Apart Apart-KeptByCalls,
          create_watch-Apart,
          mark_event_due-Apart,
        )
        depth 14

-- The watches of one user, in order.
abbrev pub watches_of : ℕ → List Watch → List Watch
watches_of user_id = select λ (w : Watch). w.user_id == user_id

watches_of-others :
    (user_id other : ℕ) (ws : List Watch)
    → other ≢ user_id
    → watches_of user_id (watches_of_others other ws) ≡ watches_of user_id ws
watches_of-others user_id other [] ne = refl
watches_of-others user_id other (w ∷ ws) ne =
    ground (arith, ne, watches_of-others user_id other ws ne)

serve-Apart :
    (max_per_user : ℤ) (fetch : String → Outcome String EventSnapshot) (user_id : ℕ) (r : Request)
    (w : World)
    → watches_of_others user_id (serve max_per_user fetch user_id r w).db.watches.rows
      ≡ watches_of_others user_id w.db.watches.rows
serve-Apart max_per_user fetch user_id r w =
    serve-Keeps user_id _ (Apart-KeptByCalls user_id _) max_per_user fetch
      (create_valid-Apart user_id _ max_per_user fetch) r w refl

-- Whatever the other users ask for, in any order, and whichever of their calls fail, a user's
-- watches stay as they are: none is added, changed or removed.
pub serve_all-isolated :
    (max_per_user : ℤ) (fetch : String → Outcome String EventSnapshot) (user_id : ℕ)
    (rs : List (ℕ × Request)) (w : World)
    → All (λ (r : ℕ × Request). r.0 ≢ user_id) rs
    → watches_of user_id (serve_all max_per_user fetch rs w).db.watches.rows
      ≡ watches_of user_id w.db.watches.rows
unfolding serve_all
serve_all-isolated max_per_user fetch user_id [] w h = refl
serve_all-isolated max_per_user fetch user_id ((other, r) ∷ rs) w h =
    let w' = serve max_per_user fetch other r w in
    serve_all-isolated max_per_user fetch user_id rs w' h.1
    ∙ sym (watches_of-others user_id other w'.db.watches.rows h.0)
    ∙ ap (watches_of user_id) (serve-Apart max_per_user fetch other r w)
    ∙ watches_of-others user_id other w.db.watches.rows h.0
