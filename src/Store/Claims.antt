-- ===== src/Store/Claims.antt =====
-- What the statements do to the claims of one (watch, kind) pair.
use ticket_watcher.Prelude.{
  ℕ, ◌≡◌, ◌⊎◌, ◌++◌, Option, str_eq_self, refl, Bool, true, false, not, ◌&&◌, ◌||◌, List, [], ◌∷◌,
  String, str_eq, ◌==◌, ltb, any, any-append, update_where, arith,
}
use ticket_watcher.Prelude.Instant.{Instant}
use ticket_watcher.Prelude.Outcome.{ok, err}
use ticket_watcher.Store.Models.{Watch, Db, WatchAlert}
use ticket_watcher.Store.Query.{failed}
use ticket_watcher.Store.Events.{
  update_event_latest, insert_availability_snapshot, UpdateEventLatestParams,
}
use ticket_watcher.Store.Watches.{
  has_watch, is_claimed, is_claim, claim_watch_alert, set_watches, mark_notified,
  set_last_evaluation, close_watches_for_event,
}

-- The watch was deleted: its id is below the sequence, and no row has it.
abbrev pub is_gone : ℕ → Db → Bool
is_gone id db = not (has_watch id db) && ltb id db.watches.next

-- No later claim of the pair can succeed.
abbrev pub is_spent : ℕ → String → Db → Bool
is_spent id kind db = is_claimed id kind db || is_gone id db

abbrev alert_row : ℕ → String → Instant → WatchAlert
alert_row id kind now = record { watch_id = id; kind = kind; fired_at = now }

pub any-append_alert :
    (id i : ℕ) (kind k : String) (now : Instant) (rows : List WatchAlert)
    → any (is_claim id kind) (rows ++ (alert_row i k now ∷ []))
      ≡ (any (is_claim id kind) rows || (i == id && str_eq k kind))
any-append_alert id i kind k now rows =
    ground (arith, any-append (is_claim id kind) rows (alert_row i k now ∷ []))

-- A claim that succeeds finds the pair unspent and leaves it spent; any other outcome changes
-- nothing.
pub claim_watch_alert_lem :
    (id : ℕ) (kind : String) (now : Instant) (db : Db)
    → let (r, db') = claim_watch_alert id kind now db in
      ((r ≡ ok 1) × (is_spent id kind db ≡ false) × (is_spent id kind db' ≡ true))
      ⊎ (((r ≡ ok 0) ⊎ (r ≡ err failed)) × (db' ≡ db))
unfolding claim_watch_alert
claim_watch_alert_lem id kind now db =
    ground (arith, any-append_alert id id kind kind now db.watch_alerts, str_eq_self kind)

pub any_id-update_where :
    (id : ℕ) (p : Watch → Bool) (f : Watch → Watch) (ws : List Watch)
    → ((w : Watch) → (f w).id ≡ w.id)
    → any (λ (w : Watch). w.id == id) (update_where p f ws) ≡ any (λ (w : Watch). w.id == id) ws
any_id-update_where id p f [] h = refl
any_id-update_where id p f (w ∷ ws) h = ground (arith, h w, any_id-update_where id p f ws h)

is_spent-set_watches :
    (id : ℕ) (kind : String) (p : Watch → Bool) (f : Watch → Watch) (db : Db)
    → ((w : Watch) → (f w).id ≡ w.id)
    → is_spent id kind (set_watches p f db) ≡ is_spent id kind db
is_spent-set_watches id kind p f db h = rw (any_id-update_where id p f db.watches.rows h)

module _ (id : ℕ) (kind : String) (now : Instant) (db : Db) where
  pub is_spent-mark_notified :
      (i : ℕ) → is_spent id kind (mark_notified i now db).1 ≡ is_spent id kind db
  unfolding mark_notified
  is_spent-mark_notified i = is_spent-set_watches id kind _ _ db (λ w. refl)

  pub is_spent-set_last_evaluation :
      (i : ℕ) (b : Bool) → is_spent id kind (set_last_evaluation i b now db).1 ≡ is_spent id kind db
  unfolding set_last_evaluation
  is_spent-set_last_evaluation i b = is_spent-set_watches id kind _ _ db (λ w. refl)

  pub is_spent-close_watches_for_event :
      (i : ℕ) → is_spent id kind (close_watches_for_event i now db).1 ≡ is_spent id kind db
  unfolding close_watches_for_event
  is_spent-close_watches_for_event i = is_spent-set_watches id kind _ _ db (λ w. refl)

  pub is_spent-update_event_latest :
      (p : UpdateEventLatestParams)
      → is_spent id kind (update_event_latest p now db).1 ≡ is_spent id kind db
  unfolding update_event_latest
  is_spent-update_event_latest p = refl

  pub is_spent-insert_availability_snapshot :
      (i : ℕ) (s : Option String)
      → is_spent id kind (insert_availability_snapshot i s now db).1 ≡ is_spent id kind db
  unfolding insert_availability_snapshot
  is_spent-insert_availability_snapshot i s = ground arith

  -- A claim of another pair, or of this one, unspends nothing.
  pub is_spent-claim_watch_alert :
      (i : ℕ) (k : String)
      → is_spent id kind db ≡ true
      → is_spent id kind (claim_watch_alert i k now db).1 ≡ true
  unfolding claim_watch_alert
  is_spent-claim_watch_alert i k h =
      ground (arith, any-append_alert id i kind k now db.watch_alerts)
