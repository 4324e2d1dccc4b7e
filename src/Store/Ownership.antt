-- ===== src/Store/Ownership.antt =====
-- The statements of a poll leave the owners of the watches and the users alone.
use ticket_watcher.Prelude.{
  select, ℕ, ◌≡◌, refl, ◌∙◌, sym, Bool, true, Option, List, [], ◌∷◌, String, update_where, arith,
  All, All-mono,
}
use ticket_watcher.Prelude.Instant.{Instant}
use ticket_watcher.Store.Events.{
  update_event_latest, insert_availability_snapshot, UpdateEventLatestParams,
}
use ticket_watcher.Store.Models.{User, Watch, Db}
use ticket_watcher.Store.Owners.{
  owns, may_mail, IsMailable, list_active_watches_for_event-IsMailable,
}
use ticket_watcher.Store.Watches.{
  close_watches_for_event, set_last_evaluation, claim_watch_alert, mark_notified, set_watches,
  join_users, is_active_on,
}

-- The same users, and the same owners of the same watches.
pub record SameOwners (users : List User) (watches : List Watch) (db : Db) : Type 0 where
  pub same_users : db.users.rows ≡ users
  pub same_owners : (id user_id : ℕ) → owns id user_id db.watches.rows ≡ owns id user_id watches

pub owns-update_where :
    (id user_id : ℕ) (p : Watch → Bool) (f : Watch → Watch) (ws : List Watch)
    → ((w : Watch) → ((f w).id ≡ w.id) × ((f w).user_id ≡ w.user_id))
    → owns id user_id (update_where p f ws) ≡ owns id user_id ws
owns-update_where id user_id p f [] h = refl
owns-update_where id user_id p f (w ∷ ws) h =
    ground (arith, h w, owns-update_where id user_id p f ws h)

may_mail-ext :
    (id : ℕ) (email : String) (ws ws' : List Watch) (users : List User)
    → ((i j : ℕ) → owns i j ws ≡ owns i j ws')
    → may_mail id email ws users ≡ may_mail id email ws' users
may_mail-ext id email ws ws' [] h = refl
may_mail-ext id email ws ws' (u ∷ users) h = rw (h id u.id, may_mail-ext id email ws ws' users h)

module _ (users : List User) (ws : List Watch) where
  SameOwners-set_watches :
      (p : Watch → Bool) (f : Watch → Watch) (db : Db)
      → ((w : Watch) → ((f w).id ≡ w.id) × ((f w).user_id ≡ w.user_id))
      → SameOwners users ws db
      → SameOwners users ws (set_watches p f db)
  SameOwners-set_watches p f db h same = record {
    same_users = same.same_users;
    same_owners = λ id user_id.
        owns-update_where id user_id p f db.watches.rows h ∙ same.same_owners id user_id;
  }

  -- A database with the same users and watches.
  pub SameOwners-eq :
      (db db' : Db)
      → db'.users ≡ db.users
      → db'.watches ≡ db.watches
      → SameOwners users ws db
      → SameOwners users ws db'
  SameOwners-eq db db' u w same = record {
    same_users = rw u same.same_users;
    same_owners = λ id user_id. rw w (same.same_owners id user_id);
  }

  may_mail-same :
      (id : ℕ) (email : String) (db : Db)
      → SameOwners users ws db
      → may_mail id email db.watches.rows db.users.rows ≡ true
      → may_mail id email ws users ≡ true
  may_mail-same id email db same h =
      sym (may_mail-ext id email db.watches.rows ws users same.same_owners)
      ∙ (rw same.same_users at h)

  -- The rows that the workers read, against the tables at the start.
  pub join_users-IsMailable_of_same :
      (event_id : ℕ) (db : Db)
      → SameOwners users ws db
      → All
          (IsMailable ws users)
          (join_users db.users.rows (select (is_active_on event_id) db.watches.rows))
  join_users-IsMailable_of_same event_id db same =
      All-mono (IsMailable db.watches.rows db.users.rows) (IsMailable ws users) _
        (λ row h v s. may_mail-same row.id row.user_email db same (h v s))
        (list_active_watches_for_event-IsMailable event_id db.users.rows db.watches.rows)

  module _ (now : Instant) (db : Db) (same : SameOwners users ws db) where
    pub SameOwners-mark_notified : (id : ℕ) → SameOwners users ws (mark_notified id now db).1
    unfolding mark_notified
    SameOwners-mark_notified id = SameOwners-set_watches _ _ db (λ w. (refl, refl)) same

    pub SameOwners-set_last_evaluation :
        (id : ℕ) (b : Bool) → SameOwners users ws (set_last_evaluation id b now db).1
    unfolding set_last_evaluation
    SameOwners-set_last_evaluation id b = SameOwners-set_watches _ _ db (λ w. (refl, refl)) same

    pub SameOwners-close_watches_for_event :
        (id : ℕ) → SameOwners users ws (close_watches_for_event id now db).1
    unfolding close_watches_for_event
    SameOwners-close_watches_for_event id = SameOwners-set_watches _ _ db (λ w. (refl, refl)) same

    pub SameOwners-claim_watch_alert :
        (id : ℕ) (kind : String) → SameOwners users ws (claim_watch_alert id kind now db).1
    unfolding claim_watch_alert
    SameOwners-claim_watch_alert id kind = SameOwners-eq db _ (ground arith) (ground arith) same

    pub SameOwners-update_event_latest :
        (p : UpdateEventLatestParams) → SameOwners users ws (update_event_latest p now db).1
    unfolding update_event_latest
    SameOwners-update_event_latest p = SameOwners-eq db _ refl refl same

    pub SameOwners-insert_availability_snapshot :
        (id : ℕ) (s : Option String)
        → SameOwners users ws (insert_availability_snapshot id s now db).1
    unfolding insert_availability_snapshot
    SameOwners-insert_availability_snapshot id s =
        SameOwners-eq db _ (ground arith) (ground arith) same
