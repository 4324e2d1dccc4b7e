-- ===== src/Store/Ids.antt =====
-- The ids of watches: what the statements do to the one row that may have an id.
use ticket_watcher.Prelude.{
  ℕ, ◌≤◌, ◌≡◌, refl, Bool, true, false, not, ◌&&◌, List, [], ◌∷◌, Option, String, ◌==◌, ltb, any,
  count, select, update_where, count-append, count-select-le, arith, if◌then◌else◌, ap, inl, inr,
  Bool-cases, any-append, any-select,
}
use ticket_watcher.Prelude.Instant.{Instant}
use ticket_watcher.Store.Models.{Watch, WatchAlert, Db}
use ticket_watcher.Store.Claims.{is_spent, any_id-update_where, is_spent-claim_watch_alert}
use ticket_watcher.Store.Users.{
  create_user, mark_email_verified, update_user_password, set_unsubscribed, set_resubscribed,
  delete_user, CreateAuthTokenParams, create_auth_token, mark_auth_token_used,
  delete_auth_tokens_for_user,
}
use ticket_watcher.Store.Events.{
  update_event_latest, UpdateEventLatestParams, insert_availability_snapshot, mark_event_due,
  upsert_event_by_tmid, UpsertEventByTmidParams,
}
use ticket_watcher.Store.Watches.{
  is_claim, set_watches, delete_watches, claim_watch_alert, mark_notified, set_last_evaluation,
  close_watches_for_event, update_watch, create_watch, CreateWatchParams, new_watch, delete_watch,
  is_owned,
}

abbrev pub rows_of : ℕ → List Watch → ℕ
rows_of id = count λ (w : Watch). w.id == id

-- At most one watch has the id, the primary key, and none before the sequence has given it out.
abbrev pub IsKnown : ℕ → Db → Type 0
IsKnown id db = rows_of id db.watches.rows ≤ (if ltb id db.watches.next then 1 else 0)

-- What a statement must not do: make a spent pair claimable again, or give an id twice.
abbrev pub Respects : ℕ → String → Db → Db → Type 0
Respects id kind db db' =
    IsKnown id db → (is_spent id kind db ≡ true → is_spent id kind db' ≡ true) × IsKnown id db'

rows_of-update_where :
    (id : ℕ) (p : Watch → Bool) (f : Watch → Watch) (ws : List Watch)
    → ((w : Watch) → (f w).id ≡ w.id)
    → rows_of id (update_where p f ws) ≡ rows_of id ws
rows_of-update_where id p f [] h = refl
rows_of-update_where id p f (w ∷ ws) h = ground (arith, h w, rows_of-update_where id p f ws h)

module _ (id : ℕ) (kind : String) where
  set_watches-Respects :
      (p : Watch → Bool) (f : Watch → Watch) (db : Db)
      → ((w : Watch) → (f w).id ≡ w.id)
      → Respects id kind db (set_watches p f db)
  set_watches-Respects p f db h known = (
    λ spent. rw (any_id-update_where id p f db.watches.rows h) spent,
    rw (rows_of-update_where id p f db.watches.rows h) known,
  )

  any-rows_of : (ws : List Watch) → rows_of id ws ≡ 0 → any (λ (w : Watch). w.id == id) ws ≡ false
  any-rows_of [] h = refl
  any-rows_of (w ∷ ws) h = ground (arith, h, any-rows_of ws)

  -- Whose row is deleted has none left.
  rows_of-deleted :
      (p : Watch → Bool) (ws : List Watch)
      → rows_of id ws ≤ 1
      → any (λ (w : Watch). w.id == id && p w) ws ≡ true
      → (rows_of id (select (λ w. not (p w)) ws) ≡ 0) × (rows_of id ws ≡ 1)
  rows_of-deleted p [] h e = ground (arith, e)
  rows_of-deleted p (w ∷ ws) h e = ground (
    arith,
    h,
    e,
    rows_of-deleted p ws,
    count-select-le (λ (v : Watch). v.id == id) (λ v. not (p v)) ws,
  )

  -- The claims of a watch that stays stay.
  claims_left :
      (gone : ℕ → Bool) (rows : List WatchAlert)
      → gone id ≡ false
      → any (is_claim id kind) (select (λ (a : WatchAlert). not (gone a.watch_id)) rows)
        ≡ any (is_claim id kind) rows
  claims_left gone [] h = refl
  claims_left gone (a ∷ rows) h = elim (Bool-cases (a.watch_id == id)) [
    | inl e ↦
        let same : a.watch_id ≡ id = ground (arith, e) in
        ground (arith, ap gone same, h, claims_left gone rows h)
    | inr e ↦ ground (arith, e, claims_left gone rows h)
  ]

  -- Rows deleted with what depends on them: a pair whose watch goes is spent for good.
  delete_watches-Respects : (p : Watch → Bool) (db : Db) → Respects id kind db (delete_watches p db)
  delete_watches-Respects p db known =
      let gone = λ (i : ℕ). any (λ (w : Watch). w.id == i && p w) db.watches.rows in
      elim (Bool-cases (gone id)) [
        | inl e ↦
            let none_left = rows_of-deleted p db.watches.rows (ground (arith, known)) e in
            let no_row =
              any-rows_of (select (λ (w : Watch). not (p w)) db.watches.rows) none_left.0 in
            (λ spent. ground (arith, known, none_left, no_row), ground (arith, none_left.0))
        | inr e ↦ (
          λ spent. ground (
            arith,
            spent,
            claims_left gone db.watch_alerts e,
            any-select (λ (v : Watch). v.id == id) (λ v. not (p v)) db.watches.rows,
          ),
          ground (
            arith,
            known,
            count-select-le (λ (v : Watch). v.id == id) (λ v. not (p v)) db.watches.rows,
          ),
        )
      ]

  module _ (now : Instant) (db : Db) where
    pub claim_watch_alert-Respects :
        (i : ℕ) (k : String) → Respects id kind db (claim_watch_alert i k now db).1
    unfolding claim_watch_alert
    claim_watch_alert-Respects i k known =
        (is_spent-claim_watch_alert id kind now db i k, ground (arith, known))

    pub mark_notified-Respects : (i : ℕ) → Respects id kind db (mark_notified i now db).1
    unfolding mark_notified
    mark_notified-Respects i = set_watches-Respects _ _ db (λ w. refl)

    pub set_last_evaluation-Respects :
        (i : ℕ) (b : Bool) → Respects id kind db (set_last_evaluation i b now db).1
    unfolding set_last_evaluation
    set_last_evaluation-Respects i b = set_watches-Respects _ _ db (λ w. refl)

    pub close_watches_for_event-Respects :
        (i : ℕ) → Respects id kind db (close_watches_for_event i now db).1
    unfolding close_watches_for_event
    close_watches_for_event-Respects i = set_watches-Respects _ _ db (λ w. refl)

    pub update_watch-Respects :
        (st : Option String) (i user_id : ℕ)
        → Respects id kind db (update_watch st i user_id now db).1
    unfolding update_watch
    update_watch-Respects st i user_id = set_watches-Respects _ _ db (λ w. refl)

    pub delete_watch-Respects :
        (i user_id : ℕ) → Respects id kind db (delete_watch i user_id now db).1
    unfolding delete_watch
    delete_watch-Respects i user_id = delete_watches-Respects (is_owned i user_id) db

    pub delete_user-Respects : (user_id : ℕ) → Respects id kind db (delete_user user_id now db).1
    unfolding delete_user
    delete_user-Respects user_id = delete_watches-Respects (λ w. w.user_id == user_id) db

    pub create_watch-Respects :
        (p : CreateWatchParams) → Respects id kind db (create_watch p now db).1
    unfolding create_watch
    create_watch-Respects p known = (
      λ spent. ground (
        arith,
        spent,
        any-append (λ (w : Watch). w.id == id) db.watches.rows
            (new_watch p db.watches.next now ∷ []),
      ),
      ground (
        arith,
        known,
        count-append (λ (w : Watch). w.id == id) db.watches.rows
            (new_watch p db.watches.next now ∷ []),
      ),
    )

    pub update_event_latest-Respects :
        (p : UpdateEventLatestParams) → Respects id kind db (update_event_latest p now db).1
    unfolding update_event_latest
    update_event_latest-Respects p known = (λ spent. spent, known)

    pub insert_availability_snapshot-Respects :
        (i : ℕ) (st : Option String)
        → Respects id kind db (insert_availability_snapshot i st now db).1
    unfolding insert_availability_snapshot
    insert_availability_snapshot-Respects i st known =
        (λ spent. ground (arith, spent), ground (arith, known))

    pub mark_event_due-Respects : (i : ℕ) → Respects id kind db (mark_event_due i now db).1
    unfolding mark_event_due
    mark_event_due-Respects i known = (λ spent. spent, known)

    pub upsert_event_by_tmid-Respects :
        (p : UpsertEventByTmidParams) → Respects id kind db (upsert_event_by_tmid p now db).1
    unfolding upsert_event_by_tmid
    upsert_event_by_tmid-Respects p known = (λ spent. ground (arith, spent), ground (arith, known))

    pub create_user-Respects : (e h : String) → Respects id kind db (create_user e h now db).1
    unfolding create_user
    create_user-Respects e h known = (λ spent. ground (arith, spent), ground (arith, known))

    pub mark_email_verified-Respects :
        (i : ℕ) → Respects id kind db (mark_email_verified i now db).1
    unfolding mark_email_verified
    mark_email_verified-Respects i known = (λ spent. spent, known)

    pub update_user_password-Respects :
        (i : ℕ) (h : String) → Respects id kind db (update_user_password i h now db).1
    unfolding update_user_password
    update_user_password-Respects i h known = (λ spent. spent, known)

    pub set_unsubscribed-Respects : (i : ℕ) → Respects id kind db (set_unsubscribed i now db).1
    unfolding set_unsubscribed
    set_unsubscribed-Respects i known = (λ spent. spent, known)

    pub set_resubscribed-Respects : (i : ℕ) → Respects id kind db (set_resubscribed i now db).1
    unfolding set_resubscribed
    set_resubscribed-Respects i known = (λ spent. spent, known)

    pub create_auth_token-Respects :
        (p : CreateAuthTokenParams) → Respects id kind db (create_auth_token p now db).1
    unfolding create_auth_token
    create_auth_token-Respects p known = (λ spent. ground (arith, spent), ground (arith, known))

    pub mark_auth_token_used-Respects :
        (i : ℕ) → Respects id kind db (mark_auth_token_used i now db).1
    unfolding mark_auth_token_used
    mark_auth_token_used-Respects i known = (λ spent. spent, known)

    pub delete_auth_tokens_for_user-Respects :
        (i : ℕ) (purpose : String)
        → Respects id kind db (delete_auth_tokens_for_user i purpose now db).1
    unfolding delete_auth_tokens_for_user
    delete_auth_tokens_for_user-Respects i purpose known = (λ spent. spent, known)
