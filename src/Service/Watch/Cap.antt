-- ===== src/Service/Watch/Cap.antt =====
-- No user gets past the cap on watches.
use ticket_watcher.Prelude.{
  ◌-◌, ==_iff, ℕ, ◌+◌, ◌≤◌, ◌≡◌, ◌≢◌, refl, arith, Bool, true, false, not, ◌==◌, Bool-cases, inl,
  inr, List, [], ◌∷◌, Option, String, count, count-append, count-update_where, count-select-le,
  if◌then◌else◌,
}
use ticket_watcher.Prelude.Int.{ℤ, pos, leb_ℤ, ltb_ℤ}
use ticket_watcher.Prelude.Outcome.{map_err-eq_ok, Outcome, ok}
use ticket_watcher.Store.Models.{Watch, Event, Db}
use ticket_watcher.Store.Events.{upsert_event_by_tmid, UpsertEventByTmidParams, mark_event_due}
use ticket_watcher.Store.Watches.{
  coalesce, new_watch, count_watches_for_user, create_watch, delete_watch, update_watch, is_owned,
}
use ticket_watcher.Ticketmaster.Types.{EventSnapshot}
use ticket_watcher.World.{World, query, wrap, pure, throw}
use ticket_watcher.World.Rules.{Relation, On, Keeps, Keeps-query, query_post, keeps_rules}
use ticket_watcher.World.Success.{Establishes, Establishes-bind_of, Establishes-throw}
use ticket_watcher.World.Leads.{
  Leads, Leads-query, Leads-wrap, Leads-bind_before, Leads-bind_after, Keeps-bind_checked,
}
use ticket_watcher.Service.Watch.Kept.{
  KeptByCalls, check_limit-Keeps, resolve_event-Keeps, serve-Keeps,
}
use ticket_watcher.Service.Watch.{
  Request, serve, serve_all, check_count, check_limit, create_valid, CreateWatchInput,
  create_params, count_watches_failed, watch_limit_reached,
}

abbrev pub is_of : ℕ → Watch → Bool
is_of user w = w.user_id == user

-- How many watches the user has.
abbrev pub watch_count : ℕ → Db → ℕ
watch_count user db = count (is_of user) db.watches.rows

module _ (user n : ℕ) where
  abbrev AtMost : Relation
  AtMost sent db = watch_count user db ≤ n

  update_watch-AtMost :
      (st : Option String) (id u : ℕ) → Keeps AtMost (query (update_watch st id u))
  unfolding update_watch
  update_watch-AtMost st id u = Keeps-query _ λ now sent db h. ground (
    arith,
    h,
    count-update_where (is_of user) (is_owned id u)
        (λ w. record w { status = coalesce st w.status }) db.watches.rows (λ w. refl),
  )

  delete_watch-AtMost : (id u : ℕ) → Keeps AtMost (query (delete_watch id u))
  unfolding delete_watch
  delete_watch-AtMost id u = Keeps-query _ λ now sent db h.
      ground (arith, h, count-select-le (is_of user) (λ w. not (is_owned id u w)) db.watches.rows)

  mark_event_due-AtMost : (id : ℕ) → Keeps AtMost (query (mark_event_due id))
  unfolding mark_event_due
  mark_event_due-AtMost id = Keeps-query _ (λ now sent db h. h)

  upsert-AtMost : (p : UpsertEventByTmidParams) → Keeps AtMost (query (upsert_event_by_tmid p))
  unfolding upsert_event_by_tmid
  upsert-AtMost p = Keeps-query _ (λ now sent db h. ground (arith, h))

  AtMost-KeptByCalls : (u : ℕ) → KeptByCalls u AtMost
  AtMost-KeptByCalls u = record {
    by_upsert = upsert-AtMost;
    by_mark_due = mark_event_due-AtMost;
    by_update = λ st id. update_watch-AtMost st id u;
    by_delete = λ id. delete_watch-AtMost id u;
  }

module _ (user cap : ℕ) (positive : 1 ≤ cap) where
  -- There is room for one watch more.
  abbrev HasRoom : Relation
  HasRoom = AtMost user (cap - 1)

  -- What the count says of the watches.
  abbrev Counted : ℕ → Relation
  Counted n sent db = n ≡ watch_count user db

  count-Counted :
      (w : World)
      → On (AtMost user cap) w
      → (n : ℕ) → (wrap count_watches_failed (query (count_watches_for_user user)) w).0 ≡ ok n
      → On (Counted n) (wrap count_watches_failed (query (count_watches_for_user user)) w).1
  unfolding wrap count_watches_for_user
  count-Counted w r n e =
      query_post (AtMost user cap) (λ o sent db. o ≡ ok n → Counted n sent db)
        (count_watches_for_user user) (λ now sent db r e. ground (arith, e))
        (λ sent db r e. ground (arith, e)) w r (map_err-eq_ok _ _ n e)

  checked-Establishes :
      (n : ℕ) (full : Bool)
      → (full ≡ false → n + 1 ≤ cap)
      → Establishes {A = Unit {0}}
          (Counted n)
          HasRoom
          (if full then throw watch_limit_reached else pure tt)
  unfolding pure
  checked-Establishes n true h = Establishes-throw watch_limit_reached
  checked-Establishes n false h = record { at = λ w c u e. omega (arith, c, h refl, positive) }

  check_count-Establishes : Establishes (AtMost user cap) HasRoom (check_count (pos cap) user)
  unfolding check_count
  check_count-Establishes =
      Establishes-bind_of (AtMost user cap) HasRoom _ _ Counted count-Counted
        λ n. checked-Establishes n (leb_ℤ (pos cap) (pos n)) (λ e. ground (arith, e))

  check_limit-Establishes : Establishes (AtMost user cap) HasRoom (check_limit (pos cap) user)
  unfolding check_limit
  check_limit-Establishes = elim (Bool-cases (ltb_ℤ (pos 0) (pos cap))) [
    | inl e ↦ rw e check_count-Establishes
    | inr e ↦ ground (arith, e, positive)
  ]

  create_watch-Leads :
      (i : CreateWatchInput) (ev : Event)
      → Leads HasRoom (AtMost user cap) (query (create_watch (create_params user i ev)))
  unfolding create_watch
  create_watch-Leads i ev =
      Leads-query _
        (λ now sent db h. ground (
          arith,
          h,
          count-append (is_of user) db.watches.rows
              (new_watch (create_params user i ev) db.watches.next now ∷ []),
        ))
        (λ sent db h. omega (arith, h))

  module _ (fetch : String → Outcome String EventSnapshot) where
    create_valid-AtMost :
        (i : CreateWatchInput) → Keeps (AtMost user cap) (create_valid (pos cap) fetch user i)
    unfolding create_valid
    create_valid-AtMost i =
        Keeps-bind_checked HasRoom (AtMost user cap) _ _
          (check_limit-Keeps user (AtMost user cap) (AtMost-KeptByCalls user cap user) (pos cap)
            user)
          check_limit-Establishes
          λ _.
            Leads-bind_before HasRoom (AtMost user cap) _ _
              (resolve_event-Keeps user HasRoom (AtMost-KeptByCalls user (cap - 1) user) fetch _)
              (λ sent db h. omega (arith, h))
              λ ev.
                Leads-bind_after HasRoom (AtMost user cap) _ _
                  (Leads-wrap _ _ (create_watch-Leads i ev))
                  λ w. search (keeps_rules, mark_event_due-AtMost user cap)

module _ (user n : ℕ) (other : ℕ) (apart : other ≢ user) where
  create_watch-other :
      (i : CreateWatchInput) (ev : Event)
      → Keeps (AtMost user n) (query (create_watch (create_params other i ev)))
  unfolding create_watch
  create_watch-other i ev = Keeps-query _ λ now sent db h. ground (
    arith,
    h,
    apart,
    count-append (is_of user) db.watches.rows
        (new_watch (create_params other i ev) db.watches.next now ∷ []),
  )

  create_valid-other :
      (max_per_user : ℤ) (fetch : String → Outcome String EventSnapshot) (i : CreateWatchInput)
      → Keeps (AtMost user n) (create_valid max_per_user fetch other i)
  unfolding create_valid
  create_valid-other max_per_user fetch i =
      let kept = AtMost-KeptByCalls user n other in
      search
        (
          keeps_rules,
          check_limit-Keeps other (AtMost user n) kept,
          resolve_event-Keeps other (AtMost user n) kept,
          create_watch-other,
          mark_event_due-AtMost user n,
        )
        depth 14

serve-AtMost :
    (cap user : ℕ) (fetch : String → Outcome String EventSnapshot) (caller : ℕ) (r : Request)
    (w : World)
    → 1 ≤ cap
    → On (AtMost user cap) w
    → On (AtMost user cap) (serve (pos cap) fetch caller r w)
serve-AtMost cap user fetch caller r w positive =
    serve-Keeps caller (AtMost user cap) (AtMost-KeptByCalls user cap caller) (pos cap) fetch
      (λ i. elim (Bool-cases (caller == user)) [
        | inl e ↦ rw ((==_iff caller user).0 e) (create_valid-AtMost user cap positive fetch i)
        | inr e ↦ create_valid-other user cap caller (λ p. ground (arith, e, p)) (pos cap) fetch i
      ])
      r w

-- With a positive cap, a user that has no more watches than the cap never has more, whatever the
-- users ask for one after another, in any order, and whichever of their statements fail.
pub serve_all-IsCapped :
    (cap user : ℕ) (fetch : String → Outcome String EventSnapshot) (rs : List (ℕ × Request))
    (w : World)
    → 1 ≤ cap
    → watch_count user w.db ≤ cap
    → watch_count user (serve_all (pos cap) fetch rs w).db ≤ cap
unfolding serve_all
serve_all-IsCapped cap user fetch [] w positive h = h
serve_all-IsCapped cap user fetch ((caller, r) ∷ rs) w positive h =
    serve_all-IsCapped cap user fetch rs (serve (pos cap) fetch caller r w) positive
      (serve-AtMost cap user fetch caller r w positive h)
