-- ===== src/Worker/Delivery/Poll.antt =====
-- The evaluation of the watches of one event, in a poll in which nothing fails.
use ticket_watcher.Prelude.{
  ℕ, ◌≡◌, refl, Bool, true, false, Option, some, List, [], ◌∷◌, String, ◌==◌, any, arith,
  Bool-cases, inl, inr, All, All-append, All-mono, map, select,
}
use ticket_watcher.Evaluator.{Observation}
use ticket_watcher.Store.Models.{User, Watch, Event, Db}
use ticket_watcher.Store.Watches.{
  has_watch, ListActiveWatchesForEventRow, list_active_watches_for_event, join_users, joined_row,
  is_active_on,
}
use ticket_watcher.Ticketmaster.Types.{EventSnapshot}
use ticket_watcher.World.{World}
use ticket_watcher.World.Runs.{
  Runs, Runs-pure, Runs-wrap, Runs-bind, Runs-query, Runs-of_fact, Lasts,
}
use ticket_watcher.Worker.{
  Notifier, evaluate_watches, close_if, is_withheld, list_watches_failed, close_watches_failed,
}
use ticket_watcher.Worker.Quiet.{IsQuiet}
use ticket_watcher.Worker.Delivery.{is_reported, evaluate_each-Due}
use ticket_watcher.Worker.Delivery.Statements.{Due, Due-Lasts, close_watches_for_event-Due}

-- What the workers list for an event.
abbrev pub listed : ℕ → Db → List ListActiveWatchesForEventRow
listed event_id db = join_users db.users.rows (select (is_active_on event_id) db.watches.rows)

joined-known :
    (db : Db) (w : Watch) (us : List User)
    → has_watch w.id db ≡ true
    → All
        (λ (row : ListActiveWatchesForEventRow). has_watch row.id db ≡ true)
        (map (joined_row w) us)
joined-known db w [] h = tt
joined-known db w (u ∷ us) h = (h, joined-known db w us h)

join_users-known :
    (db : Db) (us : List User) (ws : List Watch)
    → All (λ (w : Watch). has_watch w.id db ≡ true) ws
    → All (λ (row : ListActiveWatchesForEventRow). has_watch row.id db ≡ true) (join_users us ws)
unfolding join_users
join_users-known db us [] h = tt
join_users-known db us (w ∷ ws) h =
    All-append _ _ _ (joined-known db w _ h.0) (join_users-known db us ws h.1)

select-known :
    (p : Watch → Bool) (ws : List Watch)
    → All (λ (w : Watch). any (λ (v : Watch). v.id == w.id) ws ≡ true) (select p ws)
select-known p [] = tt
select-known p (w ∷ ws) =
    let rest =
      All-mono (λ (v : Watch). any (λ (x : Watch). x.id == v.id) ws ≡ true)
        (λ (v : Watch). any (λ (x : Watch). x.id == v.id) (w ∷ ws) ≡ true) (select p ws)
        (λ v h. ground (arith, h)) (select-known p ws) in
    elim (Bool-cases (p w)) [ inl take ↦ rw take (ground arith, rest) | inr skip ↦ rw skip rest ]

-- Every row of an answer is of a watch that exists.
listed-known :
    (event_id : ℕ) (db : Db)
    → All (λ (row : ListActiveWatchesForEventRow). has_watch row.id db ≡ true) (listed event_id db)
listed-known event_id db = join_users-known db _ _ (select-known _ db.watches.rows)

All-both {ℓ} :
    {A : Type ℓ} (P Q : A → Type 0) (xs : List A) → All P xs → All Q xs → All (λ x. P x × Q x) xs
All-both P Q [] p q = tt
All-both P Q (x ∷ xs) p q = ((p.0, q.0), All-both P Q xs p.1 q.1)

module _ (db₀ : Db) (id : ℕ) (kind : String) (n : Notifier) (url : Option (ℕ → String)) (ev : Event)
    (snap : EventSnapshot) (obs : Observation) where
  -- The world at the start of the evaluation.
  abbrev Begun : World → Type 0
  Begun w = Due db₀ id kind false w × (w.db ≡ db₀)

  Begun-Lasts : Lasts Begun
  Begun-Lasts w t ts e p = (Due-Lasts db₀ id kind false w t ts e p.0, p.1)

  close_if-Due :
      (b : Bool) (i : ℕ) → Runs (Due db₀ id kind true) (close_if b i) (λ _. Due db₀ id kind true)
  close_if-Due false i = Runs-pure tt (λ w p. p)
  close_if-Due true i =
      Runs-bind _ _ _ _ _
        (Runs-wrap close_watches_failed _ (close_watches_for_event-Due db₀ id kind true i))
        (λ _. Runs-pure tt (λ w p. p))

  pub evaluate_watches-Due :
      (knew : Bool)
      → IsQuiet n
      → All
          (λ (row : ListActiveWatchesForEventRow). row.id ≡ id → is_withheld row ≡ false)
          (listed ev.id db₀)
      → any (is_reported db₀ id kind n url ev snap obs knew) (listed ev.id db₀) ≡ true
      → Runs Begun
          (evaluate_watches (record { notifier = some n; unsubscribe_url = url }) ev snap obs knew)
          (λ _. Due db₀ id kind true)
  unfolding evaluate_watches list_active_watches_for_event
  evaluate_watches-Due knew quiet open_gates reported =
      Runs-bind _ (λ rows w. (rows ≡ listed ev.id db₀) × Due db₀ id kind false w) _ _ _
        (Runs-wrap list_watches_failed _
          (Runs-query _ (λ w p. p.0.calm) Begun-Lasts λ w p. (rw p.1 refl, p.0)))
        λ rows. Runs-of_fact _ _ _ _ λ same.
          let ready = All-both _ _ (listed ev.id db₀) (listed-known ev.id db₀) open_gates in
          rw same (
            Runs-bind _ _ _ _ _
              (rw reported at (
                evaluate_each-Due db₀ id kind n url ev snap obs false knew false (listed ev.id db₀)
                  quiet ready))
              (λ c. close_if-Due c ev.id))
