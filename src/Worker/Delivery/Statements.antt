-- ===== src/Worker/Delivery/Statements.antt =====
-- What a poll without failures does about the alert of one (watch, kind) pair: the claim and the
-- hand-over.
use ticket_watcher.Prelude.{
  ℕ, ◌≡◌, ◌∙◌, refl, Bool, true, not, ◌&&◌, ◌||◌, some, ◌∷◌, String, str_eq, str_eq_iff, ◌==◌, any,
  arith, Bool-cases, inl, inr,
}
use ticket_watcher.Evaluator.{Kind, kind_text}
use ticket_watcher.Store.Models.{Watch, Db}
use ticket_watcher.Store.Claims.{any-append_alert, any_id-update_where}
use ticket_watcher.Store.Watches.{
  set_watches, has_watch, is_claimed, set_last_evaluation, ListActiveWatchesForEventRow,
  claim_watch_alert, mark_notified, close_watches_for_event,
}
use ticket_watcher.World.{World, Alert, query}
use ticket_watcher.World.Runs.{
  Runs, Runs-pure, Runs-if_of, Runs-wrap, Runs-query, IsCalm, IsCalm-Lasts, Lasts,
}
use ticket_watcher.Worker.{needs_claim, claim_failed, Notifier, claim, notify_with}
use ticket_watcher.Worker.Quiet.{IsQuiet}
use ticket_watcher.Worker.Once.Statements.{is_call_for}

-- The alert was handed over.
abbrev pub is_handed_over : ℕ → String → World → Bool
is_handed_over id kind w = any (is_call_for id kind) w.notify_calls

module _ (db₀ : Db) (id : ℕ) (kind : String) where
  -- Nothing fails, the watches are those of the start, and the alert was handed over, or it is
  -- not yet due and can still be claimed.
  pub record Due (done : Bool) (w : World) : Type 0 where
    pub calm : IsCalm w
    pub known : (i : ℕ) → has_watch i w.db ≡ has_watch i db₀
    pub due : (is_handed_over id kind w || (not done && not (is_claimed id kind w.db))) ≡ true

  -- The same after a claim that answered `c`, which may have been this pair's.
  pub record Cleared (done mine : Bool) (c : ℕ) (w : World) : Type 0 where
    pub calm : IsCalm w
    pub known : (i : ℕ) → has_watch i w.db ≡ has_watch i db₀
    pub cleared :
        (is_handed_over id kind w
          || (not done && not mine && not (is_claimed id kind w.db))
          || (mine && not (c == 0)))
        ≡ true

  pub Due-Lasts : (done : Bool) → Lasts (Due done)
  Due-Lasts done w t ts e p = record {
    calm = IsCalm-Lasts w t ts e p.calm;
    known = p.known;
    due = p.due;
  }

  abbrev pub is_mine : ℕ → String → Bool
  is_mine i k = i == id && str_eq k kind

  is_claimed-is_mine :
      (i : ℕ) (k : String) (db : Db)
      → is_mine i k ≡ true
      → is_claimed i k db ≡ is_claimed id kind db
  is_claimed-is_mine i k db mine =
      let same_id : i ≡ id = ground arith in
      let same_kind : k ≡ kind = ground (arith, str_eq_iff k kind) in rw (same_id, same_kind) refl

  claim_query-Cleared :
      (done : Bool) (i : ℕ) (k : String)
      → has_watch i db₀ ≡ true
      → Runs (Due done) (query (claim_watch_alert i k)) (Cleared done (is_mine i k))
  unfolding claim_watch_alert
  claim_query-Cleared done i k there =
      Runs-query (claim_watch_alert i k) (λ w p. p.calm) (Due-Lasts done)
        λ w p.
          rw (p.known i, there)
            (elim (Bool-cases (is_claimed i k w.db)) [
              | inl taken ↦ rw taken (record {
                calm = p.calm;
                known = p.known;
                cleared = ground (arith, p.due, is_claimed-is_mine i k w.db);
              })
              | inr free ↦ rw free (record {
                calm = p.calm;
                known = p.known;
                cleared =
                    ground (arith, p.due, any-append_alert id i kind k w.clock w.db.watch_alerts);
              })
            ])

  pub claim-Cleared :
      (done : Bool) (row : ListActiveWatchesForEventRow) (k : Kind)
      → has_watch row.id db₀ ≡ true
      → Runs (Due done) (claim row k) (Cleared done (is_mine row.id (kind_text k)))
  claim-Cleared done row k there =
      Runs-if_of (needs_claim k) _ _
        (λ yes. Runs-wrap (claim_failed k) _ (claim_query-Cleared done row.id (kind_text k) there))
        (λ no.
          Runs-pure 1
            λ w p. record { calm = p.calm; known = p.known; cleared = ground (arith, p.due) })

  -- An update of watches that leaves their ids alone.
  Due-set_watches :
      (done : Bool) (p : Watch → Bool) (f : Watch → Watch) (w : World)
      → ((v : Watch) → (f v).id ≡ v.id)
      → Due done w
      → Due done (record w { db = set_watches p f w.db })
  Due-set_watches done p f w h due = record {
    calm = due.calm;
    known = λ j. any_id-update_where j p f w.db.watches.rows h ∙ due.known j;
    due = due.due;
  }

  pub mark_notified-Due :
      (done : Bool) (i : ℕ) → Runs (Due done) (query (mark_notified i)) (λ _. Due done)
  unfolding mark_notified
  mark_notified-Due done i =
      Runs-query (mark_notified i) (λ w p. p.calm) (Due-Lasts done)
        (λ w p. Due-set_watches done _ _ w (λ v. refl) p)

  pub set_last_evaluation-Due :
      (done : Bool) (i : ℕ) (b : Bool)
      → Runs (Due done) (query (set_last_evaluation i b)) (λ _. Due done)
  unfolding set_last_evaluation
  set_last_evaluation-Due done i b =
      Runs-query (set_last_evaluation i b) (λ w p. p.calm) (Due-Lasts done)
        (λ w p. Due-set_watches done _ _ w (λ v. refl) p)

  pub close_watches_for_event-Due :
      (done : Bool) (i : ℕ) → Runs (Due done) (query (close_watches_for_event i)) (λ _. Due done)
  unfolding close_watches_for_event
  close_watches_for_event-Due done i =
      Runs-query (close_watches_for_event i) (λ w p. p.calm) (Due-Lasts done)
        (λ w p. Due-set_watches done _ _ w (λ v. refl) p)

  pub weaken-Due : (w : World) → Due true w → (done : Bool) → Due done w
  weaken-Due w p done = record { calm = p.calm; known = p.known; due = ground (arith, p.due) }

  -- A hand-over to a notifier that is there.
  pub notify_with-Due :
      (n : Notifier) (a : Alert) (done mine : Bool) (c : ℕ) (w : World)
      → IsQuiet n
      → (mine ≡ true → is_call_for id kind a ≡ true)
      → Cleared done mine c w
      → Due (done || mine) (notify_with (some n) a w)
  notify_with-Due n a done mine c w quiet same p =
      let w' = record w { notify_calls = a ∷ w.notify_calls } in
      record {
        calm = quiet.keeps_calm a w' p.calm;
        known = λ j. rw (quiet.keeps_watches a w') (p.known j);
        due =
            rw (quiet.keeps_calls a w', quiet.keeps_alerts a w') (ground (arith, p.cleared, same));
      }
