-- ===== src/Worker/Process/Safe.antt =====
-- A process that hands an alert over only with a claim that it has won.
use ticket_watcher.Prelude.{
  if◌then◌else◌, ℕ, ◌≡◌, ◌⊎◌, inl, inr, refl, Bool, true, false, not, ◌&&◌, String,
}
use ticket_watcher.Prelude.Instant.{Instant}
use ticket_watcher.Prelude.Outcome.{Outcome, ok, err}
use ticket_watcher.Store.Models.{Db}
use ticket_watcher.Store.Query.{Query, DbError, failed}
use ticket_watcher.Store.Claims.{is_spent}
use ticket_watcher.Store.Ids.{Respects}
use ticket_watcher.World.{Alert}
use ticket_watcher.Worker.Once.Statements.{is_call_for}
use ticket_watcher.Worker.Process.{
  Process, returns, asks, reads_clock, hands_over, ◌>>=◌, ask, ask_any, time_now,
}

module _ (id : ℕ) (kind : String) where
  -- With a claim of the pair in hand or without: whatever the statements answer, the process hands
  -- the pair's alert over only with the claim, gains a claim only by spending
  -- the pair, and respects it otherwise.
  abbrev pub Safe : {E A : Type 0} → Bool → Process E A → Type 0
  Safe c (returns o) = Unit
  Safe c (asks B q k) =
      Safe c (k (err failed))
      × ((now : Instant) (db : Db)
          → Respects id kind db (q now db).1
            × (Safe c (k (q now db).0)
                ⊎ ((is_spent id kind db ≡ false)
                    × (is_spent id kind (q now db).1 ≡ true)
                    × Safe true (k (q now db).0))))
  Safe c (reads_clock k) = (t : Instant) → Safe c (k t)
  Safe c (hands_over a p) =
      (is_call_for id kind a ≡ true → c ≡ true) × Safe (c && not (is_call_for id kind a)) p

  module _ {E A : Type 0} where
    handed_more :
        (mine : Bool) (p : Process E A)
        → (Safe false p → Safe true p)
        → (mine ≡ true → false ≡ true)
        → Safe false p
        → Safe (not mine) p
    handed_more true p more none_left h = h
    handed_more false p more none_left h = more h

    -- A claim in hand need not be used.
    pub Safe-more : (p : Process E A) → Safe false p → Safe true p
    Safe-more (returns o) h = tt
    Safe-more (asks B q k) h = (
      Safe-more (k (err failed)) h.0,
      λ now db. (
        (h.1 now db).0,
        elim (h.1 now db).1 [
          | inl kept ↦ inl (Safe-more (k (q now db).0) kept)
          | inr won ↦ inr won
        ],
      ),
    )
    Safe-more (reads_clock k) h = λ t. Safe-more (k t) (h t)
    Safe-more (hands_over a p) h =
        (λ e. refl, handed_more (is_call_for id kind a) p (Safe-more p) h.0 h.1)

    pub Safe-any : (c : Bool) (p : Process E A) → Safe false p → Safe c p
    Safe-any true p h = Safe-more p h
    Safe-any false p h = h

  module _ {E A B : Type 0} (f : A → Process E B) (rest : (a : A) → Safe false (f a)) where
    pub Safe-bind : (c : Bool) (p : Process E A) → Safe c p → Safe c (p >>= f)
    Safe-bind c (returns (ok a)) h = Safe-any c (f a) (rest a)
    Safe-bind c (returns (err e)) h = tt
    Safe-bind c (asks C q k) h = (
      Safe-bind c (k (err failed)) h.0,
      λ now db. (
        (h.1 now db).0,
        elim (h.1 now db).1 [
          | inl kept ↦ inl (Safe-bind c (k (q now db).0) kept)
          | inr won ↦ inr (won.0, won.1, Safe-bind true (k (q now db).0) won.2)
        ],
      ),
    )
    Safe-bind c (reads_clock k) h = λ t. Safe-bind c (k t) (h t)
    Safe-bind c (hands_over a p) h = (h.0, Safe-bind _ p h.1)

  -- The same, as a fact of which the process can be read off.
  pub record IsSafe {E A : Type 0} (c : Bool) (p : Process E A) : Type 0 where
    pub at : Safe c p

  pub IsSafe-bind :
      {E A B : Type 0} (c : Bool) (p : Process E A) (f : A → Process E B)
      → IsSafe c p
      → ((a : A) → IsSafe false (f a))
      → IsSafe c (p >>= f)
  IsSafe-bind c p f h rest = record { at = Safe-bind f (λ a. (rest a).at) c p h.at }

  module _ {E A : Type 0} where
    pub IsSafe-returns : (c : Bool) (o : Outcome E A) → IsSafe c (returns o)
    IsSafe-returns c o = record { at = tt }

    pub IsSafe-if :
        (c b : Bool) (p q : Process E A) → IsSafe c p → IsSafe c q → IsSafe c (if b then p else q)
    IsSafe-if c true p q hp hq = hp
    IsSafe-if c false p q hp hq = hq

    -- A statement that respects the pair.
    pub IsSafe-ask :
        (c : Bool) (f : DbError → E) (q : Query A)
        → ((now : Instant) (db : Db) → Respects id kind db (q now db).1)
        → IsSafe c (ask f q)
    IsSafe-ask c f q keeps = record { at = (tt, λ now db. (keeps now db, inl tt)) }

    -- The pair's alert, with a claim in hand.
    pub IsSafe-hands_over :
        (c : Bool) (a : Alert) (p : Process E A)
        → (is_call_for id kind a ≡ true → c ≡ true)
        → IsSafe false p
        → IsSafe c (hands_over a p)
    IsSafe-hands_over c a p credit h = record {
      at = (credit, Safe-any (c && not (is_call_for id kind a)) p h.at);
    }

  pub IsSafe-ask_any :
      {E A : Type 0} (c : Bool) (q : Query A)
      → ((now : Instant) (db : Db) → Respects id kind db (q now db).1)
      → IsSafe {E = E} c (ask_any q)
  IsSafe-ask_any c q keeps = record { at = (tt, λ now db. (keeps now db, inl tt)) }

  pub IsSafe-time_now : {E : Type 0} (c : Bool) → IsSafe {E = E} c time_now
  IsSafe-time_now c = record { at = λ t. tt }
