-- ===== src/World/Rules.antt =====
-- Rules for actions: what a relation between what was sent and the database needs, to be kept by
-- every action of a program.
use ticket_watcher.Prelude.{if◌then◌else◌, ◌≡◌, refl, Bool, true, false, List, [], ◌∷◌}
use ticket_watcher.Prelude.Instant.{Instant}
use ticket_watcher.Prelude.Outcome.{Outcome, ok, err}
use ticket_watcher.Store.Models.{Db}
use ticket_watcher.Store.Query.{Query, DbError, failed}
use ticket_watcher.World.{
  attempt, throw, time_now, pure, World, Turn, Sent, sent_by, Action, ◌>>=◌, wrap, follow,
  next_turn, answer, query,
}

-- A turn moves the clock and the script, and nothing else.
pub next_turn_frame :
    (w : World) (ts : List Turn)
    → ((next_turn w ts).1.db ≡ w.db)
      × ((next_turn w ts).1.notify_calls ≡ w.notify_calls)
      × ((next_turn w ts).1.outbox ≡ w.outbox)
unfolding next_turn
next_turn_frame w [] = (refl, refl, refl)
next_turn_frame w (t ∷ ts) = (refl, refl, refl)

-- A relation between what was sent and the database.
abbrev pub Relation : Type 1
Relation = Sent → Db → Type 0

abbrev pub On : Relation → World → Type 0
On R w = R (sent_by w) w.db

-- `m` keeps `R`, whether it returns or fails.
pub record Keeps {E A : Type 0} (R : Relation) (m : Action E A) : Type 0 where
  pub at : (w : World) → On R w → On R (m w).1

On-of_frame :
    (R : Relation) (w w' : World)
    → w'.db ≡ w.db
    → w'.notify_calls ≡ w.notify_calls
    → w'.outbox ≡ w.outbox
    → On R w
    → On R w'
On-of_frame R w w' d c o r = rw (d, c, o) r

module _ {A : Type 0} (R : Relation) (P : Outcome DbError A → Relation) (q : Query A) where
  answer_post :
      ((now : Instant) (sent : Sent) (db : Db) → R sent db → P (q now db).0 sent (q now db).1)
      → ((sent : Sent) (db : Db) → R sent db → P (err failed) sent db)
      → (fails : Bool) (w : World) → On R w
      → On (P (answer q fails w).0) (answer q fails w).1
  answer_post h f true w r = f (sent_by w) w.db r
  answer_post h f false w r = h w.clock (sent_by w) w.db r

  -- What a statement establishes, at every instant, and what its failure leaves.
  pub query_post :
      ((now : Instant) (sent : Sent) (db : Db) → R sent db → P (q now db).0 sent (q now db).1)
      → ((sent : Sent) (db : Db) → R sent db → P (err failed) sent db)
      → (w : World) → On R w
      → On (P (query q w).0) (query q w).1
  unfolding query
  query_post h f w r =
      let frame = next_turn_frame w w.script in
      answer_post h f (next_turn w w.script).0 (next_turn w w.script).1
        (On-of_frame R w (next_turn w w.script).1 frame.0 frame.1 frame.2 r)

module _ {A : Type 0} {R : Relation} (q : Query A) where
  -- A statement keeps what it keeps at every instant.
  pub Keeps-query :
      ((now : Instant) (sent : Sent) (db : Db) → R sent db → R sent (q now db).1)
      → Keeps R (query q)
  Keeps-query h = record { at = query_post R (λ _. R) q h (λ sent db r. r) }

  -- A statement that only reads keeps everything.
  pub Keeps-query_of_read : ((now : Instant) (db : Db) → (q now db).1 ≡ db) → Keeps R (query q)
  Keeps-query_of_read h = Keeps-query (λ now sent db r. rw (h now db) r)

module _ {E A : Type 0} {R : Relation} where
  pub Keeps-pure : (a : A) → Keeps {E = E} R (pure a)
  unfolding pure
  Keeps-pure a = record { at = λ w h. h }

  pub Keeps-throw : (e : E) → Keeps {A = A} R (throw e)
  unfolding throw
  Keeps-throw e = record { at = λ w h. h }

  pub Keeps-if :
      (b : Bool) (m n : Action E A) → Keeps R m → Keeps R n → Keeps R (if b then m else n)
  Keeps-if true m n km kn = km
  Keeps-if false m n km kn = kn

  -- Each branch may use what the test says.
  pub Keeps-if_of :
      (b : Bool) (m n : Action E A)
      → (b ≡ true → Keeps R m)
      → (b ≡ false → Keeps R n)
      → Keeps R (if b then m else n)
  Keeps-if_of true m n km kn = km refl
  Keeps-if_of false m n km kn = kn refl

module _ {E A B : Type 0} {R : Relation} where
  pub follow-Keeps :
      (f : A → Action E B)
      → ((a : A) → Keeps R (f a))
      → (o : Outcome E A) (w : World) → On R w
      → On R (follow f o w).1
  follow-Keeps f hf (ok a) w r = (hf a).at w r
  follow-Keeps f hf (err e) w r = r

  pub Keeps-bind :
      (m : Action E A) (f : A → Action E B)
      → Keeps R m
      → ((a : A) → Keeps R (f a))
      → Keeps R (m >>= f)
  unfolding ◌>>=◌
  Keeps-bind m f hm hf = record { at = λ w h. follow-Keeps f hf (m w).0 (m w).1 (hm.at w h) }

  follow-Keeps_of :
      (Q : A → Type 0) (f : A → Action E B)
      → ((a : A) → Q a → Keeps R (f a))
      → (o : Outcome E A) (w : World) → ((a : A) → o ≡ ok a → Q a)
      → On R w
      → On R (follow f o w).1
  follow-Keeps_of Q f hf (ok a) w q r = (hf a (q a refl)).at w r
  follow-Keeps_of Q f hf (err e) w q r = r

  -- The first action's value has a property that the rest relies on.
  pub Keeps-bind_of :
      (Q : A → Type 0) (m : Action E A) (f : A → Action E B)
      → Keeps R m
      → ((w : World) → On R w → (a : A) → (m w).0 ≡ ok a → Q a)
      → ((a : A) → Q a → Keeps R (f a))
      → Keeps R (m >>= f)
  unfolding ◌>>=◌
  Keeps-bind_of Q m f hm hq hf = record {
    at = λ w h. follow-Keeps_of Q f hf (m w).0 (m w).1 (hq w h) (hm.at w h);
  }

module _ {R : Relation} where
  pub Keeps-time_now : {E : Type 0} → Keeps {E = E} R time_now
  unfolding time_now
  Keeps-time_now = record { at = λ w h. h }

module _ {E F A : Type 0} {R : Relation} where
  pub Keeps-wrap : (f : E → F) (m : Action E A) → Keeps R m → Keeps R (wrap f m)
  unfolding wrap
  Keeps-wrap f m h = record { at = λ w r. h.at w r }

  pub Keeps-attempt : (m : Action E A) → Keeps R m → Keeps {E = F} R (attempt m)
  unfolding attempt
  Keeps-attempt m h = record { at = λ w r. h.at w r }

pub ruleset keeps_rules =
    (Keeps-pure, Keeps-throw, Keeps-if, Keeps-bind, Keeps-time_now, Keeps-wrap, Keeps-attempt)
