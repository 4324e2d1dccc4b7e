-- ===== src/World/Leads.antt =====
-- Rules for an action that leads from one relation to another, whether it returns or fails.
use ticket_watcher.Prelude.{◌≡◌, refl}
use ticket_watcher.Prelude.Outcome.{Outcome, ok, err}
use ticket_watcher.Prelude.Instant.{Instant}
use ticket_watcher.Store.Models.{Db}
use ticket_watcher.Store.Query.{Query}
use ticket_watcher.World.{World, Action, Sent, ◌>>=◌, wrap, follow, query}
use ticket_watcher.World.Rules.{Relation, On, Keeps, query_post}
use ticket_watcher.World.Success.{Establishes}

pub record Leads {E A : Type 0} (S R : Relation) (m : Action E A) : Type 0 where
  pub at : (w : World) → On S w → On R (m w).1

pub Leads-wrap :
    {E F A : Type 0} {S R : Relation} (f : E → F) (m : Action E A)
    → Leads S R m
    → Leads S R (wrap f m)
unfolding wrap
Leads-wrap f m h = record { at = λ w s. h.at w s }

-- A statement, at every instant and when it fails.
pub Leads-query :
    {A : Type 0} {S R : Relation} (q : Query A)
    → ((now : Instant) (sent : Sent) (db : Db) → S sent db → R sent (q now db).1)
    → ((sent : Sent) (db : Db) → S sent db → R sent db)
    → Leads S R (query q)
Leads-query {S = S} {R = R} q h f = record { at = query_post S (λ _. R) q h f }

module _ {E A B : Type 0} (S R : Relation) (m : Action E A) (f : A → Action E B) where
  follow-before :
      (o : Outcome E A) (w : World)
      → (On S w → On R w)
      → ((a : A) → Leads S R (f a))
      → On S w
      → On R (follow f o w).1
  follow-before (ok a) w sub h s = (h a).at w s
  follow-before (err e) w sub h s = sub s

  -- The first action keeps what the rest starts from.
  pub Leads-bind_before :
      Keeps S m
      → ((sent : Sent) (db : Db) → S sent db → R sent db)
      → ((a : A) → Leads S R (f a))
      → Leads S R (m >>= f)
  unfolding ◌>>=◌
  Leads-bind_before km sub h = record {
    at = λ w s. follow-before (m w).0 (m w).1 (sub _ _) h (km.at w s);
  }

  follow-after :
      (o : Outcome E A) (w : World) → ((a : A) → Keeps R (f a)) → On R w → On R (follow f o w).1
  follow-after (ok a) w h r = (h a).at w r
  follow-after (err e) w h r = r

  -- The first action leads there, and the rest stays.
  pub Leads-bind_after : Leads S R m → ((a : A) → Keeps R (f a)) → Leads S R (m >>= f)
  unfolding ◌>>=◌
  Leads-bind_after lm h = record { at = λ w s. follow-after (m w).0 (m w).1 h (lm.at w s) }

  follow-checked :
      (o : Outcome E A) (w : World)
      → ((a : A) → o ≡ ok a → On S w)
      → ((a : A) → Leads S R (f a))
      → On R w
      → On R (follow f o w).1
  follow-checked (ok a) w checked h r = (h a).at w (checked a refl)
  follow-checked (err e) w checked h r = r

  -- A check: if it returns, the rest may rely on it, and if it fails, nothing has happened.
  pub Keeps-bind_checked :
      Keeps R m → Establishes R S m → ((a : A) → Leads S R (f a)) → Keeps R (m >>= f)
  unfolding ◌>>=◌
  Keeps-bind_checked km em h = record {
    at = λ w r. follow-checked (m w).0 (m w).1 (em.at w r) h (km.at w r);
  }
