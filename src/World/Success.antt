-- ===== src/World/Success.antt =====
-- Rules for what an action establishes when it returns, whatever it leaves when it fails.
use ticket_watcher.Prelude.{◌∙◌, ◌≡◌, refl, Bool, true, false, if◌then◌else◌, arith}
use ticket_watcher.Prelude.Outcome.{map_err, is_ok, Outcome, ok, err, map_err-eq_ok}
use ticket_watcher.World.{
  query, Db, Sent, Instant, Query, World, Action, ◌>>=◌, wrap, throw, follow,
}
use ticket_watcher.World.Rules.{query_post, Relation, On, Keeps}

-- From a world where `P` holds, `m` leaves one where `R` holds, if it returns.
pub record Establishes {E A : Type 0} (P R : Relation) (m : Action E A) : Type 0 where
  pub at : (w : World) → On P w → (a : A) → (m w).0 ≡ ok a → On R (m w).1

module _ {E A : Type 0} {P R : Relation} where
  pub Establishes-throw : (e : E) → Establishes {A = A} P R (throw e)
  unfolding throw
  Establishes-throw e = record { at = λ w p a h. ground (arith, h) }

  pub Establishes-if :
      (b : Bool) (m n : Action E A)
      → Establishes P R m
      → Establishes P R n
      → Establishes P R (if b then m else n)
  Establishes-if true m n hm hn = hm
  Establishes-if false m n hm hn = hn

pub Establishes-wrap :
    {E F A : Type 0} (P R : Relation) (f : E → F) (m : Action E A)
    → Establishes P R m
    → Establishes P R (wrap f m)
unfolding wrap
Establishes-wrap P R f m h = record { at = λ w p a e. h.at w p a (map_err-eq_ok f (m w).0 a e) }

module _ {E A B : Type 0} (P R : Relation) (m : Action E A) (f : A → Action E B) where
  -- The first action establishes it, and the rest keeps it.
  follow-kept :
      (o : Outcome E A) (w : World) (b : B)
      → ((a : A) → o ≡ ok a → On R w)
      → ((a : A) → Keeps R (f a))
      → (follow f o w).0 ≡ ok b
      → On R (follow f o w).1
  follow-kept (ok a) w b h k e = (k a).at w (h a refl)
  follow-kept (err x) w b h k e = ground (arith, e)

  pub Establishes-bind : Establishes P R m → ((a : A) → Keeps R (f a)) → Establishes P R (m >>= f)
  unfolding ◌>>=◌
  Establishes-bind hm hf = record { at = λ w p b e. follow-kept (m w).0 (m w).1 b (hm.at w p) hf e }

  follow-established :
      (Q : A → Relation) (o : Outcome E A) (w : World) (b : B)
      → ((a : A) → o ≡ ok a → On (Q a) w)
      → ((a : A) → Establishes (Q a) R (f a))
      → (follow f o w).0 ≡ ok b
      → On R (follow f o w).1
  follow-established Q (ok a) w b q k e = (k a).at w (q a refl) b e
  follow-established Q (err x) w b q k e = ground (arith, e)

  -- The rest establishes it, from what the first action's value says.
  pub Establishes-bind_of :
      (Q : A → Relation)
      → ((w : World) → On P w → (a : A) → (m w).0 ≡ ok a → On (Q a) (m w).1)
      → ((a : A) → Establishes (Q a) R (f a))
      → Establishes P R (m >>= f)
  unfolding ◌>>=◌
  Establishes-bind_of Q hm hf = record {
    at = λ w p b e. follow-established Q (m w).0 (m w).1 b (hm w p) hf e;
  }

-- From a world where `R` holds, `m` fails, and leaves one where it holds.
pub record Refuses {E A : Type 0} (R : Relation) (m : Action E A) : Type 0 where
  pub at : (w : World) → On R w → (is_ok (m w).0 ≡ false) × On R (m w).1

module _ {E A : Type 0} {R : Relation} where
  pub Refuses-throw : (e : E) → Refuses {A = A} R (throw e)
  unfolding throw
  Refuses-throw e = record { at = λ w r. (refl, r) }

  pub Refuses-if :
      (b : Bool) (m n : Action E A) → Refuses R m → Refuses R n → Refuses R (if b then m else n)
  Refuses-if true m n hm hn = hm
  Refuses-if false m n hm hn = hn

module _ {E A B : Type 0} (R : Relation) where
  follow-refused :
      (f : A → Action E B) (o : Outcome E A) (w : World)
      → (is_ok o ≡ false) × On R w
      → (is_ok (follow f o w).0 ≡ false) × On R (follow f o w).1
  follow-refused f (ok a) w h = ground (arith, h.0)
  follow-refused f (err e) w h = (refl, h.1)

  pub Refuses-bind : (m : Action E A) (f : A → Action E B) → Refuses R m → Refuses R (m >>= f)
  unfolding ◌>>=◌
  Refuses-bind m f h = record { at = λ w r. follow-refused f (m w).0 (m w).1 (h.at w r) }

is_ok-map_err : {E F A : Type 0} (f : E → F) (o : Outcome E A) → is_ok (map_err f o) ≡ is_ok o
is_ok-map_err f (ok a) = refl
is_ok-map_err f (err e) = refl

pub Refuses-wrap :
    {E F A : Type 0} {R : Relation} (f : E → F) (m : Action E A)
    → Refuses R m
    → Refuses R (wrap f m)
unfolding wrap
Refuses-wrap f m h = record { at = λ w r. (is_ok-map_err f (m w).0 ∙ (h.at w r).0, (h.at w r).1) }

-- A statement that is refused at every instant, and changes nothing then.
pub Refuses-query :
    {A : Type 0} {R : Relation} (q : Query A)
    → ((now : Instant) (sent : Sent) (db : Db)
        → R sent db
        → (is_ok (q now db).0 ≡ false) × R sent (q now db).1)
    → Refuses R (query q)
Refuses-query {R = R} q h = record {
  at = query_post R (λ o sent db. (is_ok o ≡ false) × R sent db) q h (λ sent db r. (refl, r));
}
