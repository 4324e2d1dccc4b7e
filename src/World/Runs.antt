-- ===== src/World/Runs.antt =====
-- Rules for actions that must succeed: what holds before, and what holds of the value and the world
-- after.
use ticket_watcher.Prelude.{ℕ, ◌+◌, List, ◌∷◌, All, if◌then◌else◌, ◌≡◌, refl, Bool, true, false, []}
use ticket_watcher.Prelude.Outcome.{map_err, Outcome, ok, err}
use ticket_watcher.Store.Query.{Query}
use ticket_watcher.World.{
  Turn, attempt, time_now, pure, World, Action, ◌>>=◌, wrap, follow, next_turn, query,
}

abbrev pub Condition : Type 1
Condition = World → Type 0

-- The call returned, and the condition holds of what it returned.
abbrev pub Ended : {E A : Type 0} → (A → Condition) → Outcome E A → Condition
Ended Q (ok a) w = Q a w
Ended Q (err e) w = ⊥

-- From every world where `P` holds, the action returns a value of which `Q` holds.
pub record Runs {E A : Type 0} (P : Condition) (m : Action E A) (Q : A → Condition) : Type 0 where
  pub at : (w : World) → P w → Ended Q (m w).0 (m w).1

module _ {E A : Type 0} {P : Condition} {Q : A → Condition} where
  pub Runs-pure : (a : A) → ((w : World) → P w → Q a w) → Runs {E = E} P (pure a) Q
  unfolding pure
  Runs-pure a h = record { at = h }

  pub Runs-if_of :
      (b : Bool) (m n : Action E A)
      → (b ≡ true → Runs P m Q)
      → (b ≡ false → Runs P n Q)
      → Runs P (if b then m else n) Q
  Runs-if_of true m n hm hn = hm refl
  Runs-if_of false m n hm hn = hn refl

-- A fact about the values, known before.
pub Runs-of_fact :
    {E A : Type 0} (F : Type 0) (P : Condition) (Q : A → Condition) (m : Action E A)
    → (F → Runs P m Q)
    → Runs (λ w. F × P w) m Q
Runs-of_fact F P Q m h = record { at = λ w p. (h p.0).at w p.1 }

pub weaken-Ended :
    {E A : Type 0} (Q Q' : A → Condition)
    → ((a : A) (w : World) → Q' a w → Q a w)
    → (o : Outcome E A) (w : World) → Ended Q' o w
    → Ended Q o w
weaken-Ended Q Q' post (ok a) w q = post a w q
weaken-Ended Q Q' post (err e) w q = elim q [ ]

pub Runs-weaken :
    {E A : Type 0} (P P' : Condition) (Q Q' : A → Condition) (m : Action E A)
    → Runs P' m Q'
    → ((w : World) → P w → P' w)
    → ((a : A) (w : World) → Q' a w → Q a w)
    → Runs P m Q
Runs-weaken P P' Q Q' m h pre post = record {
  at = λ w p. weaken-Ended Q Q' post (m w).0 (m w).1 (h.at w (pre w p));
}

module _ {E A B : Type 0} where
  follow-Ended :
      (Q : A → Condition) (S : B → Condition) (f : A → Action E B)
      → ((a : A) → Runs (Q a) (f a) S)
      → (o : Outcome E A) (w : World) → Ended Q o w
      → Ended S (follow f o w).0 (follow f o w).1
  follow-Ended Q S f hf (ok a) w q = (hf a).at w q
  follow-Ended Q S f hf (err e) w q = elim q [ ]

  pub Runs-bind :
      (P : Condition) (Q : A → Condition) (S : B → Condition) (m : Action E A) (f : A → Action E B)
      → Runs P m Q
      → ((a : A) → Runs (Q a) (f a) S)
      → Runs P (m >>= f) S
  unfolding ◌>>=◌
  Runs-bind P Q S m f hm hf = record {
    at = λ w p. follow-Ended Q S f hf (m w).0 (m w).1 (hm.at w p);
  }

wrap-Ended :
    {E F A : Type 0} (Q : A → Condition) (f : E → F) (o : Outcome E A) (w : World)
    → Ended Q o w
    → Ended Q (map_err f o) w
wrap-Ended Q f (ok a) w q = q
wrap-Ended Q f (err e) w q = elim q [ ]

module _ {E F A : Type 0} {P : Condition} {Q : A → Condition} where
  pub Runs-wrap : (f : E → F) (m : Action E A) → Runs P m Q → Runs P (wrap f m) Q
  unfolding wrap
  Runs-wrap f m h = record { at = λ w p. wrap-Ended Q f (m w).0 (m w).1 (h.at w p) }

-- No call fails from here on. Time may pass.
abbrev pub IsCalm : Condition
IsCalm w = All (λ (t : Turn). t.fails ≡ false) w.script

-- The time that passes before the calls of a script.
abbrev pub time_of : List Turn → ℕ
time_of [] = 0
time_of (t ∷ ts) = t.elapsed + time_of ts

-- The world at a call, after its turn.
abbrev pub after_turn : World → Turn → List Turn → World
after_turn w t ts = record w { clock = w.clock + t.elapsed; script = ts }

-- A condition that outlasts the time that a turn takes.
abbrev pub Lasts : Condition → Type 0
Lasts P = (w : World) (t : Turn) (ts : List Turn) → w.script ≡ t ∷ ts → P w → P (after_turn w t ts)

pub IsCalm-Lasts : Lasts IsCalm
IsCalm-Lasts w t ts e calm = (rw e at calm).1

pub next_turn_calm :
    (P : Condition) (w : World) (ts : List Turn)
    → w.script ≡ ts
    → All (λ (t : Turn). t.fails ≡ false) ts
    → Lasts P
    → P w
    → ((next_turn w ts).0 ≡ false) × P (next_turn w ts).1
unfolding next_turn
next_turn_calm P w [] e calm lasts p = (refl, p)
next_turn_calm P w (t ∷ ts) e calm lasts p = (calm.0, lasts w t ts e p)

module _ {A : Type 0} {P : Condition} {Q : A → Condition} where
  -- A statement in a calm world: the database answers it after its turn.
  pub Runs-query :
      (q : Query A)
      → ((w : World) → P w → IsCalm w)
      → Lasts P
      → ((w : World) → P w → Ended Q (q w.clock w.db).0 (record w { db = (q w.clock w.db).1 }))
      → Runs P (query q) Q
  unfolding query
  Runs-query q calm lasts h = record {
    at = λ w p.
        let turn = next_turn_calm P w w.script refl (calm w p) lasts p in
        rw turn.0 (h (next_turn w w.script).1 turn.1);
  }

pub Runs-time_now :
    {E : Type 0} {P : Condition} → Runs {E = E} P time_now (λ t w. (t ≡ w.clock) × P w)
unfolding time_now
Runs-time_now = record { at = λ w p. (refl, p) }

holds-Ended :
    {E A : Type 0} (Q : Condition) (o : Outcome E A) (w : World) → Ended (λ _. Q) o w → Q w
holds-Ended Q (ok a) w q = q
holds-Ended Q (err e) w q = elim q [ ]

-- A call whose error is dropped.
pub Runs-attempt :
    {E F A : Type 0} (P Q : Condition) (m : Action E A)
    → Runs P m (λ _. Q)
    → Runs {E = F} P (attempt m) (λ _. Q)
unfolding attempt
Runs-attempt P Q m h = record { at = λ w p. holds-Ended Q (m w).0 (m w).1 (h.at w p) }

-- What a call that must succeed returned.
pub Ended_unit :
    {E : Type 0} (Q : Condition) (o : Outcome E (Unit {0})) (w : World)
    → Ended (λ _. Q) o w
    → (o ≡ ok tt) × Q w
Ended_unit Q (ok tt) w q = (refl, q)
Ended_unit Q (err e) w q = elim q [ ]
