-- ===== src/Prelude/Outcome.antt =====
-- A Go call that returns a value or an error.
use mathlib.Core.Path.{◌≡◌}
use mathlib.Core.Bool.{Bool, true, false}

pub data Outcome (E A : Type 0) : Type 0 where
  ok : A → Outcome E A
  err : E → Outcome E A

module _ {E A : Type 0} where
  abbrev pub is_ok : Outcome E A → Bool
  is_ok (ok a) = true
  is_ok (err e) = false

-- `fmt.Errorf("...: %w", err)`: the error within the caller's own.
abbrev pub map_err : {E F A : Type 0} → (E → F) → Outcome E A → Outcome F A
map_err f (ok a) = ok a
map_err f (err e) = err (f e)

pub map_err-eq_ok :
    {E F A : Type 0} (f : E → F) (r : Outcome E A) (a : A) → map_err f r ≡ ok a → r ≡ ok a
map_err-eq_ok f (ok b) a h = cc
map_err-eq_ok f (err e) a h = cc
