-- ===== src/Prelude/Text.antt =====
-- Texts by their characters, as Go's package strings reads them.
use Prim.Native.Nat.{ℕ}
use Prim.Native.Char.{Char, code}
use Prim.Native.String.{String, [], ◌∷◌}
use mathlib.Core.Path.{◌≡◌, refl}
use mathlib.Core.Bool.{Bool, true, false, ◌||◌}
use mathlib.Core.Option.{Option, none, some}
use native.Mathlib.Omega.{arith}
use ticket_watcher.Prelude.Tests.{◌==◌, if◌then◌else◌}

-- `s` before `t`, by the constructors.
abbrev pub append : String → String → String
append [] t = t
append (c ∷ s) t = c ∷ append s t

-- The text has this character.
abbrev pub has_char : ℕ → String → Bool
has_char sep [] = false
has_char sep (c ∷ s) = code c == sep || has_char sep s

-- strings.Cut, around a character.
abbrev pub cut : ℕ → String → Option (String × String)
cut sep [] = none
cut sep (c ∷ s) =
    if code c == sep
    then some ([], s)
    else elim (cut sep s) [ none ↦ none | some (before, after) ↦ some (c ∷ before, after) ]

-- What follows a prefix: strings.HasPrefix with strings.TrimPrefix.
abbrev pub strip_prefix : String → String → Option String
strip_prefix [] s = some s
strip_prefix (c ∷ p) [] = none
strip_prefix (c ∷ p) (d ∷ s) = if code c == code d then strip_prefix p s else none

pub cut-append :
    (sep : ℕ) (c : Char) (before after : String)
    → (code c == sep) ≡ true
    → has_char sep before ≡ false
    → cut sep (append before (c ∷ after)) ≡ some (before, after)
cut-append sep c [] after e h = rw e refl
cut-append sep c (d ∷ before) after e h =
    let other : (code d == sep) ≡ false = ground (arith, h) in
    let rest = cut-append sep c before after e (ground (arith, h)) in rw (other, rest) refl
