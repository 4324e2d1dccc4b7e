-- ===== src/Prelude/Instant.antt =====
-- Go's time.Time, and `*time.Time`. An instant is the number of nanoseconds since Go's zero time,
-- which is therefore 0; times before it are not represented. `none` is the nil pointer.
use Prim.Native.Nat.{ℕ}
use mathlib.Core.Bool.{Bool}
use ticket_watcher.Prelude.Tests.{ltb, ◌==◌}

abbrev pub Instant : Type 0
Instant = ℕ

-- `t.After(u)`
abbrev pub after : Instant → Instant → Bool
after t u = ltb u t

-- `t.Before(u)`
abbrev pub before : Instant → Instant → Bool
before t u = ltb t u

-- `t.IsZero()`
abbrev pub is_zero : Instant → Bool
is_zero t = t == 0

-- time.Second
abbrev pub second : ℕ
second = 1_000_000_000
