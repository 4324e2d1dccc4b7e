-- ===== src/Auth/Tests.antt =====
-- Opt-out tokens, with numbers written in strokes.
use ticket_watcher.Prelude.{
  ℕ, zero, suc, ◌<◌, ◌^◌, ◌≡◌, refl, ap, false, none, some, Option, String, ltb, arith,
  if◌then◌else◌,
}
use ticket_watcher.Prelude.Outcome.{ok}
use ticket_watcher.Prelude.Text.{has_char, cut}
use ticket_watcher.Auth.Unsubscribe.{
  Signer, IsDecimal, new_unsubscribe_token, parse_unsubscribe_token, parse_unsubscribe_token-new,
  parse_unsubscribe_token-signed, unsubscribe_mac,
}
use Prim.Native.String.{[], ◌∷◌}

abbrev pub strokes : ℕ → String
strokes zero = []
strokes (suc n) = "|" ∷ strokes n

abbrev pub strokes_of : String → ℕ
strokes_of [] = 0
strokes_of (c ∷ s) = suc (strokes_of s)

abbrev in_int64 : ℕ → Option ℕ
in_int64 n = if ltb n (2 ^ 63) then some n else none

abbrev pub signer : Signer
signer = record {
  format_int = strokes;
  parse_int = λ s. in_int64 (strokes_of s);
  hmac = λ secret text. secret;
}

no_dot-strokes : (n : ℕ) → has_char 46 (strokes n) ≡ false
no_dot-strokes zero = refl
no_dot-strokes (suc n) = no_dot-strokes n

pub strokes_of-strokes : (n : ℕ) → strokes_of (strokes n) ≡ n
strokes_of-strokes zero = refl
strokes_of-strokes (suc n) = ap suc (strokes_of-strokes n)

in_int64-some : (n : ℕ) → n < 2 ^ 63 → in_int64 n ≡ some n
in_int64-some n range = ground (arith, range)

in_int64-range : (m n : ℕ) → in_int64 m ≡ some n → n < 2 ^ 63
in_int64-range m n h = ground (arith, h)

pub signer-IsDecimal : IsDecimal signer
signer-IsDecimal = record {
  no_dot = no_dot-strokes;
  reads_back = λ n range. rw (strokes_of-strokes n) (in_int64-some n range);
  in_range = λ s n. in_int64-range (strokes_of s) n;
}

abbrev link : String
link = new_unsubscribe_token signer "k" 3

link-text : link ≡ "|||.k"
link-text = refl

parse_unsubscribe_token-new_example :
    parse_unsubscribe_token signer "k" (new_unsubscribe_token signer "k" 3) ≡ ok 3
parse_unsubscribe_token-new_example =
    parse_unsubscribe_token-new signer "k" 3 signer-IsDecimal (omega arith)

link-read : parse_unsubscribe_token signer "k" link ≡ ok 3
link-read = refl

parse_unsubscribe_token-signed_example :
    (id : String) × (cut 46 link ≡ some (id, unsubscribe_mac signer "k" id))
    × (signer.parse_int id ≡ some 3)
parse_unsubscribe_token-signed_example = parse_unsubscribe_token-signed signer "k" link 3 link-read
