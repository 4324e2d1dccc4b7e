-- ===== src/Notifier/Safety.antt =====
-- A line of an HTML part has no markup but its own emphasis.
use ticket_watcher.Prelude.{
  ℕ, zero, suc, ◌+◌, ◌≤◌, ◌≡◌, refl, arith, Bool, true, false, not, ◌&&◌, ◌||◌, ◌==◌, if◌then◌else◌,
  Option, none, some, Option-cases, inl, inr,
}
use ticket_watcher.Prelude.Text.{append}
use Prim.Native.String.{String, [], ◌∷◌}
use Prim.Native.Char.{Char, code}
use ticket_watcher.Notifier.Markup.{
  escape_char, escape_string, until_close, emphasis, match_bold, Mode, outside, opening, inside,
  closing, replace_bold, html_line,
}

-- `'`, `<`, `>` and `"`: what opens and closes a tag or an attribute.
abbrev pub is_special : Char → Bool
is_special c = code c == 39 || code c == 60 || code c == 62 || code c == 34

-- Text without special characters but for `<strong>` and `</strong>`, which alternate. The Boolean
-- says whether one is open.
pub data IsMarkup : Bool → String → Type 0 where
  done : IsMarkup false []
  text :
      {b : Bool} (c : Char) (s : String) → is_special c ≡ false → IsMarkup b s → IsMarkup b (c ∷ s)
  opened : (s : String) → IsMarkup true s → IsMarkup false (append "<strong>" s)
  closed : (s : String) → IsMarkup false s → IsMarkup true (append "</strong>" s)

abbrev size : String → ℕ
size [] = 0
size (c ∷ s) = suc (size s)

abbrev is_clean : String → Bool
is_clean [] = true
is_clean (c ∷ s) = not (is_special c) && is_clean s

is_clean-append :
    (s t : String) → is_clean s ≡ true → is_clean t ≡ true → is_clean (append s t) ≡ true
is_clean-append [] t hs ht = ht
is_clean-append (c ∷ s) t hs ht = ground (arith, is_clean-append s t)

is_clean-if :
    (b : Bool) (s t : String)
    → is_clean s ≡ true
    → (b ≡ false → is_clean t ≡ true)
    → is_clean (if b then s else t) ≡ true
is_clean-if true s t hs ht = hs
is_clean-if false s t hs ht = ht refl

is_clean-escape_char : (c : Char) → is_clean (escape_char c) ≡ true
is_clean-escape_char c = is_clean-if (code c == 38) _ _ refl λ h38.
    is_clean-if (code c == 39) _ _ refl λ h39. is_clean-if (code c == 60) _ _ refl λ h60.
      is_clean-if (code c == 62) _ _ refl
        λ h62. is_clean-if (code c == 34) _ _ refl λ h34. ground arith

is_clean-escape_string : (s : String) → is_clean (escape_string s) ≡ true
unfolding escape_string
is_clean-escape_string [] = refl
is_clean-escape_string (c ∷ s) =
    is_clean-append (escape_char c) (escape_string s) (is_clean-escape_char c)
      (is_clean-escape_string s)

until_close-size : (s : String) (n : ℕ) → until_close s ≡ some n → n + 2 ≤ size s
unfolding until_close
until_close-size [] n h = ground (arith, h)
until_close-size (c ∷ []) n h = ground (arith, h)
until_close-size (c ∷ d ∷ s) n h =
    let rest = until_close (d ∷ s) in
    elim (Option-cases rest) [
      | inl e ↦ ground (arith, rw e at h)
      | inr (m, e) ↦ ground (arith, rw e at h, until_close-size (d ∷ s) m e)
    ]

emphasis-size : (s : String) (n : ℕ) → emphasis s ≡ some n → n + 2 ≤ size s
unfolding emphasis
emphasis-size [] n h = ground (arith, h)
emphasis-size (c ∷ s) n h = elim (Option-cases (until_close s)) [
  | inl e ↦ ground (arith, rw e at h)
  | inr (m, e) ↦ ground (arith, rw e at h, until_close-size s m e)
]

-- A match fits: its two stars, its group and two stars more.
match_bold-size : (s : String) (n : ℕ) → match_bold s ≡ some n → n + 4 ≤ size s
unfolding match_bold
match_bold-size [] n h = ground (arith, h)
match_bold-size (c ∷ []) n h = ground (arith, h)
match_bold-size (c ∷ d ∷ s) n h = ground (arith, h, emphasis-size s n)

-- The mode's match ends within the text.
abbrev Fits : Mode → String → Type 0
Fits outside s = Unit
Fits (opening n) s = n + 3 ≤ size s
Fits (inside n) s = n + 2 ≤ size s
Fits closing s = 1 ≤ size s

abbrev within : Mode → Bool
within outside = false
within (opening n) = true
within (inside n) = true
within closing = false

abbrev tagged : Mode → String → String
tagged m s = replace_bold "<strong>" "</strong>" m s

-- The step between two matches, by what matches here.
at_match-IsMarkup :
    (c : Char) (s : String)
    → is_special c ≡ false
    → IsMarkup false (tagged outside s)
    → ((n : ℕ) → n + 3 ≤ size s → IsMarkup true (tagged (opening n) s))
    → (r : Option ℕ) → match_bold (c ∷ s) ≡ r
    → IsMarkup false
        (elim r [ none ↦ c ∷ tagged outside s | some n ↦ append "<strong>" (tagged (opening n) s) ])
at_match-IsMarkup c s h next bold none e = text c _ h next
at_match-IsMarkup c s h next bold (some n) e =
    opened _ (bold n (omega (arith, match_bold-size (c ∷ s) n e)))

replace_bold-IsMarkup :
    (m : Mode) (s : String) → is_clean s ≡ true → Fits m s → IsMarkup (within m) (tagged m s)
unfolding replace_bold
replace_bold-IsMarkup outside [] h f = done
replace_bold-IsMarkup (opening n) [] h f = ground (arith, f)
replace_bold-IsMarkup (inside n) [] h f = ground (arith, f)
replace_bold-IsMarkup closing [] h f = done
replace_bold-IsMarkup outside (c ∷ s) h f =
    at_match-IsMarkup c s (ground arith) (replace_bold-IsMarkup outside s (ground arith) tt)
      (λ n fits. replace_bold-IsMarkup (opening n) s (ground arith) fits) (match_bold (c ∷ s)) refl
replace_bold-IsMarkup (opening n) (c ∷ s) h f =
    replace_bold-IsMarkup (inside n) s (ground arith) (omega arith)
replace_bold-IsMarkup (inside zero) (c ∷ s) h f =
    closed _ (replace_bold-IsMarkup closing s (ground arith) (omega arith))
replace_bold-IsMarkup (inside (suc n)) (c ∷ s) h f =
    text c _ (ground arith) (replace_bold-IsMarkup (inside n) s (ground arith) (omega arith))
replace_bold-IsMarkup closing (c ∷ s) h f = replace_bold-IsMarkup outside s (ground arith) tt

-- Whatever text comes from outside, its line in the HTML part has no quotes and no angle brackets
-- but those of `<strong>` and `</strong>`, each opening closed before the next.
pub html_line-IsMarkup : (s : String) → IsMarkup false (html_line s)
unfolding html_line
html_line-IsMarkup s = replace_bold-IsMarkup outside (escape_string s) (is_clean-escape_string s) tt
