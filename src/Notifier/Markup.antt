-- ===== src/Notifier/Markup.antt =====
-- internal/notifier/render.go, the emphasis of a line: `boldRe`, `plain`, `htmlLine`, and
-- html.EscapeString, from Go's standard library. A text is read by its characters.
use ticket_watcher.Prelude.{ℕ, zero, suc, Bool, ◌&&◌, ◌==◌, if◌then◌else◌, Option, none, some}
use ticket_watcher.Prelude.Text.{append}
use Prim.Native.String.{String, [], ◌∷◌}
use Prim.Native.Char.{Char, code}

-- html.EscapeString on one character: `&`, `'`, `<`, `>` and `"` have entities.
abbrev pub escape_char : Char → String
escape_char c =
    if code c == 38
    then "&amp;"
    else if code c == 39
    then "&#39;"
    else if code c == 60
    then "&lt;"
    else if code c == 62
    then "&gt;"
    else if code c == 34
    then "&#34;"
    else c ∷ []

-- html.EscapeString
unfoldable pub escape_string : String → String
escape_string [] = []
escape_string (c ∷ s) = append (escape_char c) (escape_string s)

abbrev pub is_star : Char → Bool
is_star c = code c == 42

-- The characters up to the next `**` on the line.
unfoldable pub until_close : String → Option ℕ
until_close [] = none
until_close (c ∷ []) = none
until_close (c ∷ d ∷ s) =
    let rest = until_close (d ∷ s) in
    if is_star c && is_star d
    then some 0
    else if code c == 10
    then none
    else elim rest [ none ↦ none | some n ↦ some (suc n) ]

-- What `(.+?)\*\*` matches at the start of a text: one character at least, as few as will do, and no
-- line feed.
unfoldable pub emphasis : String → Option ℕ
unfolding until_close
emphasis [] = none
emphasis (c ∷ s) =
    if code c == 10 then none else elim (until_close s) [ none ↦ none | some n ↦ some (suc n) ]

-- What `\*\*(.+?)\*\*` matches at the start of a text: the length of its group.
unfoldable pub match_bold : String → Option ℕ
unfolding emphasis
match_bold [] = none
match_bold (c ∷ []) = none
match_bold (c ∷ d ∷ s) = if is_star c && is_star d then emphasis s else none

-- Where the replacement stands: between two matches, at the second star that opens a match, within
-- the group with so many characters to come, at the second star that closes it.
pub data Mode : Type 0 where
  outside : Mode
  opening inside : ℕ → Mode
  closing : Mode

-- `boldRe.ReplaceAllString(s, before + "$1" + after)`, from the left, one character at a time.
unfoldable pub replace_bold : String → String → Mode → String → String
unfolding match_bold
replace_bold before after m [] = []
replace_bold before after outside (c ∷ s) = elim (match_bold (c ∷ s)) [
  | none ↦ c ∷ replace_bold before after outside s
  | some n ↦ append before (replace_bold before after (opening n) s)
]
replace_bold before after (opening n) (c ∷ s) = replace_bold before after (inside n) s
replace_bold before after (inside zero) (c ∷ s) = append after (replace_bold before after closing s)
replace_bold before after (inside (suc n)) (c ∷ s) = c ∷ replace_bold before after (inside n) s
replace_bold before after closing (c ∷ s) = replace_bold before after outside s

-- plain
unfoldable pub plain : String → String
unfolding replace_bold
plain s = replace_bold "" "" outside s

-- htmlLine
unfoldable pub html_line : String → String
unfolding replace_bold escape_string
html_line s = replace_bold "<strong>" "</strong>" outside (escape_string s)
