-- ===== src/Service/Auth/Links.antt =====
-- A link of an email works once: what is spent stays spent.
use ticket_watcher.Prelude.{
  ◌≤◌, ◌≡◌, refl, arith, Bool, true, false, ◌&&◌, List, [], ◌∷◌, String, str_eq, ◌==◌, count, find?,
  update_where, count-update_where-le, count_mono, find?-count, some, Bool-cases, inl, inr,
}
use ticket_watcher.Prelude.Instant.{Instant}
use ticket_watcher.Store.Models.{AuthToken}
use ticket_watcher.Store.Users.{is_none, is_valid_token}

-- The row is the link's, whose token has this hash.
abbrev pub is_link : String → AuthToken → Bool
is_link hash t = str_eq t.token_hash hash

abbrev pub is_live : String → AuthToken → Bool
is_live hash t = is_link hash t && is_none t.used_at

abbrev used : Instant → AuthToken → AuthToken
used now t = record t { used_at = some now }

is_live-le_is_link :
    (hash : String) (rows : List AuthToken) → count (is_live hash) rows ≤ count (is_link hash) rows
is_live-le_is_link hash rows = count_mono _ _ rows (λ t h. ground (arith, h))

-- Marking rows as used makes none live.
pub is_live-update_used :
    (hash : String) (now : Instant) (q : AuthToken → Bool) (rows : List AuthToken)
    → count (is_live hash) (update_where q (used now) rows) ≤ count (is_live hash) rows
is_live-update_used hash now q rows =
    count-update_where-le _ q (used now) rows (λ t h. ground (arith, h))

is_valid_token-le_is_link :
    (hash purpose : String) (now : Instant) (rows : List AuthToken)
    → count (is_valid_token hash purpose now) rows ≤ count (is_link hash) rows
is_valid_token-le_is_link hash purpose now rows = count_mono _ _ rows (λ t h. ground (arith, h))

pub is_valid_token-le_is_live :
    (hash purpose : String) (now : Instant) (rows : List AuthToken)
    → count (is_valid_token hash purpose now) rows ≤ count (is_live hash) rows
is_valid_token-le_is_live hash purpose now rows = count_mono _ _ rows (λ t h. ground (arith, h))

-- The one row of a link, marked as used, leaves none that is live.
pub is_live-mark_used :
    (hash purpose : String) (now later : Instant) (rows : List AuthToken) (tok : AuthToken)
    → count (is_link hash) rows ≤ 1
    → find? (is_valid_token hash purpose now) rows ≡ some tok
    → count (is_live hash) (update_where (λ t. t.id == tok.id) (used later) rows) ≡ 0
is_live-mark_used hash purpose now later [] tok one found = refl
is_live-mark_used hash purpose now later (t ∷ rows) tok one found =
    elim (Bool-cases (is_valid_token hash purpose now t)) [
      | inl e ↦
          let same : t ≡ tok = ground (arith, rw e at found) in
          let linked : is_link hash t ≡ true = ground (arith, e) in
          let rest = is_live-update_used hash later (λ x. x.id == tok.id) rows in
          let none_left = is_live-le_is_link hash rows in
          let same_id : (t.id == tok.id) ≡ true = rw same (ground arith) in
          rw same_id (ground (arith, one, linked, rest, none_left))
      | inr e ↦
          let found' : find? (is_valid_token hash purpose now) rows ≡ some tok =
            ground (arith, rw e at found) in
          let some_left = find?-count (is_valid_token hash purpose now) rows tok found' in
          let linked = is_valid_token-le_is_link hash purpose now rows in
          let other : is_link hash t ≡ false = ground (arith, one, some_left, linked) in
          let rest =
            is_live-mark_used hash purpose now later rows tok (ground (arith, one)) found' in
          ground (arith, other, rest)
    ]
