-- ===== src/Service/Auth/Once.antt =====
-- A link that was redeemed never works again.
pub mod Spent
use ticket_watcher.Prelude.{
  ℕ, find?-count, ◌≤◌, ◌≡◌, refl, arith, false, not, ◌&&◌, ◌==◌, inl, inr, List, [], ◌∷◌, String,
  str_eq, count, find?, count-append, count-select-le, Option, none, some, Option-cases,
}
use ticket_watcher.Prelude.Instant.{Instant}
use ticket_watcher.Prelude.Outcome.{ok, is_ok, map_err-eq_ok}
use ticket_watcher.Store.Models.{Db, User, AuthToken}
use ticket_watcher.Store.Query.{one}
use ticket_watcher.Store.Users.{
  new_auth_token, create_user, mark_email_verified, update_user_password, mark_auth_token_used,
  delete_auth_tokens_for_user, create_auth_token, set_unsubscribed, set_resubscribed, delete_user,
  get_valid_auth_token, is_valid_token,
}
use ticket_watcher.World.{World, query, wrap, throw}
use ticket_watcher.World.Rules.{
  Keeps, Relation, On, Keeps-query, Keeps-pure, keeps_rules, query_post,
}
use ticket_watcher.World.Success.{
  Refuses, Refuses-throw, Refuses-if, Refuses-bind, Refuses-wrap, Refuses-query, Establishes,
  Establishes-throw, Establishes-if, Establishes-wrap, Establishes-bind, Establishes-bind_of,
}
use ticket_watcher.Auth.{hash_token}
use ticket_watcher.Auth.Unsubscribe.{Signer}
use ticket_watcher.Service.Auth.{
  Action, weak_password, purpose_password_reset, is_weak, install_password, reset_password,
  token_params, AuthService, AuthError, invalid_token, unless_missing, redeem_token, reset_password,
  install_password, is_weak, store_failed, purpose_password_reset,
}
use ticket_watcher.Service.Auth.Backend.{IsBackend, OfDb, Keeps-of_db, send-Keeps}
use ticket_watcher.Service.Auth.Links.{
  is_valid_token-le_is_live, is_link, is_live, is_live-update_used, is_live-mark_used,
}
use ticket_watcher.Service.Requests.{AccountRequest, serve_accounts}
use ticket_watcher.Service.Requests.Kept.{KeptByRequests, serve_accounts-Keeps}
use ticket_watcher.Service.Auth.Once.Spent.{
  IsSpentSince, IsSpent, IsUnique, IsOther, IsFresh, IsSpent-KeptByRequests, delete_user-IsSpent,
}

module _ (s : AuthService) (raw : String) (from : ℕ) where
  abbrev hash : String
  hash = hash_token s.crypto raw

  -- The link is in the table once, and the sequence has come to the number.
  abbrev Ready : Db → Type 0
  Ready db = IsUnique hash db × (from ≤ db.auth_tokens.next)

  abbrev Redeemed : Relation
  Redeemed = OfDb (IsSpentSince from hash)

  -- What the lookup found, in a table that has the link once.
  abbrev Found : String → AuthToken → Relation
  Found purpose tok sent db =
      Ready db
      × ((now : Instant) × (find? (is_valid_token hash purpose now) db.auth_tokens.rows ≡ some tok))

  one-eq_ok : (o : Option AuthToken) (tok : AuthToken) → one o ≡ ok tok → o ≡ some tok
  one-eq_ok none tok e = ground (arith, e)
  one-eq_ok (some t) tok e = cc

  lookup-Found :
      (purpose : String) (w : World)
      → Ready w.db
      → (tok : AuthToken) → (query (get_valid_auth_token hash purpose) w).0 ≡ ok tok
      → On (Found purpose tok) (query (get_valid_auth_token hash purpose) w).1
  unfolding get_valid_auth_token
  lookup-Found purpose w unique tok e =
      query_post (OfDb Ready)
        (λ o sent db. (tok : AuthToken) → o ≡ ok tok → Found purpose tok sent db)
        (get_valid_auth_token hash purpose) (λ now sent db r tok e. (r, (now, one-eq_ok _ tok e)))
        (λ sent db r tok e. ground (arith, e)) w unique tok e

  abbrev lookup : String → Action AuthError AuthToken
  lookup purpose = wrap (unless_missing invalid_token) (query (get_valid_auth_token hash purpose))

  wrapped_lookup-Found :
      (purpose : String) (w : World)
      → Ready w.db
      → (tok : AuthToken) → (lookup purpose w).0 ≡ ok tok
      → On (Found purpose tok) (lookup purpose w).1
  unfolding wrap
  wrapped_lookup-Found purpose w unique tok e =
      lookup-Found purpose w unique tok (map_err-eq_ok (unless_missing invalid_token) _ tok e)

  mark_used-Establishes :
      (purpose : String) (tok : AuthToken)
      → Establishes (Found purpose tok) Redeemed (query (mark_auth_token_used tok.id))
  unfolding mark_auth_token_used
  mark_used-Establishes purpose tok = record {
    at = λ w found a e.
        query_post (Found purpose tok) (λ o sent db. o ≡ ok a → IsSpentSince from hash db)
          (mark_auth_token_used tok.id)
          (λ now sent db r e.
            (is_live-mark_used hash purpose r.1.0 now db.auth_tokens.rows tok r.0.0 r.1.1, r.0.1))
          (λ sent db r e. ground (arith, e)) w found e;
  }

  -- Who redeems a link has spent it.
  redeem_token-Establishes :
      (purpose : String) → Establishes (OfDb Ready) Redeemed (redeem_token s raw purpose)
  unfolding redeem_token
  redeem_token-Establishes purpose =
      Establishes-if (str_eq raw "") (throw invalid_token) _ (Establishes-throw invalid_token) (
        Establishes-bind_of (OfDb Ready) _ (lookup purpose) _ (Found purpose)
          (wrapped_lookup-Found purpose)
          (λ tok.
            Establishes-bind _ _ _ _
              (Establishes-wrap _ _ store_failed _ (mark_used-Establishes purpose tok))
              (λ _. Keeps-pure tok)))

  module _ (b : IsBackend s) (fresh : IsFresh s hash from) where
    abbrev kept : KeptByRequests s (IsOther s hash) Redeemed
    kept = IsSpent-KeptByRequests s hash from b fresh

    reset_password-Establishes :
        (password : String) → Establishes (OfDb Ready) Redeemed (reset_password s raw password)
    unfolding reset_password install_password
    reset_password-Establishes password =
        Establishes-if (is_weak password) (throw weak_password) _ (Establishes-throw weak_password)
          (Establishes-bind _ _ _ _ (redeem_token-Establishes purpose_password_reset) (λ tok.
            search
              (keeps_rules, kept.by_hash_password, kept.by_update_password, kept.by_delete_tokens)
              depth 12))

  -- The link is spent, and the users are these.
  abbrev SpentBy : List User → Relation
  SpentBy users sent db = IsSpent hash db × (db.users.rows ≡ users)

  lookup-eq_none :
      (purpose : String) (now : Instant) (rows : List AuthToken)
      → count (is_live hash) rows ≡ 0
      → is_ok (one (find? (is_valid_token hash purpose now) rows)) ≡ false
  lookup-eq_none purpose now rows none_live =
      elim (Option-cases (find? (is_valid_token hash purpose now) rows)) [
        | inl e ↦ rw e refl
        | inr (t, e) ↦
            let found = find?-count (is_valid_token hash purpose now) rows t e in
            let live = is_valid_token-le_is_live hash purpose now rows in
            ground (arith, found, live, none_live)
      ]

  get_valid-Refuses :
      (users : List User) (purpose : String)
      → Refuses (SpentBy users) (query (get_valid_auth_token hash purpose))
  unfolding get_valid_auth_token
  get_valid-Refuses users purpose =
      Refuses-query _ (λ now sent db r. (lookup-eq_none purpose now db.auth_tokens.rows r.0, r))

  redeem_token-Refuses :
      (users : List User) (purpose : String) → Refuses (SpentBy users) (redeem_token s raw purpose)
  unfolding redeem_token
  redeem_token-Refuses users purpose =
      Refuses-if (str_eq raw "") (throw invalid_token) _ (Refuses-throw invalid_token)
        (Refuses-bind _ (lookup purpose) _ (Refuses-wrap _ _ (get_valid-Refuses users purpose)))

  reset_password-Refuses :
      (users : List User) (password : String)
      → Refuses (SpentBy users) (reset_password s raw password)
  unfolding reset_password install_password
  reset_password-Refuses users password =
      Refuses-if (is_weak password) (throw weak_password) _ (Refuses-throw weak_password) (
        Refuses-bind _ (redeem_token s raw purpose_password_reset) _
          (redeem_token-Refuses users purpose_password_reset))

-- A link that has reset a password never does so again: whatever calls on accounts follow, in any
-- order and whichever fail, the link is then refused, and no account changes. Before the reset no two rows have
-- the link's hash, and no random token drawn from then on has it, by the sequence of the tokens'
-- ids; the mailer and the random numbers leave the database alone.
pub reset_password-once :
    (s : AuthService) (g : Signer) (raw first second : String) (rs : List AccountRequest)
    (w : World)
    → IsBackend s
    → IsFresh s (hash_token s.crypto raw) w.db.auth_tokens.next
    → IsUnique (hash_token s.crypto raw) w.db
    → (reset_password s raw first w).0 ≡ ok tt
    → let w' = serve_accounts s g rs (reset_password s raw first w).1 in
      (is_ok (reset_password s raw second w').0 ≡ false)
      × ((reset_password s raw second w').1.db.users.rows ≡ w'.db.users.rows)
reset_password-once s g raw first second rs w b fresh unique e =
    let from = w.db.auth_tokens.next in
    let hash = hash_token s.crypto raw in
    let w' = serve_accounts s g rs (reset_password s raw first w).1 in
    let spent =
      serve_accounts-Keeps s g _ (Redeemed s raw from) (kept s raw from b fresh)
        (delete_user-IsSpent s hash from) rs (reset_password s raw first w).1
        ((reset_password-Establishes s raw from b fresh first).at w (unique, omega arith) tt e) in
    let refused =
      (reset_password-Refuses s raw from w'.db.users.rows second).at w' (spent.0, refl) in
    (refused.0, refused.1.1)
