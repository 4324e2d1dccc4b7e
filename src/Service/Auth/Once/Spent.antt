-- ===== src/Service/Auth/Once/Spent.antt =====
-- A link that has been used, and that no call on accounts makes live again.
use ticket_watcher.Prelude.{
  ℕ, ◌≤◌, ◌≡◌, arith, false, not, ◌&&◌, ◌==◌, [], ◌∷◌, String, str_eq, count, count-append,
  count-select-le,
}
use ticket_watcher.Prelude.Outcome.{ok}
use ticket_watcher.Store.Models.{Db}
use ticket_watcher.Store.Users.{
  new_auth_token, create_user, mark_email_verified, update_user_password, mark_auth_token_used,
  delete_auth_tokens_for_user, create_auth_token, set_unsubscribed, set_resubscribed, delete_user,
}
use ticket_watcher.World.{World, query}
use ticket_watcher.World.Rules.{Keeps, Keeps-query}
use ticket_watcher.Auth.{hash_token}
use ticket_watcher.Service.Auth.{token_params, AuthService}
use ticket_watcher.Service.Auth.Backend.{IsBackend, OfDb, Keeps-of_db, send-Keeps}
use ticket_watcher.Service.Auth.Links.{is_link, is_live, is_live-update_used}
use ticket_watcher.Service.Requests.Kept.{KeptByRequests}

-- Every token with this hash has been used.
abbrev pub IsSpent : String → Db → Type 0
IsSpent hash db = count (is_live hash) db.auth_tokens.rows ≡ 0

-- The table's UNIQUE constraint, at one hash.
abbrev pub IsUnique : String → Db → Type 0
IsUnique hash db = count (is_link hash) db.auth_tokens.rows ≤ 1

-- It stays so, and the sequence of the tokens' ids has come to this number.
abbrev pub IsSpentSince : ℕ → String → Db → Type 0
IsSpentSince from hash db = IsSpent hash db × (from ≤ db.auth_tokens.next)

-- A token with another hash.
abbrev pub IsOther : AuthService → String → String → Type 0
IsOther s hash raw = str_eq (hash_token s.crypto raw) hash ≡ false

module _ (s : AuthService) (hash : String) (from : ℕ) where
  -- No random token has this hash again that is drawn once the sequence has come to the number: the
  -- link itself was drawn before.
  pub record IsFresh : Type 0 where
    pub other :
        (w : World) (raw : String)
        → from ≤ w.db.auth_tokens.next
        → (s.crypto.random_token w).0 ≡ ok raw
        → IsOther s hash raw

  pub IsSpent-KeptByRequests :
      IsBackend s → IsFresh → KeptByRequests s (IsOther s hash) (OfDb (IsSpentSince from hash))
  unfolding create_user mark_email_verified update_user_password mark_auth_token_used
      delete_auth_tokens_for_user create_auth_token set_unsubscribed set_resubscribed delete_user
  IsSpent-KeptByRequests b fresh = record {
    by_create_user = λ e h. Keeps-query _ (λ now sent db r. ground (arith, r));
    by_mark_verified = λ i. Keeps-query _ (λ now sent db r. r);
    by_update_password = λ i h. Keeps-query _ (λ now sent db r. r);
    by_mark_used = λ i. Keeps-query _ λ now sent db r.
        ground (arith, r, is_live-update_used hash now (λ t. t.id == i) db.auth_tokens.rows);
    by_delete_tokens = λ i p. Keeps-query _ λ now sent db r. ground (
      arith,
      r,
      count-select-le (is_live hash) (λ t. not (t.user_id == i && str_eq t.purpose p))
          db.auth_tokens.rows,
    );
    by_set_unsubscribed = λ i. Keeps-query _ (λ now sent db r. r);
    by_set_resubscribed = λ i. Keeps-query _ (λ now sent db r. r);
    by_hash_password = λ p. Keeps-of_db (IsSpentSince from hash) _ (b.hash_keeps p);
    by_send = λ m. send-Keeps (IsSpentSince from hash) s m b;
    by_random = Keeps-of_db (IsSpentSince from hash) _ b.random_keeps;
    of_random = λ w h raw e. fresh.other w raw h.1 e;
    by_create_token = λ i p raw exp other. Keeps-query _ λ now sent db r. ground (
      arith,
      r,
      other,
      count-append (is_live hash) db.auth_tokens.rows (
          new_auth_token (token_params s i p (hash_token s.crypto raw) exp) db.auth_tokens.next now
          ∷ []),
    );
  }

  pub delete_user-IsSpent : (i : ℕ) → Keeps (OfDb (IsSpentSince from hash)) (query (delete_user i))
  unfolding delete_user
  delete_user-IsSpent i = Keeps-query _ λ now sent db r.
      ground
        (arith, r, count-select-le (is_live hash) (λ t. not (t.user_id == i)) db.auth_tokens.rows)
