-- ===== src/Http/Isolation/Statements.antt =====
-- The statements behind the calls on accounts, and the watches of a user who does not make them.
use ticket_watcher.Prelude.{ℕ, ◌≡◌, ◌≢◌, refl, ◌∙◌, arith, not, ◌==◌, List, [], ◌∷◌, select}
use ticket_watcher.Store.Models.{Db, Watch}
use ticket_watcher.Store.Users.{
  create_user, mark_email_verified, update_user_password, mark_auth_token_used,
  delete_auth_tokens_for_user, create_auth_token, set_unsubscribed, set_resubscribed, delete_user,
}
use ticket_watcher.World.{query}
use ticket_watcher.World.Rules.{Keeps, Keeps-query}
use ticket_watcher.Service.Auth.{AuthService}
use ticket_watcher.Service.Auth.Backend.{IsBackend, OfDb, Keeps-of_db, send-Keeps}
use ticket_watcher.Service.Requests.Kept.{KeptByRequests}
use ticket_watcher.Service.Watch.Isolation.{watches_of}

module _ (v : ℕ) (ws : List Watch) where
  -- The user's watches are these.
  abbrev pub Intact : Db → Type 0
  Intact db = watches_of v db.watches.rows ≡ ws

  pub Intact-KeptByRequests :
      (s : AuthService) → IsBackend s → KeptByRequests s (λ raw. Unit {0}) (OfDb Intact)
  unfolding create_user mark_email_verified update_user_password mark_auth_token_used
      delete_auth_tokens_for_user create_auth_token set_unsubscribed set_resubscribed
  Intact-KeptByRequests s b = record {
    by_create_user = λ e h. Keeps-query _ (λ now sent db r. ground (arith, r));
    by_mark_verified = λ i. Keeps-query _ (λ now sent db r. r);
    by_update_password = λ i h. Keeps-query _ (λ now sent db r. r);
    by_mark_used = λ i. Keeps-query _ (λ now sent db r. r);
    by_delete_tokens = λ i p. Keeps-query _ (λ now sent db r. r);
    by_set_unsubscribed = λ i. Keeps-query _ (λ now sent db r. r);
    by_set_resubscribed = λ i. Keeps-query _ (λ now sent db r. r);
    by_hash_password = λ p. Keeps-of_db Intact _ (b.hash_keeps p);
    by_send = λ m. send-Keeps Intact s m b;
    by_random = Keeps-of_db Intact _ b.random_keeps;
    of_random = λ w h raw e. tt;
    by_create_token = λ i p raw exp fresh. Keeps-query _ (λ now sent db r. ground (arith, r));
  }

  watches_of-erase :
      (user : ℕ) (rows : List Watch)
      → user ≢ v
      → watches_of v (select (λ (w : Watch). not (w.user_id == user)) rows) ≡ watches_of v rows
  watches_of-erase user [] ne = refl
  watches_of-erase user (w ∷ rows) ne = ground (arith, ne, watches_of-erase user rows ne)

  pub delete_user-Intact : (user : ℕ) → user ≢ v → Keeps (OfDb Intact) (query (delete_user user))
  unfolding delete_user
  delete_user-Intact user ne =
      Keeps-query _ λ now sent db r. watches_of-erase user db.watches.rows ne ∙ r
