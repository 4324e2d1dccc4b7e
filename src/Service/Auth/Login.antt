-- ===== src/Service/Auth/Login.antt =====
-- Who gets a token.
use ticket_watcher.Prelude.{
  ◌≡◌, refl, arith, Bool, true, false, not, ◌&&◌, String, str_eq, any, find?, any-find?, Option,
  none, some, if◌then◌else◌,
}
use ticket_watcher.Prelude.Outcome.{ok, map_err-eq_ok}
use ticket_watcher.Store.Models.{User, Db}
use ticket_watcher.Store.Query.{one}
use ticket_watcher.Store.Users.{get_user_by_email}
use ticket_watcher.World.{World, query, wrap, throw}
use ticket_watcher.World.Rules.{Relation, On, query_post}
use ticket_watcher.World.Success.{Establishes, Establishes-throw, Establishes-bind_of}
use ticket_watcher.Auth.{new_token}
use ticket_watcher.Service.Auth.{
  Call, AuthService, login, normalize_email, unless_missing, invalid_credentials, crypto_failed,
}

-- An account with this address, normalised, accepts the password.
abbrev pub accepts : AuthService → String → String → User → Bool
accepts s email password u =
    str_eq u.email (normalize_email s email) && s.crypto.check_password u.password_hash password

module _ (s : AuthService) (email password : String) (old : Db) where
  abbrev Unchanged : Relation
  Unchanged sent db = old ≡ db

  abbrev Found : User → Relation
  Found u sent db =
      find? (λ (u : User). str_eq u.email (normalize_email s email)) old.users.rows ≡ some u

  abbrev HasAccount : Relation
  HasAccount sent db = any (accepts s email password) old.users.rows ≡ true

  one-eq_ok : (o : Option User) (u : User) → one o ≡ ok u → o ≡ some u
  one-eq_ok none u e = ground (arith, e)
  one-eq_ok (some v) u e = cc

  lookup-Found :
      (w : World)
      → On Unchanged w
      → (u : User)
      → (wrap
          (unless_missing invalid_credentials)
          (query (get_user_by_email (normalize_email s email)))
          w).0
        ≡ ok u
      → On
          (Found u)
          (wrap
            (unless_missing invalid_credentials)
            (query (get_user_by_email (normalize_email s email)))
            w).1
  unfolding wrap get_user_by_email
  lookup-Found w same u e =
      query_post Unchanged (λ o sent db. o ≡ ok u → Found u sent db)
        (get_user_by_email (normalize_email s email)) (λ now sent db p e. one-eq_ok _ u (rw p e))
        (λ sent db p e. ground (arith, e)) w same (map_err-eq_ok _ _ u e)

  checked-Establishes :
      (u : User) (m : Call String) (refused : Bool)
      → (refused ≡ false → s.crypto.check_password u.password_hash password ≡ true)
      → Establishes (Found u) HasAccount (if refused then throw invalid_credentials else m)
  checked-Establishes u m true h = Establishes-throw invalid_credentials
  checked-Establishes u m false h = record {
    at = λ w found t e.
        any-find? _ (λ u. s.crypto.check_password u.password_hash password) old.users.rows u found
          (h refl);
  }

  login-Establishes : Establishes Unchanged HasAccount (login s email password)
  unfolding login
  login-Establishes = Establishes-bind_of Unchanged HasAccount _ _ Found lookup-Found λ u.
      checked-Establishes u (wrap crypto_failed (new_token s.crypto s.secret u.id s.ttl))
        (not (s.crypto.check_password u.password_hash password)) (λ e. ground (arith, e))

-- Who is given a token has named an account, by its normalised address, and a password that its
-- hash accepts.
pub login-HasAccount :
    (s : AuthService) (email password token : String) (w : World)
    → (login s email password w).0 ≡ ok token
    → any (accepts s email password) w.db.users.rows ≡ true
login-HasAccount s email password token w e =
    (login-Establishes s email password w.db).at w refl token e
