-- ===== src/Service/Auth/Emails.antt =====
-- Addresses are stored normalised, and no two accounts have the same one.
use ticket_watcher.Prelude.{
  ap, ◌∙◌, ℕ, some, none, ◌≤◌, ◌≡◌, refl, arith, Bool, false, not, ◌==◌, Bool-cases, inl, inr, List,
  [], ◌∷◌, ◌++◌, String, str_eq, str_eq_iff, count, any, count-append, count-update_where,
  count-select-le, count-eq_zero, All, All-append, update_where, select,
}
use ticket_watcher.Store.Models.{Db, User}
use ticket_watcher.Store.Users.{
  create_user, new_user, set_users, mark_email_verified, update_user_password, mark_auth_token_used,
  delete_auth_tokens_for_user, create_auth_token, set_unsubscribed, set_resubscribed, delete_user,
}
use ticket_watcher.World.{World, query}
use ticket_watcher.World.Rules.{Keeps, Keeps-query}
use ticket_watcher.Auth.Unsubscribe.{Signer}
use ticket_watcher.Service.Auth.{AuthService, normalize_email}
use ticket_watcher.Service.Auth.Backend.{IsBackend, OfDb, Keeps-of_db, send-Keeps}
use ticket_watcher.Service.Requests.{AccountRequest, serve_accounts}
use ticket_watcher.Service.Requests.Kept.{KeptByRequests, serve_accounts-Keeps}

abbrev pub has_email : String → User → Bool
has_email email u = str_eq u.email email

-- At most one account has any given address.
abbrev pub UniqueEmails : Db → Type 0
UniqueEmails db = (email : String) → count (has_email email) db.users.rows ≤ 1

added_email :
    (email : String) (users : List User) (u : User)
    → any (has_email u.email) users ≡ false
    → count (has_email email) users ≤ 1
    → count (has_email email) (users ++ (u ∷ [])) ≤ 1
added_email email users u fresh h = elim (Bool-cases (has_email email u)) [
  | inl e ↦
      let same : u.email ≡ email = (str_eq_iff u.email email).0 e in
      let none_yet = count-eq_zero (has_email email) users (rw same at fresh) in
      ground (arith, count-append (has_email email) users (u ∷ []), none_yet)
  | inr e ↦ ground (arith, count-append (has_email email) users (u ∷ []), h, e)
]

-- What the calls need of the texts of Go: to lower the case or to trim a text twice is to do it once,
-- and the case of a text does not change where its white space is.
pub record IsText (s : AuthService) : Type 0 where
  pub lower_lower : (e : String) → s.to_lower (s.to_lower e) ≡ s.to_lower e
  pub trim_trim : (e : String) → s.trim_space (s.trim_space e) ≡ s.trim_space e
  pub lower_trim : (e : String) → s.to_lower (s.trim_space e) ≡ s.trim_space (s.to_lower e)

module _ (s : AuthService) where
  normalize_twice :
      (e : String) → IsText s → normalize_email s (normalize_email s e) ≡ normalize_email s e
  normalize_twice e t =
      ap s.trim_space (t.lower_trim (s.to_lower e) ∙ ap s.trim_space (t.lower_lower e))
      ∙ t.trim_trim (s.to_lower e)

  abbrev pub IsNormal : User → Type 0
  IsNormal u = normalize_email s u.email ≡ u.email

  -- Every address is stored as the services look it up, and at most one account has it.
  pub record IsDistinct (db : Db) : Type 0 where
    pub normal : All IsNormal db.users.rows
    pub unique : UniqueEmails db

  -- The account's address is the same but for its case and the white space around it.
  abbrev pub is_alike : String → User → Bool
  is_alike email u = str_eq (normalize_email s u.email) (normalize_email s email)

  count-is_alike :
      (email : String) (users : List User)
      → All IsNormal users
      → count (is_alike email) users ≡ count (has_email (normalize_email s email)) users
  count-is_alike email [] normal = refl
  count-is_alike email (u ∷ users) normal = rw (normal.0, count-is_alike email users normal.1) refl

  update-IsNormal :
      (p : User → Bool) (f : User → User) (users : List User)
      → ((u : User) → (f u).email ≡ u.email)
      → All IsNormal users
      → All IsNormal (update_where p f users)
  update-IsNormal p f [] h normal = tt
  update-IsNormal p f (u ∷ users) h normal = elim (Bool-cases (p u)) [
    | inl e ↦ rw (e, h u) (normal.0, update-IsNormal p f users h normal.1)
    | inr e ↦ rw e (normal.0, update-IsNormal p f users h normal.1)
  ]

  select-IsNormal :
      (p : User → Bool) (users : List User) → All IsNormal users → All IsNormal (select p users)
  select-IsNormal p [] normal = tt
  select-IsNormal p (u ∷ users) normal = elim (Bool-cases (p u)) [
    | inl e ↦ rw e (normal.0, select-IsNormal p users normal.1)
    | inr e ↦ rw e (select-IsNormal p users normal.1)
  ]

  create_user-IsDistinct :
      (e h : String)
      → IsText s
      → Keeps (OfDb IsDistinct) (query (create_user (normalize_email s e) h))
  unfolding create_user
  create_user-IsDistinct e h t = Keeps-query _ λ now sent db r.
      let email = normalize_email s e in
      let u = new_user email h db.users.next now in
      elim (Bool-cases (any (has_email email) db.users.rows)) [
        | inl taken ↦ rw taken r
        | inr fresh ↦ rw fresh (record {
          normal = All-append _ db.users.rows (u ∷ []) r.normal (normalize_twice e t, tt);
          unique = λ other. added_email other db.users.rows u fresh (r.unique other);
        })
      ]

  -- A statement that leaves every address alone.
  update-IsDistinct :
      (p : User → Bool) (f : User → User) (db : Db)
      → ((u : User) → (f u).email ≡ u.email)
      → IsDistinct db
      → IsDistinct (set_users p f db)
  update-IsDistinct p f db h r = record {
    normal = update-IsNormal p f db.users.rows h r.normal;
    unique = λ e. ground (
      arith,
      count-update_where (has_email e) p f db.users.rows (λ u. rw (h u) refl),
      r.unique e,
    );
  }

  same_users-IsDistinct : (db db' : Db) → db'.users ≡ db.users → IsDistinct db → IsDistinct db'
  same_users-IsDistinct db db' same r = record {
    normal = rw same r.normal;
    unique = λ e. rw same (r.unique e);
  }

module _ (s : AuthService) (g : Signer) (b : IsBackend s) (t : IsText s) where
  IsDistinct-KeptByRequests : KeptByRequests s (λ raw. Unit {0}) (OfDb (IsDistinct s))
  unfolding mark_email_verified update_user_password mark_auth_token_used
      delete_auth_tokens_for_user create_auth_token set_unsubscribed set_resubscribed
  IsDistinct-KeptByRequests = record {
    by_create_user = λ e h. create_user-IsDistinct s e h t;
    by_mark_verified = λ i. Keeps-query _ λ now sent db r.
        update-IsDistinct s _ (λ u. record u { email_verified_at = some now }) db (λ u. refl) r;
    by_update_password = λ i h. Keeps-query _ λ now sent db r.
        update-IsDistinct s _ (λ u. record u { password_hash = h }) db (λ u. refl) r;
    by_mark_used = λ i. Keeps-query _ λ now sent db r. same_users-IsDistinct s db _ refl r;
    by_delete_tokens = λ i p. Keeps-query _ λ now sent db r. same_users-IsDistinct s db _ refl r;
    by_set_unsubscribed = λ i. Keeps-query _ λ now sent db r.
        update-IsDistinct s _ (λ u. record u { unsubscribed_at = some now }) db (λ u. refl) r;
    by_set_resubscribed = λ i. Keeps-query _ λ now sent db r.
        update-IsDistinct s _ (λ u. record u { unsubscribed_at = none }) db (λ u. refl) r;
    by_hash_password = λ p. Keeps-of_db (IsDistinct s) _ (b.hash_keeps p);
    by_send = λ m. send-Keeps (IsDistinct s) s m b;
    by_random = Keeps-of_db (IsDistinct s) _ b.random_keeps;
    of_random = λ w h raw e. tt;
    by_create_token = λ i p raw exp fresh.
        Keeps-query _ λ now sent db r. same_users-IsDistinct s db _ (ground arith) r;
  }

  delete_user-IsDistinct : (i : ℕ) → Keeps (OfDb (IsDistinct s)) (query (delete_user i))
  unfolding delete_user
  delete_user-IsDistinct i = Keeps-query _ λ now sent db r. record {
    normal = select-IsNormal s (λ u. not (u.id == i)) db.users.rows r.normal;
    unique = λ e.
        ground
          (arith, count-select-le (has_email e) (λ u. not (u.id == i)) db.users.rows, r.unique e);
  }

  -- No calls on accounts, in any order and whichever fail, give one address two accounts, however it
  -- is written: if every address was stored normalised and none twice, that is still so, and at most
  -- one account has an address that is the same as any given one but for its case and the white space
  -- around it. The mailer and the random numbers leave the database alone; to lower the case of a text
  -- or to trim it twice is to do it once, and the case does not move the white space.
  pub serve_accounts-IsDistinct :
      (rs : List AccountRequest) (w : World)
      → IsDistinct s w.db
      → let w' = serve_accounts s g rs w in
        IsDistinct s w'.db × ((email : String) → count (is_alike s email) w'.db.users.rows ≤ 1)
  serve_accounts-IsDistinct rs w h =
      let kept =
        serve_accounts-Keeps s g _ (OfDb (IsDistinct s)) IsDistinct-KeptByRequests
          delete_user-IsDistinct rs w h in
      (
        kept,
        λ email. ground (
          arith,
          kept.unique (normalize_email s email),
          count-is_alike s email (serve_accounts s g rs w).db.users.rows kept.normal,
        ),
      )
