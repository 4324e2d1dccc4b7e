-- ===== src/Service/Account/OptOut.antt =====
-- The opt-out link of an email, and the polls after it.
use ticket_watcher.Prelude.{
  ℕ, ◌<◌, ◌^◌, ◌≡◌, ◌∙◌, refl, arith, true, false, Bool-cases, inl, inr, some, List, [], ◌∷◌,
  String, str_eq, str_eq_iff, ◌==◌, All, All-mono, update_where,
}
use ticket_watcher.Prelude.Instant.{Instant}
use ticket_watcher.World.{World, Alert, query, wrap, next_turn, throw}
use ticket_watcher.World.Rules.{next_turn_frame}
use ticket_watcher.Worker.{Deps, Fetch, run_jobs}
use ticket_watcher.Worker.Quiet.{HasQuiet}
use ticket_watcher.Worker.Consent.{run_jobs-IsConsented}
use ticket_watcher.Auth.Unsubscribe.{
  TokenError, parse_unsubscribe_token, Signer, IsDecimal, new_unsubscribe_token,
  parse_unsubscribe_token-new,
}
use ticket_watcher.Service.Account.{unsubscribe, AccountError, invalid_link, store_failed}
use ticket_watcher.Store.Users.{set_unsubscribed}
use ticket_watcher.Prelude.Outcome.{Outcome, ok, err}
use ticket_watcher.Store.Models.{User, Watch}
use ticket_watcher.Store.Owners.{is_set, may_mail}
use ticket_watcher.Worker.Consent.Statements.{IsConsented}

module _ (email : String) where
  -- The address is of no other account.
  abbrev pub IsOnlyOf : ℕ → User → Type 0
  IsOnlyOf user_id u = str_eq u.email email ≡ true → u.id ≡ user_id

  -- An account that has the address has opted out.
  abbrev IsSilent : User → Type 0
  IsSilent u = str_eq u.email email ≡ true → is_set u.unsubscribed_at ≡ true

  opted_out-IsSilent :
      (user_id : ℕ) (now : Instant) (users : List User)
      → All (IsOnlyOf user_id) users
      → All IsSilent (
          update_where
            (λ (u : User). u.id == user_id)
            (λ u. record u { unsubscribed_at = some now })
            users)
  opted_out-IsSilent user_id now [] h = tt
  opted_out-IsSilent user_id now (u ∷ users) h = elim (Bool-cases (u.id == user_id)) [
    | inl e ↦ rw e ((λ same. refl), opted_out-IsSilent user_id now users h.1)
    | inr e ↦ rw e (
      (λ same. let id : u.id ≡ user_id = h.0 same in ground (arith, e, id)),
      opted_out-IsSilent user_id now users h.1,
    )
  ]

  may_mail-IsSilent :
      (id : ℕ) (watches : List Watch) (users : List User)
      → All IsSilent users
      → may_mail id email watches users ≡ false
  may_mail-IsSilent id watches [] h = refl
  may_mail-IsSilent id watches (u ∷ users) h = elim (Bool-cases (str_eq u.email email)) [
    | inl e ↦ ground (arith, e, h.0 e, may_mail-IsSilent id watches users h.1)
    | inr e ↦ ground (arith, e, may_mail-IsSilent id watches users h.1)
  ]

  -- Nobody with the address is consented to.
  IsConsented-other :
      (users : List User) (watches : List Watch) (a : Alert)
      → All IsSilent users
      → IsConsented users watches a
      → str_eq a.to_email email ≡ false
  IsConsented-other users watches a silent c = elim (Bool-cases (str_eq a.to_email email)) [
    | inl e ↦
        let same : a.to_email ≡ email = (str_eq_iff a.to_email email).0 e in
        ground (arith, rw same at c, may_mail-IsSilent a.watch_id watches users silent)
    | inr e ↦ e
  ]

  abbrev Call : Type 0
  Call = World → Outcome AccountError (Unit {0}) × World

  -- What a token stands for.
  abbrev opt_out_of : Outcome TokenError ℕ → Call
  opt_out_of o = elim o [
    | err e ↦ throw invalid_link
    | ok user_id ↦ wrap store_failed (query (set_unsubscribed user_id))
  ]

  opt_out_of-silences :
      (user_id : ℕ) (o : Outcome TokenError ℕ) (w : World)
      → o ≡ ok user_id
      → All (IsOnlyOf user_id) w.db.users.rows
      → (next_turn w w.script).0 ≡ false
      → ((opt_out_of o w).0 ≡ ok tt)
        × ((opt_out_of o w).1.notify_calls ≡ w.notify_calls)
        × All IsSilent (opt_out_of o w).1.db.users.rows
  unfolding query wrap set_unsubscribed
  opt_out_of-silences user_id o w e only works =
      let frame = next_turn_frame w w.script in
      let now = (next_turn w w.script).1.clock in
      rw (e, works)
        (refl, frame.1, rw frame.0 (opted_out-IsSilent user_id now w.db.users.rows only))

module _ (g : Signer) (secret email : String) (user_id : ℕ) (decimal : IsDecimal g)
    (range : user_id < 2 ^ 63) where
  -- The opt-out link of an email stops the alerts: the call with the token made for an account returns
  -- without an error when its statement does not fail, and none of the alerts that any polls hand over
  -- after it, whatever fails in them, is addressed to the account's address. No other account has the
  -- address, no alert was handed over before, and the notifier is quiet; the id is one of an int64,
  -- and Go's decimal numbers of that type read back.
  pub unsubscribe-silences :
      (d : Deps) (jobs : List (ℕ × Fetch)) (w : World)
      → HasQuiet d.notifier
      → w.notify_calls ≡ []
      → All (IsOnlyOf email user_id) w.db.users.rows
      → (next_turn w w.script).0 ≡ false
      → let (r, w') = unsubscribe g secret (new_unsubscribe_token g secret user_id) w in
        (r ≡ ok tt)
        × All (λ (a : Alert). str_eq a.to_email email ≡ false) (run_jobs d jobs w').notify_calls
  unfolding unsubscribe
  unsubscribe-silences d jobs w quiet no_calls only works =
      let token = new_unsubscribe_token g secret user_id in
      let w' = (unsubscribe g secret token w).1 in
      let done =
        opt_out_of-silences email user_id (parse_unsubscribe_token g secret token) w
          (parse_unsubscribe_token-new g secret user_id decimal range) only works in
      let kept = run_jobs-IsConsented d jobs w' quiet (done.1 ∙ no_calls) in
      (
        done.0,
        All-mono _ _ (run_jobs d jobs w').notify_calls
            (λ a c. IsConsented-other email w'.db.users.rows w'.db.watches.rows a done.2 c) kept.0,
      )
