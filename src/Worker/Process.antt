-- ===== src/Worker/Process.antt =====
-- A poll cut into what a goroutine does without a break: one statement, one reading of the clock, or
-- one alert handed to the notifier. Between two of them any other goroutine may go on.
pub mod Poll
pub mod Alone
pub mod Safe
pub mod Claiming
pub mod Interleaved
mod Tests
use ticket_watcher.Prelude.{String, ℕ, zero, suc, Bool, true, false, List, [], ◌∷◌, Option}
use ticket_watcher.Prelude.Instant.{Instant}
use ticket_watcher.Prelude.Outcome.{Outcome, ok, err, map_err}
use ticket_watcher.Store.Query.{Query, DbError}
use ticket_watcher.Store.Users.{
  create_user, mark_email_verified, update_user_password, set_unsubscribed, set_resubscribed,
  delete_user, CreateAuthTokenParams, create_auth_token, mark_auth_token_used,
  delete_auth_tokens_for_user,
}
use ticket_watcher.Store.Events.{upsert_event_by_tmid, UpsertEventByTmidParams, mark_event_due}
use ticket_watcher.Store.Watches.{create_watch, CreateWatchParams, update_watch, delete_watch}
use ticket_watcher.World.{World, Action, Alert, query}
use ticket_watcher.Worker.{Notifier, notify_with}

-- What is left of a call: its outcome, or what it does next and what it does then.
pub data Process (E A : Type 0) : Type 1 where
  returns : Outcome E A → Process E A
  asks : (B : Type 0) → Query B → (Outcome DbError B → Process E A) → Process E A
  reads_clock : (Instant → Process E A) → Process E A
  hands_over : Alert → Process E A → Process E A

infixl 5 ◌>>=◌ ◌>>◌
abbrev pub ◌>>=◌ : {E A B : Type 0} → Process E A → (A → Process E B) → Process E B
◌>>=◌ (returns (ok a)) f = f a
◌>>=◌ (returns (err e)) f = returns (err e)
◌>>=◌ (asks B q k) f = asks B q (λ r. k r >>= f)
◌>>=◌ (reads_clock k) f = reads_clock (λ t. k t >>= f)
◌>>=◌ (hands_over a p) f = hands_over a (p >>= f)

abbrev pub ◌>>◌ : {E A B : Type 0} → Process E A → Process E B → Process E B
p >> q = p >>= λ _. q

module _ {E A : Type 0} where
  abbrev pub pure : A → Process E A
  pure a = returns (ok a)

  abbrev pub throw : E → Process E A
  throw e = returns (err e)

-- A statement whose error is wrapped, and one whose error is dropped.
abbrev pub ask : {E B : Type 0} → (DbError → E) → Query B → Process E B
ask f q = asks _ q (λ r. returns (map_err f r))

abbrev pub ask_any : {E B : Type 0} → Query B → Process E (Outcome DbError B)
ask_any q = asks _ q (λ r. returns (ok r))

abbrev pub time_now : {E : Type 0} → Process E Instant
time_now = reads_clock (λ t. returns (ok t))

module _ {E A : Type 0} (n : Option Notifier) where
  -- The call when no other goroutine moves.
  pub run : Process E A → Action E A
  run (returns o) w = (o, w)
  run (asks B q k) w = let (r, w') = query q w in run (k r) w'
  run (reads_clock k) w = run (k w.clock) w
  run (hands_over a p) w = run p (notify_with n a w)

  -- One move.
  abbrev pub advance : Process E A → World → Process E A × World
  advance (returns o) w = (returns o, w)
  advance (asks B q k) w = let (r, w') = query q w in (k r, w')
  advance (reads_clock k) w = (k w.clock, w)
  advance (hands_over a p) w = (p, notify_with n a w)

  -- One move of the process at an index.
  abbrev pub advance_at : ℕ → List (Process E A) → World → List (Process E A) × World
  advance_at i [] w = ([], w)
  advance_at zero (p ∷ ps) w = let (p', w') = advance p w in (p' ∷ ps, w')
  advance_at (suc i) (p ∷ ps) w = let (ps', w') = advance_at i ps w in (p ∷ ps', w')

-- What users' requests write meanwhile, statement by statement: watches, events, accounts and the
-- links of the emails. Their other statements only read.
pub data UserStatement : Type 0 where
  creating_watch : CreateWatchParams → UserStatement
  updating_watch : Option String → ℕ → ℕ → UserStatement
  deleting_watch : ℕ → ℕ → UserStatement
  creating_user : String → String → UserStatement
  verifying_email : ℕ → UserStatement
  updating_password : ℕ → String → UserStatement
  unsubscribing_user : ℕ → UserStatement
  resubscribing_user : ℕ → UserStatement
  deleting_user : ℕ → UserStatement
  creating_token : CreateAuthTokenParams → UserStatement
  using_token : ℕ → UserStatement
  deleting_tokens : ℕ → String → UserStatement
  storing_event : UpsertEventByTmidParams → UserStatement
  marking_due : ℕ → UserStatement

-- The statement, and the world after it.
abbrev pub asked_by_user : UserStatement → World → World
asked_by_user (creating_watch p) w = (query (create_watch p) w).1
asked_by_user (updating_watch st id user_id) w = (query (update_watch st id user_id) w).1
asked_by_user (deleting_watch id user_id) w = (query (delete_watch id user_id) w).1
asked_by_user (creating_user e h) w = (query (create_user e h) w).1
asked_by_user (verifying_email user_id) w = (query (mark_email_verified user_id) w).1
asked_by_user (updating_password user_id h) w = (query (update_user_password user_id h) w).1
asked_by_user (unsubscribing_user user_id) w = (query (set_unsubscribed user_id) w).1
asked_by_user (resubscribing_user user_id) w = (query (set_resubscribed user_id) w).1
asked_by_user (deleting_user user_id) w = (query (delete_user user_id) w).1
asked_by_user (creating_token p) w = (query (create_auth_token p) w).1
asked_by_user (using_token id) w = (query (mark_auth_token_used id) w).1
asked_by_user (deleting_tokens user_id purpose) w =
    (query (delete_auth_tokens_for_user user_id purpose) w).1
asked_by_user (storing_event p) w = (query (upsert_event_by_tmid p) w).1
asked_by_user (marking_due id) w = (query (mark_event_due id) w).1

-- Who moves next: the process at an index, or a user.
pub data Move : Type 0 where
  of_process : ℕ → Move
  of_user : UserStatement → Move

-- One move after another.
abbrev pub interleave :
    {E A : Type 0}
    → Option Notifier
    → List Move
    → List (Process E A)
    → World
    → List (Process E A) × World
interleave n [] ps w = (ps, w)
interleave n (of_process i ∷ ms) ps w =
    let (ps', w') = advance_at n i ps w in interleave n ms ps' w'
interleave n (of_user u ∷ ms) ps w = interleave n ms ps (asked_by_user u w)
