-- ===== src/World.antt =====
-- The world that the program's calls act on, and the actions on it: state that survives an error,
-- as in Go. What a call meets outside the program is read off a script: the time that passes
-- before it, and whether it fails (a lost connection, a cancelled context, a refused mail). An
-- exhausted script means that no time passes and nothing fails. The application's clock and the
-- database's `now()` are the same.
pub mod Rules
pub mod Runs
pub mod Success
pub mod Leads
use ticket_watcher.Prelude.{ℕ, ◌+◌, Bool, true, false, List, [], ◌∷◌, Option, String}
use ticket_watcher.Prelude.Instant.{Instant}
use ticket_watcher.Prelude.Outcome.{Outcome, ok, err, map_err}
use ticket_watcher.Store.Models.{Db}
use ticket_watcher.Store.Query.{Query, DbError, failed}

-- notifier.Message; the headers are a list of names and values.
pub record Message : Type 0 where
  pub to : String
  pub subject : String
  pub html_body : String
  pub text_body : String
  pub headers : List (String × String)

-- notifier.Alert
pub record Alert : Type 0 where
  pub watch_id : ℕ
  pub to_email : String
  pub event_name : String
  pub venue : String
  pub event_url : String
  pub kind : String
  pub availability : String
  pub public_onsale_start : Option Instant
  pub earliest_presale_start : Option Instant
  pub earliest_presale_name : String
  pub onsale_tbd : Bool
  pub unsubscribe_url : String

pub record Turn : Type 0 where
  pub elapsed : ℕ
  pub fails : Bool

pub record World : Type 0 where
  pub clock : Instant
  pub db : Db
  pub script : List Turn
  -- The messages that a sender has accepted, the latest first.
  pub outbox : List Message
  -- The alerts that the workers have handed to the notifier, the latest first.
  pub notify_calls : List Alert

-- What has left the program: the messages accepted, and the alerts handed over.
pub record Sent : Type 0 where
  pub outbox : List Message
  pub notify_calls : List Alert

abbrev pub sent_by : World → Sent
sent_by w = record { outbox = w.outbox; notify_calls = w.notify_calls }

abbrev pub Action : Type 0 → Type 0 → Type 0
Action E A = World → Outcome E A × World

module _ {E A : Type 0} where
  unfoldable pub pure : A → Action E A
  pure a w = (ok a, w)

  unfoldable pub throw : E → Action E A
  throw e w = (err e, w)

-- A call that only changes the world.
unfoldable pub run_ : {E : Type 0} → (World → World) → Action E (Unit {0})
run_ f w = (ok tt, f w)

-- `time.Now()`
unfoldable pub time_now : {E : Type 0} → Action E Instant
time_now w = (ok w.clock, w)

-- The error of a call, within the caller's own.
unfoldable pub wrap : {E F A : Type 0} → (E → F) → Action E A → Action F A
wrap f m w = let (r, w') = m w in (map_err f r, w')

-- A call whose error is dropped: the outcome is a value.
unfoldable pub attempt : {E F A : Type 0} → Action E A → Action F (Outcome E A)
attempt m w = let (r, w') = m w in (ok r, w')

-- What follows a call: the rest on success, and the error otherwise.
abbrev pub follow : {E A B : Type 0} → (A → Action E B) → Outcome E A → Action E B
follow f (ok a) w = f a w
follow f (err e) w = (err e, w)

infixl 5 ◌>>=◌ ◌>>◌
-- Opening this opens the actions above too.
unfoldable pub ◌>>=◌ : {E A B : Type 0} → Action E A → (A → Action E B) → Action E B
unfolding pure throw run_ time_now wrap attempt
◌>>=◌ m f w = let (r, w') = m w in follow f r w'

abbrev pub ◌>>◌ : {E A B : Type 0} → Action E A → Action E B → Action E B
m >> k = m >>= λ _. k

-- Takes the next turn of the script: whether the call fails, and the world at the call.
unfoldable pub next_turn : World → List Turn → Bool × World
next_turn w [] = (false, w)
next_turn w (t ∷ ts) = (t.fails, record w { clock = w.clock + t.elapsed; script = ts })

-- What the database does with a statement: one that fails has changed nothing.
abbrev pub answer : {A : Type 0} → Query A → Bool → Action DbError A
answer q true w = (err failed, w)
answer q false w = let (r, db') = q w.clock w.db in (r, record w { db = db' })

-- A statement sent to the database.
unfoldable pub query : {A : Type 0} → Query A → Action DbError A
unfolding next_turn
query q w = let (fails, w') = next_turn w w.script in answer q fails w'
