-- ===== src/Notifier/Senders.antt =====
-- internal/notifier/log_sender.go and resend_sender.go: the two senders, and what the notifier needs
-- of one. The exchange with the mail provider, Go's HTTP client, is an argument.
use ticket_watcher.Prelude.{ℕ, ◌≡◌, ◌⊎◌, leb, true, List, [], ◌∷◌, String, refl, inr, if◌then◌else◌}
use ticket_watcher.Prelude.Outcome.{Outcome, ok, err, is_ok}
use ticket_watcher.World.Runs.{IsCalm}
use ticket_watcher.World.{World, Message, Action}
use ticket_watcher.Notifier.{some, none, Option, Sender}

-- A sender leaves the database and the record of the calls alone; it accepts the message once if it
-- reports success, and at most once if it reports a failure; and it leaves a world in which nothing
-- more fails as calm as it was.
pub record IsSender (s : Sender) : Type 0 where
  pub keeps_db : (m : Message) (w : World) → (s.send m w).1.db ≡ w.db
  pub keeps_calls : (m : Message) (w : World) → (s.send m w).1.notify_calls ≡ w.notify_calls
  pub keeps_calm : (m : Message) (w : World) → IsCalm w → IsCalm (s.send m w).1
  pub accepts :
      (m : Message) (w : World)
      → (is_ok (s.send m w).0 ≡ true)
      → (s.send m w).1.outbox ≡ m ∷ w.outbox
  pub accepts_once :
      (m : Message) (w : World)
      → ((s.send m w).1.outbox ≡ w.outbox) ⊎ ((s.send m w).1.outbox ≡ m ∷ w.outbox)

abbrev pub accept : Message → World → World
accept m w = record w { outbox = m ∷ w.outbox }

-- LogSender: the log is the outbox.
abbrev pub log_sender : Sender
log_sender = record { channel = "email"; send = λ m w. (ok tt, accept m w) }

pub log_sender-IsSender : IsSender log_sender
log_sender-IsSender = record {
  keeps_db = λ m w. refl;
  keeps_calls = λ m w. refl;
  keeps_calm = λ m w h. h;
  accepts = λ m w h. refl;
  accepts_once = λ m w. inr refl;
}

-- The JSON body that Resend reads: `headers` is left out when there are none.
pub record ResendRequest : Type 0 where
  pub from : String
  pub to : List String
  pub subject : String
  pub html : String
  pub text : String
  pub headers : Option (List (String × String))

abbrev pub headers_of : List (String × String) → Option (List (String × String))
headers_of [] = none
headers_of (h ∷ hs) = some (h ∷ hs)

abbrev pub resend_request : String → Message → ResendRequest
resend_request from m = record {
  from = from;
  to = m.to ∷ [];
  subject = m.subject;
  html = m.html_body;
  text = m.text_body;
  headers = headers_of m.headers;
}

-- A status of 300 or more is an error.
abbrev pub resend_answer : Outcome String (ℕ × String) → Outcome String (Unit {0})
resend_answer (err e) = err e
resend_answer (ok (status, body)) = if leb 300 status then err body else ok tt

-- ResendSender, over the exchange with the provider
abbrev pub resend_sender : String → (ResendRequest → Action String (ℕ × String)) → Sender
resend_sender from exchange = record {
  channel = "email";
  send = λ m w. let (r, w') = exchange (resend_request from m) w in (resend_answer r, w');
}
