-- ===== src/Notifier.antt =====
-- internal/notifier/notifier.go: an alert is rendered and sent on every channel, and each send that
-- succeeds is recorded.
pub mod Markup
pub mod Safety
pub mod Render
pub mod AuthMail
pub mod Senders
pub mod Copy
pub mod Quiet
pub mod Mail
mod Tests
use ticket_watcher.Prelude.{Option, none, some, List, [], ◌∷◌, String}
use ticket_watcher.Prelude.Outcome.{Outcome, ok, err}
use ticket_watcher.Store.Models.{Payload}
use ticket_watcher.Store.Users.{insert_notification}
use ticket_watcher.World.{World, Message, Alert, Action, query}
use ticket_watcher.Notifier.Render.{Formats, render}

-- Sender: the error of `send` is its text.
pub record Sender : Type 0 where
  pub channel : String
  pub send : Message → Action String (Unit {0})

abbrev pub payload_of : Alert → Message → Payload
payload_of a m = record {
  subject = m.subject;
  event = a.event_name;
  kind = a.kind;
  availability = a.availability;
}

-- What follows a send: a row for a success, whose own failure is logged.
abbrev pub record_send : Alert → Message → String → Outcome String (Unit {0}) → World → World
record_send a m channel (err e) w = w
record_send a m channel (ok _) w =
    (query (insert_notification a.watch_id channel (payload_of a m)) w).1

-- The body of the loop over the senders.
unfoldable pub notify_on : Alert → Message → Sender → World → World
notify_on a m s w = let (r, w') = s.send m w in record_send a m s.channel r w'

unfoldable pub notify_each : Alert → Message → List Sender → World → World
unfolding notify_on
notify_each a m [] w = w
notify_each a m (s ∷ ss) w = notify_each a m ss (notify_on a m s w)

-- What follows the rendering.
unfoldable pub notify_message : List Sender → Alert → Option Message → World → World
unfolding notify_each
notify_message senders a none w = w
notify_message senders a (some m) w = notify_each a m senders w

-- Notify
unfoldable pub notify : Formats → List Sender → Alert → World → World
unfolding notify_message
notify f senders a w = notify_message senders a (render f a) w
