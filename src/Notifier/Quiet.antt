-- ===== src/Notifier/Quiet.antt =====
-- The notifier keeps its promise to the worker, whatever its senders answer.
use ticket_watcher.Prelude.{
  Bool, true, false, false, Bool, arith, ℕ, ◌≡◌, refl, Option, none, some, List, [], ◌∷◌, String,
  All,
}
use ticket_watcher.Prelude.Outcome.{Outcome, ok, err}
use ticket_watcher.Store.Models.{Payload}
use ticket_watcher.Store.Query.{Query}
use ticket_watcher.Store.Users.{insert_notification}
use ticket_watcher.World.{World, Message, Alert, query, answer}
use ticket_watcher.World.Rules.{Relation, On, Keeps, Keeps-query}
use ticket_watcher.World.Runs.{IsCalm, IsCalm-Lasts, next_turn_calm}
use ticket_watcher.Worker.{Notifier}
use ticket_watcher.Worker.Quiet.{IsQuiet}
use ticket_watcher.Notifier.{
  Payload, payload_of, Sender, notify, notify_message, notify_each, notify_on, record_send,
}
use ticket_watcher.Notifier.Senders.{IsSender}
use ticket_watcher.Notifier.Render.{Formats, render}

-- The tables of the worker and the record of the calls are those of another world.
module _ (v : World) where
  abbrev Same : Relation
  Same sent db =
      (db.watches ≡ v.db.watches)
      × (db.watch_alerts ≡ v.db.watch_alerts)
      × (db.users ≡ v.db.users)
      × (sent.notify_calls ≡ v.notify_calls)

  insert_notification-Same :
      (i : ℕ) (c : String) (p : Payload) → Keeps Same (query (insert_notification i c p))
  unfolding insert_notification
  insert_notification-Same i c p = Keeps-query _ (λ now sent db h. ground (arith, h))

  record_send-Same :
      (a : Alert) (m : Message) (c : String) (r : Outcome String (Unit {0})) (w : World)
      → On Same w
      → On Same (record_send a m c r w)
  record_send-Same a m c (err e) w h = h
  record_send-Same a m c (ok tt) w h =
      (insert_notification-Same a.watch_id c (payload_of a m)).at w h

  notify_on-Same :
      (a : Alert) (m : Message) (s : Sender) (w : World)
      → IsSender s
      → On Same w
      → On Same (notify_on a m s w)
  unfolding notify_on
  notify_on-Same a m s w is h =
      record_send-Same a m s.channel (s.send m w).0 (s.send m w).1
        (rw (is.keeps_db m w, is.keeps_calls m w) h)

  notify_each-Same :
      (a : Alert) (m : Message) (ss : List Sender) (w : World)
      → All IsSender ss
      → On Same w
      → On Same (notify_each a m ss w)
  unfolding notify_each
  notify_each-Same a m [] w is h = h
  notify_each-Same a m (s ∷ ss) w is h =
      notify_each-Same a m ss (notify_on a m s w) is.1 (notify_on-Same a m s w is.0 h)

  notify_message-Same :
      (ss : List Sender) (a : Alert) (m : Option Message) (w : World)
      → All IsSender ss
      → On Same w
      → On Same (notify_message ss a m w)
  unfolding notify_message
  notify_message-Same ss a none w is h = h
  notify_message-Same ss a (some m) w is h = notify_each-Same a m ss w is h

answer-IsCalm :
    {A : Type 0} (q : Query A) (fails : Bool) (w : World) → IsCalm w → IsCalm (answer q fails w).1
answer-IsCalm q true w calm = calm
answer-IsCalm q false w calm = calm

query-IsCalm : {A : Type 0} (q : Query A) (w : World) → IsCalm w → IsCalm (query q w).1
unfolding query
query-IsCalm q w calm =
    answer-IsCalm q _ _ (next_turn_calm IsCalm w w.script refl calm IsCalm-Lasts calm).1

record_send-IsCalm :
    (a : Alert) (m : Message) (c : String) (r : Outcome String (Unit {0})) (w : World)
    → IsCalm w
    → IsCalm (record_send a m c r w)
record_send-IsCalm a m c (err e) w calm = calm
record_send-IsCalm a m c (ok tt) w calm = query-IsCalm _ w calm

notify_each-IsCalm :
    (a : Alert) (m : Message) (ss : List Sender) (w : World)
    → All IsSender ss
    → IsCalm w
    → IsCalm (notify_each a m ss w)
unfolding notify_each notify_on
notify_each-IsCalm a m [] w is calm = calm
notify_each-IsCalm a m (s ∷ ss) w is calm =
    notify_each-IsCalm a m ss _ is.1
      (record_send-IsCalm a m s.channel (s.send m w).0 (s.send m w).1 (is.0.keeps_calm m w calm))

notify_message-IsCalm :
    (ss : List Sender) (a : Alert) (m : Option Message) (w : World)
    → All IsSender ss
    → IsCalm w
    → IsCalm (notify_message ss a m w)
unfolding notify_message
notify_message-IsCalm ss a none w is calm = calm
notify_message-IsCalm ss a (some m) w is calm = notify_each-IsCalm a m ss w is calm

-- The notifier over its senders, as the worker takes it.
abbrev pub notifier : Formats → List Sender → Notifier
notifier f senders = record { notify = notify f senders }

-- Over any senders that keep to the interface of one, the notifier is quiet, as the worker needs it
-- to be: it leaves the watches, their alerts, the users and the record of the calls alone, and a
-- calm world calm, whichever sends and inserts fail.
pub notify-IsQuiet :
    (f : Formats) (senders : List Sender) → All IsSender senders → IsQuiet (notifier f senders)
unfolding notify
notify-IsQuiet f senders is =
    let same = λ (a : Alert) (w : World).
      notify_message-Same w senders a (render f a) w is (refl, refl, refl, refl) in
    record {
      keeps_watches = λ a w. (same a w).0;
      keeps_alerts = λ a w. (same a w).1;
      keeps_users = λ a w. (same a w).2;
      keeps_calls = λ a w. (same a w).3;
      keeps_calm = λ a w. notify_message-IsCalm senders a (render f a) w is;
    }
