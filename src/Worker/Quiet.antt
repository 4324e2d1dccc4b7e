-- ===== src/Worker/Quiet.antt =====
-- The interface of a notifier, as far as the worker's own theorems depend on it.
use ticket_watcher.Prelude.{◌≡◌, Option, none, some}
use ticket_watcher.World.{Alert, World}
use ticket_watcher.World.Runs.{IsCalm}
use ticket_watcher.Worker.{Notifier}

-- What the worker needs of a notifier: it leaves the watches, their alerts, the users and the
-- record of the calls alone, and it leaves a world in which nothing more fails as calm as it was. It
-- may send mail and insert notifications.
pub record IsQuiet (n : Notifier) : Type 0 where
  pub keeps_watches : (a : Alert) (w : World) → (n.notify a w).db.watches ≡ w.db.watches
  pub keeps_alerts : (a : Alert) (w : World) → (n.notify a w).db.watch_alerts ≡ w.db.watch_alerts
  pub keeps_users : (a : Alert) (w : World) → (n.notify a w).db.users ≡ w.db.users
  pub keeps_calls : (a : Alert) (w : World) → (n.notify a w).notify_calls ≡ w.notify_calls
  pub keeps_calm : (a : Alert) (w : World) → IsCalm w → IsCalm (n.notify a w)

abbrev pub HasQuiet : Option Notifier → Type 0
HasQuiet none = Unit
HasQuiet (some n) = IsQuiet n
