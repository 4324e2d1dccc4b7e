-- ===== src/Notifier/Mail.antt =====
-- The mail that polls send: the worker and the notifier together.
use ticket_watcher.Prelude.{
  arith, ℕ, ◌≡◌, refl, true, Option, none, some, List, [], ◌∷◌, String, All, All-mono, inl, inr,
  ◌⊎◌,
}
use ticket_watcher.Prelude.Outcome.{Outcome, ok, err}
use ticket_watcher.Store.Models.{Event, User, Watch}
use ticket_watcher.Store.Query.{Query}
use ticket_watcher.Store.Owners.{IsMailable, may_mail}
use ticket_watcher.Store.Users.{insert_notification}
use ticket_watcher.World.{World, Message, Alert, query}
use ticket_watcher.World.Rules.{On, Relation, Keeps, Keeps-query}
use ticket_watcher.Worker.Consent.Statements.{
  notify_with-Consented, IsConsented, claim_watch_alert-Consented, mark_notified-Consented,
  Consented,
}
use ticket_watcher.Notifier.{
  Sender, notify, notify_message, notify_each, notify_on, record_send, payload_of,
}
use ticket_watcher.Notifier.Senders.{IsSender}
use ticket_watcher.Notifier.Render.{Formats, render}
use ticket_watcher.Worker.{Deps, Fetch, run_jobs, alert_kind, alert_for, notify_with}
use ticket_watcher.Worker.Polls.{alert_kind-Keeps, KeptByPolls, run_jobs-Keeps}
use ticket_watcher.Ticketmaster.Types.{EventSnapshot}
use ticket_watcher.Evaluator.{Kind, Observation, kind_text}
use ticket_watcher.Notifier.Quiet.{notifier, notify-IsQuiet}
use ticket_watcher.Store.Watches.{ListActiveWatchesForEventRow}
use ticket_watcher.Worker.Consent.{Consented-KeptByPolls}
use ticket_watcher.Notifier.Copy.{render-opt_out}

-- Every message accepted so far has a property that the message at hand has too.
module _ (P : Message → Type 0) where
  AllMail : Relation
  AllMail sent db = All P sent.outbox

  record_send-AllMail :
      (a : Alert) (m : Message) (c : String) (r : Outcome String (Unit {0})) (w : World)
      → All P w.outbox
      → All P (record_send a m c r w).outbox
  record_send-AllMail a m c (err e) w h = h
  record_send-AllMail a m c (ok tt) w h =
      (Keeps-query {R = λ sent db. All P sent.outbox}
          (insert_notification a.watch_id c (payload_of a m)) (λ now sent db h. h)).at
        w h

  notify_on-AllMail :
      (a : Alert) (m : Message) (s : Sender) (w : World)
      → IsSender s
      → P m
      → All P w.outbox
      → All P (notify_on a m s w).outbox
  unfolding notify_on
  notify_on-AllMail a m s w is p h =
      record_send-AllMail a m s.channel (s.send m w).0 (s.send m w).1
        (elim (is.accepts_once m w) [ inl e ↦ rw e h | inr e ↦ rw e (p, h) ])

  notify_each-AllMail :
      (a : Alert) (m : Message) (ss : List Sender) (w : World)
      → All IsSender ss
      → P m
      → All P w.outbox
      → All P (notify_each a m ss w).outbox
  unfolding notify_each
  notify_each-AllMail a m [] w is p h = h
  notify_each-AllMail a m (s ∷ ss) w is p h =
      notify_each-AllMail a m ss (notify_on a m s w) is.1 p (notify_on-AllMail a m s w is.0 p h)

  notify_message-AllMail :
      (ss : List Sender) (a : Alert) (o : Option Message) (w : World)
      → All IsSender ss
      → ((m : Message) → o ≡ some m → P m)
      → All P w.outbox
      → All P (notify_message ss a o w).outbox
  unfolding notify_message
  notify_message-AllMail ss a none w is p h = h
  notify_message-AllMail ss a (some m) w is p h = notify_each-AllMail a m ss w is (p m refl) h

  pub notify-AllMail :
      (f : Formats) (ss : List Sender) (a : Alert) (w : World)
      → All IsSender ss
      → ((m : Message) → render f a ≡ some m → P m)
      → All P w.outbox
      → All P (notify f ss a w).outbox
  unfolding notify
  notify-AllMail f ss a w is p h = notify_message-AllMail ss a (render f a) w is p h

module _ (f : Formats) (users : List User) (watches : List Watch) where
  -- The message of an alert, to a recipient of the alert's watch.
  abbrev pub IsMailOf : Message → Alert → Type 0
  IsMailOf m a =
      (render f a ≡ some m) × (m.to ≡ a.to_email) × (may_mail a.watch_id m.to watches users ≡ true)

  -- The message of one of the alerts.
  abbrev pub IsAlertMail : List Alert → Message → Type 0
  IsAlertMail [] m = ⊥
  IsAlertMail (a ∷ calls) m = IsMailOf m a ⊎ IsAlertMail calls m

  abbrev pub Mailed : Relation
  Mailed sent db = Consented users watches sent db × All (IsAlertMail sent.notify_calls) sent.outbox

  -- An action that accepts no mail.
  Mailed-of_query :
      {A : Type 0} (q : Query A)
      → Keeps (Consented users watches) (query q)
      → Keeps Mailed (query q)
  Mailed-of_query q k = record {
    at = λ w h. (
      k.at w h.0,
      (Keeps-query {R = λ sent db. All (IsAlertMail sent.notify_calls) sent.outbox} q
            (λ now sent db r. r)).at
          w h.1,
    );
  }

  module _ (senders : List Sender) (is : All IsSender senders)
      (unsubscribe_url : Option (ℕ → String)) where
    abbrev pub deps_over : Deps
    deps_over = record { notifier = some (notifier f senders); unsubscribe_url = unsubscribe_url }

    -- The alert of a recipient is handed over, and its mail sent.
    notify_with-Mailed :
        (a : Alert) (w : World)
        → IsConsented users watches a
        → On Mailed w
        → On Mailed (notify_with deps_over.notifier a w)
    notify_with-Mailed a w c h =
        let quiet = notify-IsQuiet f senders is in
        let w' = record w { notify_calls = a ∷ w.notify_calls } in
        (
          notify_with-Consented users watches deps_over.notifier a w quiet c h.0,
          rw (quiet.keeps_calls a w') (
              notify-AllMail (IsAlertMail (a ∷ w.notify_calls)) f senders a w' is
                (λ m e. let to = (render-opt_out f a m e).0 in inl (e, to, rw to c))
                (All-mono _ _ w.outbox (λ m earlier. inr earlier) h.1)),
        )

    alert_kind-Mailed :
        (ev : Event) (snap : EventSnapshot) (obs : Observation) (row : ListActiveWatchesForEventRow)
        (k : Kind)
        → IsMailable watches users row
        → Keeps Mailed (alert_kind deps_over ev snap obs row k)
    alert_kind-Mailed ev snap obs row k mailable =
        alert_kind-Keeps Mailed deps_over ev snap obs row k
          (Mailed-of_query _ (claim_watch_alert-Consented users watches row.id (kind_text k)))
          (Mailed-of_query _ (mark_notified-Consented users watches row.id))
          λ gates w h.
            notify_with-Mailed (alert_for deps_over ev snap obs row k) w
              (mailable (ground arith) (ground arith)) h

    Mailed-KeptByPolls : KeptByPolls deps_over (IsMailable watches users) Mailed
    Mailed-KeptByPolls =
        let kept = Consented-KeptByPolls users watches deps_over (notify-IsQuiet f senders is) in
        record {
          by_set_last_evaluation = λ i b. Mailed-of_query _ (kept.by_set_last_evaluation i b);
          by_close_watches = λ i. Mailed-of_query _ (kept.by_close_watches i);
          by_update_event = λ p. Mailed-of_query _ (kept.by_update_event p);
          by_insert_snapshot = λ i s. Mailed-of_query _ (kept.by_insert_snapshot i s);
          of_listed = λ i w h. kept.of_listed i w h.0;
          by_alert_kind = alert_kind-Mailed;
        }

-- All the mail that polls send, over any senders, whichever sends and statements fail: every message
-- is the rendering of one of the alerts that the polls handed over, and goes to that alert's address,
-- which is one of a verified owner of the alert's watch who has not unsubscribed. Nothing was handed
-- over or sent before.
pub run_jobs-IsAlertMail :
    (f : Formats) (senders : List Sender) (unsubscribe_url : Option (ℕ → String))
    (jobs : List (ℕ × Fetch)) (w : World)
    → All IsSender senders
    → w.notify_calls ≡ []
    → w.outbox ≡ []
    → let w' =
        run_jobs
          (record { notifier = some (notifier f senders); unsubscribe_url = unsubscribe_url })
          jobs
          w in
      All (IsAlertMail f w.db.users.rows w.db.watches.rows w'.notify_calls) w'.outbox
run_jobs-IsAlertMail f senders url jobs w is no_calls no_mail =
    let users = w.db.users.rows in
    let watches = w.db.watches.rows in
    (run_jobs-Keeps _ _ _ (Mailed-KeptByPolls f users watches senders is url) jobs w (
      record {
        same = record { same_users = refl; same_owners = λ i j. refl };
        consented = rw no_calls tt;
      },
      rw no_mail tt,
    )).1
