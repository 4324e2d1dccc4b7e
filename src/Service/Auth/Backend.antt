-- ===== src/Service/Auth/Backend.antt =====
-- What the calls on accounts need of the parameters: the mailer and the random numbers leave the
-- database alone.
use ticket_watcher.Prelude.{◌≡◌, refl, Option, none, some, String}
use ticket_watcher.Store.Models.{Db}
use ticket_watcher.World.{World, Message, Action, pure, wrap}
use ticket_watcher.World.Rules.{Relation, Keeps}
use ticket_watcher.Service.Auth.{AuthService, send, send_with}

pub record IsBackend (s : AuthService) : Type 0 where
  pub hash_keeps : (p : String) (w : World) → (s.crypto.hash_password p w).1.db ≡ w.db
  pub random_keeps : (w : World) → (s.crypto.random_token w).1.db ≡ w.db
  pub mail_keeps :
      (mail : Message → Action String (Unit {0}))
      → s.mail ≡ some mail
      → (m : Message) (w : World) → (mail m w).1.db ≡ w.db

module _ (P : Db → Type 0) where
  abbrev pub OfDb : Relation
  OfDb sent db = P db

  pub Keeps-of_db :
      {E A : Type 0} (m : Action E A) → ((w : World) → (m w).1.db ≡ w.db) → Keeps OfDb m
  Keeps-of_db m h = record { at = λ w r. rw (h w) r }

  send_with-Keeps :
      (s : AuthService) (o : Option (Message → Action String (Unit {0}))) (m : Message)
      → ((mail : Message → Action String (Unit {0}))
          → o ≡ some mail
          → (m : Message) (w : World) → (mail m w).1.db ≡ w.db)
      → Keeps OfDb (send_with s o m)
  unfolding pure wrap
  send_with-Keeps s none m h = record { at = λ w r. r }
  send_with-Keeps s (some mail) m h = record { at = λ w r. rw (h mail refl m w) r }

  pub send-Keeps : (s : AuthService) (m : Message) → IsBackend s → Keeps OfDb (send s m)
  send-Keeps s m b = send_with-Keeps s s.mail m b.mail_keeps
