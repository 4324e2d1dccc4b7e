-- ===== src/Worker/Sample.antt =====
-- A small database and its polls, for the tests.
use ticket_watcher.Prelude.{refl, Bool, true, List, ℕ, false, Option, none, some, [], ◌∷◌, String}
use ticket_watcher.Prelude.Int.{pos}
use ticket_watcher.Prelude.Outcome.{ok}
use ticket_watcher.Store.Models.{User, Event, Watch}
use ticket_watcher.Ticketmaster.Types.{EventSnapshot}
use ticket_watcher.World.{Turn, Alert, World}
use ticket_watcher.Worker.Quiet.{IsQuiet}
use ticket_watcher.Worker.{Deps, Notifier, Fetch, run_jobs}

abbrev pub turn : ℕ → Bool → Turn
turn elapsed fails = record { elapsed = elapsed; fails = fails }

-- A verified user, one that is not, and one that has unsubscribed.
abbrev pub user : ℕ → String → Option ℕ → Option ℕ → User
user id email verified unsubscribed = record {
  id = id;
  email = email;
  created_at = 1;
  password_hash = "";
  email_verified_at = verified;
  unsubscribed_at = unsubscribed;
}

abbrev pub show : Event
show = record {
  id = 7;
  tm_event_id = "tm7";
  name = "Hamilton";
  url = "";
  venue = "";
  event_date = some 5000;
  last_availability = some "offsale";
  last_polled_at = some 10;
  next_poll_at = 20;
  created_at = 5;
  public_onsale_at = some 90;
  public_onsale_end_at = none;
  earliest_presale_at = none;
  earliest_presale_name = none;
  presale_count = 0;
  onsale_tbd = false;
}

abbrev pub watch : ℕ → ℕ → Watch
watch id user_id = record {
  id = id;
  user_id = user_id;
  event_id = 7;
  condition_type = "becomes_available";
  status = "active";
  last_evaluation = false;
  last_notified_at = none;
  poll_interval_s = pos 60;
  created_at = 50;
}

abbrev pub start : World
start = record {
  clock = 100;
  db = record {
    users = record {
      rows =
          user 1 "a@x" (some 2) none ∷ user 2 "b@x" none none ∷ user 3 "c@x" (some 2) (some 3) ∷ [];
      next = 4;
    };
    events = record { rows = show ∷ []; next = 8 };
    watches = record { rows = watch 11 1 ∷ watch 12 2 ∷ watch 13 3 ∷ []; next = 14 };
    watch_alerts = [];
    availability_snapshots = record { rows = []; next = 1 };
    notifications = record { rows = []; next = 1 };
    auth_tokens = record { rows = []; next = 1 };
  };
  script = [];
  outbox = [];
  notify_calls = [];
}

abbrev pub on_sale : EventSnapshot
on_sale = record {
  tm_event_id = "tm7";
  name = "Hamilton";
  url = "";
  venue = "";
  event_date = some 5000;
  availability = "onsale";
  public_onsale_start = some 90;
  public_onsale_end = none;
  onsale_tbd = false;
  earliest_presale_start = none;
  earliest_presale_name = "";
  presale_count = 0;
}

abbrev pub silent : Notifier
silent = record { notify = λ a w. w }

abbrev pub deps : Deps
deps = record { notifier = some silent; unsubscribe_url = none }

abbrev pub answers : Fetch
answers id = ok on_sale

pub silent-IsQuiet : IsQuiet silent
silent-IsQuiet = record {
  keeps_watches = λ a w. refl;
  keeps_alerts = λ a w. refl;
  keeps_users = λ a w. refl;
  keeps_calls = λ a w. refl;
  keeps_calm = λ a w calm. calm;
}

abbrev pub three_jobs : List (ℕ × Fetch)
three_jobs = (7, answers) ∷ (7, answers) ∷ (7, answers) ∷ []

-- The stamp of the first alert fails, and so does the first statement of the second poll.
abbrev pub rough : World
rough = record start {
  script =
      turn 0 false
      ∷ turn 1 false
      ∷ turn 0 false
      ∷ turn 0 false
      ∷ turn 2 false
      ∷ turn 0 false
      ∷ turn 0 true
      ∷ turn 60 true
      ∷ [];
}

abbrev pub sent : Alert → ℕ × String × String
sent a = (a.watch_id, a.to_email, a.kind)

abbrev pub three_polls : World
three_polls = run_jobs deps three_jobs start
