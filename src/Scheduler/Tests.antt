-- ===== src/Scheduler/Tests.antt =====
-- A tick over one due event and one that is not.
use ticket_watcher.Prelude.{refl, ℕ, ◌+◌, ◌≤◌, ◌≡◌, true, false, [], ◌∷◌, none, length, All}
use ticket_watcher.Prelude.Int.{pos, pos_part}
use ticket_watcher.Prelude.Instant.{Instant}
use ticket_watcher.Store.Models.{Event, Watch}
use ticket_watcher.World.{World, query}
use ticket_watcher.Store.Events.{list_due_events}
use ticket_watcher.Ratelimit.{
  class_poll, DailyQuota, Reading, remaining, maybe_reset, new_daily_quota,
}
use ticket_watcher.Scheduler.{Select, tick}
use ticket_watcher.Scheduler.Due.{IsDueId}
use ticket_watcher.Scheduler.Tick.{tick-due}

abbrev event : ℕ → Instant → Event
event id next = record {
  id = id;
  tm_event_id = "";
  name = "";
  url = "";
  venue = "";
  event_date = none;
  last_availability = none;
  last_polled_at = none;
  next_poll_at = next;
  created_at = 0;
  public_onsale_at = none;
  public_onsale_end_at = none;
  earliest_presale_at = none;
  earliest_presale_name = none;
  presale_count = 0;
  onsale_tbd = false;
}

abbrev watch : ℕ → Watch
watch event_id = record {
  id = event_id;
  user_id = 1;
  event_id = event_id;
  condition_type = "becomes_available";
  status = "active";
  last_evaluation = false;
  last_notified_at = none;
  poll_interval_s = pos 60;
  created_at = 1;
}

abbrev world : World
world = record {
  clock = 50;
  db = record {
    users = record { rows = []; next = 1 };
    events = record { rows = event 1 40 ∷ event 2 60 ∷ event 3 30 ∷ event 4 10 ∷ []; next = 5 };
    watches = record { rows = watch 1 ∷ watch 2 ∷ watch 3 ∷ []; next = 4 };
    watch_alerts = [];
    availability_snapshots = record { rows = []; next = 1 };
    notifications = record { rows = []; next = 1 };
    auth_tokens = record { rows = []; next = 1 };
  };
  script = [];
  outbox = [];
  notify_calls = [];
}

abbrev midnight : Instant → Instant
midnight t = t + 100

abbrev quota : DailyQuota
quota = new_daily_quota midnight (pos 5) (pos 5) 0

abbrev env : ℕ → Select
env i = record { is_ready = true; is_done = false; prefers_send = true }

abbrev reading : Reading
reading = record { now = 50; again = 50 }

-- The two due events that are watched, the earliest first.
tick-order : (tick midnight (pos 20) env reading quota world).0 ≡ 3 ∷ 1 ∷ []
unfolding tick new_daily_quota remaining query list_due_events
tick-order = refl

tick-due_example :
    let (ids, q', w') = tick midnight (pos 20) env reading quota world in
    All (IsDueId w'.clock world.db) ids
    × (length ids ≤ (remaining midnight class_poll reading quota).0)
    × (length ids ≤ pos_part (pos 20))
    × (w'.db ≡ world.db)
    × (q' ≡ maybe_reset midnight reading quota)
tick-due_example = tick-due midnight (pos 20) env reading quota world
