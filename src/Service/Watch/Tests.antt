-- ===== src/Service/Watch/Tests.antt =====
-- Two users at work beside a third.
use ticket_watcher.Prelude.{
  ◌≤◌, ◌≢◌, ℕ, ◌≡◌, refl, true, false, none, some, List, [], ◌∷◌, map, String, arith,
}
use ticket_watcher.Prelude.Int.{pos}
use ticket_watcher.Prelude.Outcome.{Outcome, ok}
use ticket_watcher.Evaluator.{kind_text, evaluate}
use ticket_watcher.Store.Models.{Watch}
use ticket_watcher.Ticketmaster.Types.{EventSnapshot}
use ticket_watcher.Worker.Sample.{start, on_sale}
use ticket_watcher.Store.Watches.{
  delete_watch, update_watch, count_watches_for_user, create_watch, list_watches_with_event,
}
use ticket_watcher.Store.Events.{get_event, get_event_by_tmid, mark_event_due}
use ticket_watcher.World.{◌>>=◌, query}
use ticket_watcher.Service.Watch.View.{derive_sale_state}
use ticket_watcher.Service.Watch.{Request, creating, listing, updating, deleting, serve_all}
use ticket_watcher.Service.Watch.Isolation.{watches_of, serve_all-isolated}
use ticket_watcher.Service.Watch.Cap.{serve_all-IsCapped, watch_count}

abbrev fetch : String → Outcome String EventSnapshot
fetch id = ok on_sale

-- The second user tries to delete and to pause the first user's watch, and the third resumes one
-- of their own, deletes it, and watches the event again.
abbrev requests : List (ℕ × Request)
requests =
    (2, deleting 11)
    ∷ (2, updating 11 (some "paused"))
    ∷ (3, updating 13 (some "active"))
    ∷ (3, deleting 13)
    ∷ (
      3,
      creating (record {
        tm_event_id = "tm7";
        condition_type = "becomes_available";
        poll_interval_s = pos 0;
      }),
    )
    ∷ (2, listing)
    ∷ []

requests-watches :
    map (λ (w : Watch). w.id) (serve_all (pos 5) fetch requests start).db.watches.rows
    ≡ 11 ∷ 12 ∷ 14 ∷ []
unfolding serve_all ◌>>=◌ query delete_watch update_watch get_event count_watches_for_user
    get_event_by_tmid create_watch list_watches_with_event mark_event_due
requests-watches = refl

two : ◌≢◌ {A = ℕ} 2 1
two = λ e. ground arith

three : ◌≢◌ {A = ℕ} 3 1
three = λ e. ground arith

serve_all-isolated_example :
    watches_of 1 (serve_all (pos 5) fetch requests start).db.watches.rows
    ≡ watches_of 1 start.db.watches.rows
serve_all-isolated_example =
    serve_all-isolated (pos 5) fetch 1 requests start
      (two, (two, (three, (three, (three, (two, tt))))))

-- With a cap of one, the third user, whose watch is deleted, watches the event again.
serve_all-IsCapped_example : watch_count 3 (serve_all (pos 1) fetch requests start).db ≤ 1
serve_all-IsCapped_example =
    serve_all-IsCapped 1 3 fetch requests start (ground arith) (ground arith)

-- A status of "onsale" before the public sale's date: the label says that the event is on sale,
-- and no alert that it is on sale is reported.
early_label : derive_sale_state true (some "onsale") (some 500) none none false 100 ≡ "on_sale"
unfolding derive_sale_state
early_label = refl

early_kinds :
    map kind_text
      (evaluate
        (record {
          now = 100;
          availability = "onsale";
          public_start = some 500;
          public_end = none;
          onsale_tbd = false;
          earliest_presale = none;
          event_date = some 5000;
        })
        (record { knew_public_start = true; last_evaluation = false; watch_created_at = 50 })).kinds
    ≡ []
unfolding evaluate
early_kinds = refl
