-- ===== src/Ticketmaster/Tests.antt =====
-- Answers of the API, and runs of the client.
use ticket_watcher.Prelude.{
  ℕ, ◌+◌, ◌≤◌, ◌≡◌, refl, leb, true, false, none, some, [], ◌∷◌, All, String, str_eq, if◌then◌else◌,
}
use ticket_watcher.Prelude.Instant.{Instant}
use ticket_watcher.Prelude.Outcome.{ok, err}
use ticket_watcher.Ratelimit.{class_poll}
use ticket_watcher.Ticketmaster.Types.{TmEvent, TmPresale, EventSnapshot}
use ticket_watcher.Ticketmaster.Snapshot.{Calendar, to_snapshot}
use ticket_watcher.Ticketmaster.Snapshot.Dates.{IsAnnounced, to_snapshot-IsAnnounced}
use ticket_watcher.Ticketmaster.Snapshot.Earliest.{
  IsNoLaterThan, IsFrom, to_snapshot-earliest_presale,
}
use ticket_watcher.Ticketmaster.Client.{Net, retries_exhausted, do_request}
use ticket_watcher.Ticketmaster.Client.Retries.{IsCounting, do_request-Within}
use ticket_watcher.Ticketmaster.Client.Answers.{
  Answers, later, IsServed, first_answer, do_request-first_answer,
}

-- Three texts that are times, the last in the year 9999.
abbrev calendar : Calendar
calendar = record {
  parse_rfc3339 = λ v.
      if str_eq v "early"
      then some 100
      else if str_eq v "late"
      then some 200
      else if str_eq v "never"
      then some 900
      else none;
  year = λ t. if leb 900 t then 9999 else 2026;
}

abbrev presale : String → String → TmPresale
presale time name = record { start_date_time = time; name = name }

abbrev event : TmEvent
event = record {
  id = "tm7";
  name = "Hamilton";
  url = "";
  start_date_time = "late";
  status_code = "";
  public = record {
    start_date_time = "never";
    end_date_time = "never";
    start_tbd = false;
    start_tba = false;
  };
  presales =
      presale "late" "Fans"
      ∷ presale "never" "Later"
      ∷ presale "early" "Amex"
      ∷ presale "" "None"
      ∷ [];
  venues = [];
}

abbrev seen : EventSnapshot
seen = to_snapshot calendar event

seen-presale :
    (seen.earliest_presale_start ≡ some 100)
    × (seen.earliest_presale_name ≡ "Amex")
    × (seen.onsale_tbd ≡ true)
    × (seen.availability ≡ "unknown")
unfolding to_snapshot
seen-presale = (refl, refl, refl, refl)

to_snapshot-IsAnnounced_example :
    IsAnnounced calendar seen.public_onsale_start
    × IsAnnounced calendar seen.public_onsale_end
    × IsAnnounced calendar seen.earliest_presale_start
    × (seen.onsale_tbd ≡ true → seen.public_onsale_start ≡ none)
to_snapshot-IsAnnounced_example = to_snapshot-IsAnnounced calendar event

to_snapshot-earliest_presale_example :
    All (IsNoLaterThan calendar seen.earliest_presale_start) event.presales
    × ((t : Instant)
        → seen.earliest_presale_start ≡ some t
        → IsFrom calendar (seen.earliest_presale_start, seen.earliest_presale_name) event.presales)
to_snapshot-earliest_presale_example = to_snapshot-earliest_presale calendar event

-- The answers to come, and two counts.
record Api : Type 0 where
  answers : Answers
  requests : ℕ
  granted : ℕ

abbrev net : Net Api
net = record {
  limiter = some (λ c s. (ok tt, record s { granted = s.granted + 1 }));
  exchange =
      λ u s. (s.answers 0, record s { answers = later s.answers; requests = s.requests + 1 });
  random = λ n s. (0, s);
  wait = λ n s. (ok tt, s);
  atoi = λ v. none;
  truncate = λ v. v;
}

net-IsCounting : IsCounting net (λ s. s.requests) (λ s. s.granted)
net-IsCounting = record {
  by_acquire = λ c s. (refl, refl);
  by_exchange = λ u s. (refl, refl);
  by_random = λ n s. (refl, refl);
  by_wait = λ n s. (refl, refl);
}

net-IsServed : IsServed net (λ s. s.answers)
net-IsServed = record {
  by_acquire = λ c s. (refl, refl);
  by_exchange = λ u s. (refl, refl);
  by_random = λ n s. refl;
  by_wait = λ n s. (refl, refl);
}

-- Nothing but 429s.
abbrev busy : Api
busy = record {
  answers = λ k. ok (record { status = 429; retry_after = ""; body = "" });
  requests = 0;
  granted = 0;
}

busy-result :
    do_request net class_poll "u" busy
    ≡ (err retries_exhausted, record busy { requests = 4; granted = 4 })
unfolding do_request
busy-result = refl

do_request-Within_example :
    let s' = (do_request net class_poll "u" busy).1 in
    (s'.requests ≤ busy.requests + 4) × (s'.requests + busy.granted ≤ busy.requests + s'.granted)
do_request-Within_example =
    do_request-Within net (λ s. s.requests) (λ s. s.granted) net-IsCounting class_poll "u" busy

do_request-first_answer_example :
    (do_request net class_poll "u" busy).0 ≡ first_answer net.truncate 4 busy.answers
do_request-first_answer_example =
    do_request-first_answer net (λ s. s.answers) net-IsServed class_poll "u" busy
