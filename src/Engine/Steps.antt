-- ===== src/Engine/Steps.antt =====
-- Every step of the engine keeps its invariant.
use ticket_watcher.Prelude.{
  ◌∙◌, ℕ, ◌≡◌, refl, true, [], ◌∷◌, arith, ◌==◌, count-append, length-append, sym, ◌∙◌,
}
use mathlib.Core.List.{append_assoc}
use ticket_watcher.Engine.{
  SchedulerPhase, waiting, sending, stopped, MainPhase, awaiting_scheduler, awaiting_workers,
  returned, Engine, SchedulerStep, tick_begins, send, send_panics, tick_cancelled, saturated,
  tick_ends, run_stops, WorkerStep, receive, finish, exit, MainStep, signal, shuts_down, closes,
  returns, Step, by_scheduler, by_worker, by_main, Run, rest, after,
}
use ticket_watcher.Engine.Pool.{
  total, exits, polls, polls_event, total-Turns, length-Turns, exits-eq-length, total-le, exits-le,
}
use ticket_watcher.Engine.Invariant.{Inv, has_closed}

module _ {cap : ℕ} {s : Engine} (inv : Inv cap s) where
  moved :
      (p : SchedulerPhase)
      → (s.is_closed ≡ true → p ≡ stopped)
      → (p ≡ stopped → s.is_cancelled ≡ true)
      → Inv cap (record s { scheduler = p })
  moved p quiet told = record {
    fits = inv.fits;
    crew = inv.crew;
    ordered = inv.ordered;
    accounted = inv.accounted;
    counted = inv.counted;
    closed_by_main = inv.closed_by_main;
    no_sender = quiet;
    sound = inv.sound;
    drained_first = inv.drained_first;
    all_left = inv.all_left;
    cancelled_first = inv.cancelled_first;
    cancelled_stop = told;
  }

  scheduler-Inv : {t : Engine} → SchedulerStep cap s t → Inv cap t
  scheduler-Inv (tick_begins ids e) =
      moved (sending ids) (λ c. let d = inv.no_sender c in cc) (λ d. cc)
  scheduler-Inv (send id ids e free room) = record {
    fits = omega (arith, room, length-append s.buffer (id ∷ []));
    crew = inv.crew;
    ordered = rw inv.ordered (append_assoc s.taken s.buffer (id ∷ []));
    accounted = inv.accounted;
    counted = inv.counted;
    closed_by_main = inv.closed_by_main;
    no_sender = λ c. cc;
    sound = inv.sound;
    drained_first = λ h. let d = (inv.drained_first h).0 in cc;
    all_left = inv.all_left;
    cancelled_first = inv.cancelled_first;
    cancelled_stop = λ c. cc;
  }
  scheduler-Inv (send_panics id ids e closed) = let d = inv.no_sender closed in cc
  scheduler-Inv (tick_cancelled id ids e told) =
      moved waiting (λ c. let d = inv.no_sender c in cc) (λ d. told)
  scheduler-Inv (saturated id ids e told free full) =
      moved waiting (λ c. let d = inv.no_sender c in cc) (λ d. cc)
  scheduler-Inv (tick_ends e) = moved waiting (λ c. let d = inv.no_sender c in cc) (λ d. cc)
  scheduler-Inv (run_stops e told) = moved stopped (λ c. refl) (λ d. told)

  worker-Inv : {t : Engine} → WorkerStep s t → Inv cap t
  worker-Inv (receive id ids e turn) = record {
    fits = ground (arith, inv.fits, e);
    crew = length-Turns turn ∙ inv.crew;
    ordered = inv.ordered ∙ rw e (sym (append_assoc s.taken (id ∷ []) ids));
    accounted = λ i. omega (
      arith,
      inv.accounted i,
      total-Turns (polls_event i) turn,
      count-append (λ j. j == i) s.taken (id ∷ []),
    );
    counted = omega (arith, inv.counted, total-Turns polls turn, length-append s.taken (id ∷ []));
    closed_by_main = inv.closed_by_main;
    no_sender = inv.no_sender;
    sound = inv.sound;
    drained_first =
        λ h. ground (arith, e, inv.drained_first (omega (arith, h, total-Turns exits turn)));
    all_left = λ r. omega (arith, inv.all_left r, total-Turns exits turn);
    cancelled_first = inv.cancelled_first;
    cancelled_stop = inv.cancelled_stop;
  }
  worker-Inv (finish id turn) = record {
    fits = inv.fits;
    crew = length-Turns turn ∙ inv.crew;
    ordered = inv.ordered;
    accounted = λ i. omega (
      arith,
      inv.accounted i,
      total-Turns (polls_event i) turn,
      count-append (λ j. j == i) s.polled (id ∷ []),
    );
    counted = omega (arith, inv.counted, total-Turns polls turn, length-append s.polled (id ∷ []));
    closed_by_main = inv.closed_by_main;
    no_sender = inv.no_sender;
    sound = inv.sound;
    drained_first = λ h. inv.drained_first (omega (arith, h, total-Turns exits turn));
    all_left = λ r. omega (arith, inv.all_left r, total-Turns exits turn);
    cancelled_first = inv.cancelled_first;
    cancelled_stop = inv.cancelled_stop;
  }
  worker-Inv (exit {ws} closed empty turn) = record {
    fits = inv.fits;
    crew = length-Turns turn ∙ inv.crew;
    ordered = inv.ordered;
    accounted = λ i. omega (arith, inv.accounted i, total-Turns (polls_event i) turn);
    counted = omega (arith, inv.counted, total-Turns polls turn);
    closed_by_main = inv.closed_by_main;
    no_sender = inv.no_sender;
    sound = inv.sound;
    drained_first = λ h. (closed, rw empty refl);
    all_left = λ r. absurd (
        omega (
          arith,
          inv.all_left r,
          inv.crew,
          total-Turns exits turn,
          length-Turns turn,
          total-le exits exits-le ws,
        ));
    cancelled_first = inv.cancelled_first;
    cancelled_stop = inv.cancelled_stop;
  }

  -- `main` goes on, and the context is done.
  at_main :
      (m : MainPhase)
      → s.is_cancelled ≡ true
      → s.is_closed ≡ has_closed m
      → (m ≡ returned → total exits s.workers ≡ cap)
      → Inv cap (record s { main = m })
  at_main m told same left = record {
    fits = inv.fits;
    crew = inv.crew;
    ordered = inv.ordered;
    accounted = inv.accounted;
    counted = inv.counted;
    closed_by_main = same;
    no_sender = inv.no_sender;
    sound = inv.sound;
    drained_first = inv.drained_first;
    all_left = left;
    cancelled_first = λ ne. told;
    cancelled_stop = inv.cancelled_stop;
  }

  closed-Inv :
      s.main ≡ awaiting_scheduler
      → s.scheduler ≡ stopped
      → Inv cap (record s { main = awaiting_workers; is_closed = true })
  closed-Inv e quiet = record {
    fits = inv.fits;
    crew = inv.crew;
    ordered = inv.ordered;
    accounted = inv.accounted;
    counted = inv.counted;
    closed_by_main = refl;
    no_sender = λ c. quiet;
    sound = inv.sound;
    drained_first = λ h.
        let c = (inv.drained_first h).0 in let d = inv.closed_by_main in ground (arith, c, d, e);
    all_left = λ r. cc;
    cancelled_first = λ ne. inv.cancelled_stop quiet;
    cancelled_stop = inv.cancelled_stop;
  }

  main-Inv : {t : Engine} → MainStep s t → Inv cap t
  main-Inv (signal c) = record {
    fits = inv.fits;
    crew = inv.crew;
    ordered = inv.ordered;
    accounted = inv.accounted;
    counted = inv.counted;
    closed_by_main = inv.closed_by_main;
    no_sender = inv.no_sender;
    sound = inv.sound;
    drained_first = inv.drained_first;
    all_left = inv.all_left;
    cancelled_first = λ ne. refl;
    cancelled_stop = λ e. refl;
  }
  main-Inv (shuts_down e told) =
      at_main awaiting_scheduler told (inv.closed_by_main ∙ rw e refl) (λ r. cc)
  main-Inv (closes e quiet) = closed-Inv e quiet
  main-Inv (returns e left) =
      at_main returned (inv.cancelled_first (λ r. cc)) (inv.closed_by_main ∙ rw e refl)
        (λ r. exits-eq-length s.workers left ∙ inv.crew)

  pub Step-Inv : {t : Engine} → Step cap s t → Inv cap t
  Step-Inv (by_scheduler st) = scheduler-Inv st
  Step-Inv (by_worker st) = worker-Inv st
  Step-Inv (by_main st) = main-Inv st

pub Run-Inv : {cap : ℕ} {s t : Engine} → Inv cap s → Run cap s t → Inv cap t
Run-Inv inv rest = inv
Run-Inv inv (after r st) = Step-Inv (Run-Inv inv r) st
