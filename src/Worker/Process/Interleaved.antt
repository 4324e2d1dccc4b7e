-- ===== src/Worker/Process/Interleaved.antt =====
-- Several polls at once, whose moves interleave.
use ticket_watcher.Prelude.{
  ℕ, zero, suc, ◌+◌, ◌≤◌, ◌≡◌, inl, inr, Bool, true, false, not, ◌&&◌, Option, none, some, List, [],
  ◌∷◌, String, str_eq, arith, if◌then◌else◌,
}
use ticket_watcher.Prelude.Instant.{Instant}
use ticket_watcher.Prelude.Outcome.{Outcome}
use ticket_watcher.Evaluator.{kind_text, status_onsale}
use ticket_watcher.Store.Models.{Db}
use ticket_watcher.Store.Query.{Query, DbError}
use ticket_watcher.Store.Claims.{is_spent}
use ticket_watcher.Store.Ids.{
  IsKnown, Respects, create_watch-Respects, update_watch-Respects, delete_watch-Respects,
  delete_user-Respects, create_user-Respects, mark_email_verified-Respects,
  update_user_password-Respects, set_unsubscribed-Respects, set_resubscribed-Respects,
  create_auth_token-Respects, mark_auth_token_used-Respects, delete_auth_tokens_for_user-Respects,
  upsert_event_by_tmid-Respects, mark_event_due-Respects,
}
use ticket_watcher.World.{sent_by, World, Sent, Alert, query, answer, next_turn}
use ticket_watcher.World.Rules.{On, Keeps, Keeps-query, next_turn_frame}
use ticket_watcher.Worker.{Deps, Notifier, Fetch, notify_with}
use ticket_watcher.Worker.Quiet.{HasQuiet}
use ticket_watcher.Worker.Once.Statements.{is_call_for, calls_for, AtMostOnce, notify_with_lem}
use ticket_watcher.Worker.Process.{
  Process, returns, asks, reads_clock, hands_over, advance, advance_at, interleave, UserStatement,
  creating_watch, updating_watch, deleting_watch, deleting_user, creating_user, verifying_email,
  updating_password, unsubscribing_user, resubscribing_user, creating_token, using_token,
  deleting_tokens, storing_event, marking_due, asked_by_user, Move, of_process, of_user,
}
use ticket_watcher.Worker.Process.Poll.{Goroutine, polling}
use ticket_watcher.Worker.Process.Safe.{Safe}
use ticket_watcher.Worker.Process.Claiming.{polling-IsSafe}

abbrev as_number : Bool → ℕ
as_number c = if c then 1 else 0

-- The claims in hand.
abbrev in_hand : List Bool → ℕ
in_hand [] = 0
in_hand (c ∷ cs) = as_number c + in_hand cs

notify_with-IsKnown :
    (n : Option Notifier) (id : ℕ) (a : Alert) (w : World)
    → HasQuiet n
    → IsKnown id w.db
    → IsKnown id (notify_with n a w).db
notify_with-IsKnown none id a w quiet known = known
notify_with-IsKnown (some n) id a w quiet known =
    rw (quiet.keeps_watches a (record w { notify_calls = a ∷ w.notify_calls })) known

module _ (id : ℕ) (kind : String) where
  -- The claims in hand, and the alerts handed over, are at most one together, and none while the
  -- pair can still be claimed.
  record Covered (claims : ℕ) (sent : Sent) (db : Db) : Type 0 where
    once : claims + calls_for id kind sent.notify_calls ≤ (if is_spent id kind db then 1 else 0)
    known : IsKnown id db

  abbrev IsCovered : ℕ → World → Type 0
  IsCovered claims = On (Covered claims)

  regrouped : {m n : ℕ} (w : World) → m ≡ n → IsCovered m w → IsCovered n w
  regrouped w e covered = record { once = omega (arith, e, covered.once); known = covered.known }

  statement-Covered :
      {A : Type 0} (claims : ℕ) (q : Query A)
      → ((now : Instant) (db : Db) → Respects id kind db (q now db).1)
      → Keeps (Covered claims) (query q)
  statement-Covered claims q h = Keeps-query q λ now sent db covered.
      let step = h now db covered.known in
      record { once = ground (arith, covered.once, step.0); known = step.1 }

  user-Covered :
      (claims : ℕ) (u : UserStatement) (w : World)
      → IsCovered claims w
      → IsCovered claims (asked_by_user u w)
  user-Covered n (creating_watch p) w =
      (statement-Covered n _ (λ t db. create_watch-Respects id kind t db p)).at w
  user-Covered n (updating_watch st i u) w =
      (statement-Covered n _ (λ t db. update_watch-Respects id kind t db st i u)).at w
  user-Covered n (deleting_watch i u) w =
      (statement-Covered n _ (λ t db. delete_watch-Respects id kind t db i u)).at w
  user-Covered n (deleting_user u) w =
      (statement-Covered n _ (λ t db. delete_user-Respects id kind t db u)).at w
  user-Covered n (creating_user e h) w =
      (statement-Covered n _ (λ t db. create_user-Respects id kind t db e h)).at w
  user-Covered n (verifying_email i) w =
      (statement-Covered n _ (λ t db. mark_email_verified-Respects id kind t db i)).at w
  user-Covered n (updating_password i h) w =
      (statement-Covered n _ (λ t db. update_user_password-Respects id kind t db i h)).at w
  user-Covered n (unsubscribing_user i) w =
      (statement-Covered n _ (λ t db. set_unsubscribed-Respects id kind t db i)).at w
  user-Covered n (resubscribing_user i) w =
      (statement-Covered n _ (λ t db. set_resubscribed-Respects id kind t db i)).at w
  user-Covered n (creating_token p) w =
      (statement-Covered n _ (λ t db. create_auth_token-Respects id kind t db p)).at w
  user-Covered n (using_token i) w =
      (statement-Covered n _ (λ t db. mark_auth_token_used-Respects id kind t db i)).at w
  user-Covered n (deleting_tokens i p) w =
      (statement-Covered n _ (λ t db. delete_auth_tokens_for_user-Respects id kind t db i p)).at w
  user-Covered n (storing_event p) w =
      (statement-Covered n _ (λ t db. upsert_event_by_tmid-Respects id kind t db p)).at w
  user-Covered n (marking_due i) w =
      (statement-Covered n _ (λ t db. mark_event_due-Respects id kind t db i)).at w

  module _ {E A : Type 0} where
    -- Each process is safe with the claim it has in hand.
    abbrev AllSafe : List Bool → List (Process E A) → Type 0
    AllSafe [] [] = Unit
    AllSafe [] (p ∷ ps) = ⊥
    AllSafe (c ∷ cs) [] = ⊥
    AllSafe (c ∷ cs) (p ∷ ps) = Safe id kind c p × AllSafe cs ps

    -- A process moved on, and `others` claims are in other hands.
    abbrev Moved : ℕ → Process E A → World → Type 0
    Moved others p w = (c : Bool) × Safe id kind c p × IsCovered (as_number c + others) w

    answered :
        {B : Type 0} (q : Query B) (k : Outcome DbError B → Process E A) (c fails : Bool)
        (others : ℕ) (w : World)
        → Safe id kind c (asks B q k)
        → IsCovered (as_number c + others) w
        → Moved others (k (answer q fails w).0) (answer q fails w).1
    answered q k c true others w h covered = (c, h.0, covered)
    answered q k c false others w h covered =
        let step = h.1 w.clock w.db in
        let respects = step.0 covered.known in
        elim step.1 [
          | inl kept ↦ (
            c,
            kept,
            record { once = ground (arith, covered.once, respects.0); known = respects.1 },
          )
          | inr won ↦ (
            true,
            won.2,
            record { once = ground (arith, covered.once, won.0, won.1); known = respects.1 },
          )
        ]

    asked :
        {B : Type 0} (q : Query B) (k : Outcome DbError B → Process E A) (c : Bool) (others : ℕ)
        (w : World)
        → Safe id kind c (asks B q k)
        → IsCovered (as_number c + others) w
        → Moved others (k (query q w).0) (query q w).1
    unfolding query
    asked q k c others w h covered =
        let frame = next_turn_frame w w.script in
        let (fails, w') = next_turn w w.script in
        answered q k c fails others w' h (rw (frame.0, frame.1, frame.2) covered)

    advance-Safe :
        (n : Option Notifier) (p : Process E A) (c : Bool) (others : ℕ) (w : World)
        → HasQuiet n
        → Safe id kind c p
        → IsCovered (as_number c + others) w
        → Moved others (advance n p w).0 (advance n p w).1
    advance-Safe n (returns o) c others w quiet h covered = (c, tt, covered)
    advance-Safe n (asks B q k) c others w quiet h covered = asked q k c others w h covered
    advance-Safe n (reads_clock k) c others w quiet h covered = (c, h w.clock, covered)
    advance-Safe n (hands_over a p) c others w quiet h covered = (
      c && not (is_call_for id kind a),
      h.1,
      record {
        once = ground (arith, covered.once, h.0, notify_with_lem n id kind a w quiet);
        known = notify_with-IsKnown n id a w quiet covered.known;
      },
    )

    -- The processes after a move, and `others` claims outside the pool.
    abbrev PoolSafe : ℕ → List (Process E A) → World → Type 0
    PoolSafe others ps w = (cs : List Bool) × AllSafe cs ps × IsCovered (in_hand cs + others) w

    advance_at-Safe :
        (n : Option Notifier) (i : ℕ) (ps : List (Process E A)) (cs : List Bool) (others : ℕ)
        (w : World)
        → HasQuiet n
        → AllSafe cs ps
        → IsCovered (in_hand cs + others) w
        → PoolSafe others (advance_at n i ps w).0 (advance_at n i ps w).1
    advance_at-Safe n i [] cs others w quiet h covered = (cs, h, covered)
    advance_at-Safe n i (p ∷ ps) [] others w quiet h covered = elim h [ ]
    advance_at-Safe n zero (p ∷ ps) (c ∷ cs) others w quiet h covered =
        let moved =
          advance-Safe n p c (in_hand cs + others) w quiet h.0
            (regrouped w (omega arith) covered) in
        (moved.0 ∷ cs, (moved.1, h.1), regrouped (advance n p w).1 (omega arith) moved.2)
    advance_at-Safe n (suc i) (p ∷ ps) (c ∷ cs) others w quiet h covered =
        let moved =
          advance_at-Safe n i ps cs (as_number c + others) w quiet h.1
            (regrouped w (omega arith) covered) in
        (c ∷ moved.0, (h.0, moved.1), regrouped (advance_at n i ps w).1 (omega arith) moved.2)

    interleave-Safe :
        (n : Option Notifier) (ms : List Move) (ps : List (Process E A)) (w : World)
        → HasQuiet n
        → PoolSafe 0 ps w
        → PoolSafe 0 (interleave n ms ps w).0 (interleave n ms ps w).1
    interleave-Safe n [] ps w quiet h = h
    interleave-Safe n (of_user u ∷ ms) ps w quiet (cs, h, covered) =
        interleave-Safe n ms ps (asked_by_user u w) quiet (cs, h, user-Covered _ u w covered)
    interleave-Safe n (of_process i ∷ ms) ps w quiet (cs, h, covered) =
        interleave-Safe n ms (advance_at n i ps w).0 (advance_at n i ps w).1 quiet
          (advance_at-Safe n i ps cs 0 w quiet h covered)

-- The polls of a list of jobs, each at its beginning.
abbrev pub polls_of : Deps → List (ℕ × Fetch) → List (Goroutine (Unit {0}))
polls_of d [] = []
polls_of d ((event_id, fetch) ∷ jobs) = polling d fetch event_id ∷ polls_of d jobs

begun :
    (id : ℕ) (kind : String) (d : Deps) (jobs : List (ℕ × Fetch)) (w : World)
    → str_eq kind (kind_text status_onsale) ≡ false
    → IsCovered id kind 0 w
    → PoolSafe id kind 0 (polls_of d jobs) w
begun id kind d [] w ne covered = ([], tt, covered)
begun id kind d ((event_id, fetch) ∷ jobs) w ne covered =
    let (cs, h, rest) = begun id kind d jobs w ne covered in
    (
      false ∷ cs,
      ((polling-IsSafe id kind d ne fetch event_id).at, h),
      regrouped id kind w (omega arith) rest,
    )

-- Any number of polls, of any events, run at once, and their moves interleave in any order with each
-- other and with what users write to watches, events, accounts and links, whatever the client answers and
-- whichever statements fail: each milestone but the status fallback is handed to the notifier at
-- most once for each watch. The notifier is quiet; at the start at most one watch had the id, and
-- none if the sequence had yet to give it out; and the pair had no alert, or one and no later claim
-- of it could succeed.
pub interleave-at_most_once :
    (id : ℕ) (kind : String) (d : Deps) (jobs : List (ℕ × Fetch)) (schedule : List Move) (w : World)
    → HasQuiet d.notifier
    → str_eq kind (kind_text status_onsale) ≡ false
    → IsKnown id w.db
    → On (AtMostOnce id kind) w
    → calls_for id kind (interleave d.notifier schedule (polls_of d jobs) w).1.notify_calls ≤ 1
interleave-at_most_once id kind d jobs schedule w quiet ne known h =
    let covered : Covered id kind 0 (sent_by w) w.db = record {
      once = omega (arith, h);
      known = known;
    } in
    let done =
      interleave-Safe id kind d.notifier schedule (polls_of d jobs) w quiet
        (begun id kind d jobs w ne covered) in
    ground (arith, done.2.once)
