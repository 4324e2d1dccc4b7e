-- ===== src/Ticketmaster/Client/Answers.antt =====
-- What a call answers: the first answer that settles it, of the first four.
use ticket_watcher.Prelude.{
  ℕ, zero, suc, ◌+◌, ◌≡◌, ◌==◌, refl, ap, sym, ◌∙◌, Bool-cases, inl, inr, String, if◌then◌else◌,
}
use ticket_watcher.Prelude.Outcome.{Outcome, ok, err}
use ticket_watcher.Ratelimit.{Class}
use ticket_watcher.Ticketmaster.Client.{
  Response, ClientError, no_answer, retries_exhausted, unexpected_status, Net, Attempt, returned,
  again, acquire, backoff, backoff_base, delay, parse_retry_after, wait_and_retry, after_exchange,
  try_once, conclude, attempts, do_request,
}

-- The answers to come.
abbrev pub Answers : Type 0
Answers = ℕ → Outcome String Response

abbrev pub later : Answers → Answers
later answers k = answers (suc k)

-- One answer settles the call, unless it is a 429.
abbrev pub verdict : (String → String) → Outcome String Response → Attempt
verdict truncate (err e) = returned (err (no_answer e))
verdict truncate (ok resp) =
    if resp.status == 200
    then returned (ok resp.body)
    else if resp.status == 429
    then again
    else returned (err (unexpected_status resp.status (truncate resp.body)))

abbrev pub or_else : Attempt → Outcome ClientError String → Outcome ClientError String
or_else (returned o) rest = o
or_else again rest = rest

-- The first of so many answers that settles the call.
unfoldable pub first_answer : (String → String) → ℕ → Answers → Outcome ClientError String
first_answer truncate zero answers = err retries_exhausted
first_answer truncate (suc n) answers =
    or_else (verdict truncate (answers 0)) (first_answer truncate n (later answers))

module _ {S : Type 0} (net : Net S) where
  -- Every request takes the next of the state's answers, the limiter grants and no wait is cut short.
  pub record IsServed (answers : S → Answers) : Type 0 where
    pub by_acquire :
        (c : Class) (s : S)
        → ((acquire net net.limiter c s).0 ≡ ok tt)
          × (answers (acquire net net.limiter c s).1 ≡ answers s)
    pub by_exchange :
        (u : String) (s : S)
        → ((net.exchange u s).0 ≡ answers s 0) × (answers (net.exchange u s).1 ≡ later (answers s))
    pub by_random : (n : ℕ) (s : S) → answers (net.random n s).1 ≡ answers s
    pub by_wait :
        (n : ℕ) (s : S) → ((net.wait n s).0 ≡ ok tt) × (answers (net.wait n s).1 ≡ answers s)

  module _ (answers : S → Answers) (served : IsServed answers) where
    -- An attempt that comes to a verdict, with these answers left.
    abbrev Comes : Attempt → Answers → Attempt × S → Type 0
    Comes v left r = (r.0 ≡ v) × (answers r.1 ≡ left)

    wait_and_retry-Comes :
        (attempt : ℕ) (resp : Response) (s : S)
        → Comes again (answers s) (wait_and_retry net attempt resp s)
    wait_and_retry-Comes attempt resp s =
        let h =
          served.by_wait
            (delay net (parse_retry_after net.atoi resp.retry_after) (backoff net attempt s).0)
            (net.random backoff_base s).1 in
        (rw h.0 refl, h.1 ∙ served.by_random backoff_base s)

    after_exchange-Comes :
        (attempt : ℕ) (r : Outcome String Response) (s : S)
        → Comes (verdict net.truncate r) (answers s) (after_exchange net attempt r s)
    after_exchange-Comes attempt (err e) s = (refl, refl)
    after_exchange-Comes attempt (ok resp) s = elim (Bool-cases (resp.status == 200)) [
      | inl e ↦ rw e (refl, refl)
      | inr e ↦ rw e (elim (Bool-cases (resp.status == 429)) [
        | inl e' ↦ rw e' (wait_and_retry-Comes attempt resp s)
        | inr e' ↦ rw e' (refl, refl)
      ])
    ]

    try_once-Comes :
        (c : Class) (u : String) (attempt : ℕ) (s : S)
        → Comes
            (verdict net.truncate (answers s 0))
            (later (answers s))
            (try_once net c u attempt s)
    unfolding try_once
    try_once-Comes c u attempt s =
        let a = served.by_acquire c s in
        let s' = (acquire net net.limiter c s).1 in
        let x = served.by_exchange u s' in
        let h = after_exchange-Comes attempt (net.exchange u s').0 (net.exchange u s').1 in
        rw (a.0, sym a.1, sym x.0, sym x.1) h

    conclude-or_else :
        (a : Attempt) (s : S) (next : S → Outcome ClientError String × S)
        → (conclude net a s next).0 ≡ or_else a (next s).0
    conclude-or_else (returned o) s next = refl
    conclude-or_else again s next = refl

    attempts-first_answer :
        (c : Class) (u : String) (left attempt : ℕ) (s : S)
        → (attempts net c u left attempt s).0 ≡ first_answer net.truncate left (answers s)
    unfolding attempts first_answer
    attempts-first_answer c u zero attempt s = refl
    attempts-first_answer c u (suc left) attempt s =
        let t = try_once net c u attempt s in
        let h = try_once-Comes c u attempt s in
        let rest = attempts-first_answer c u left (attempt + 1) t.1 in
        conclude-or_else t.0 t.1 (attempts net c u left (attempt + 1))
        ∙ ap (or_else t.0) (rest ∙ ap (first_answer net.truncate left) h.1)
        ∙ ap (λ v. or_else v (first_answer net.truncate left (later (answers s)))) h.0

  -- When the limiter grants and no wait is cut short, a call answers with the first of the next four
  -- answers that is not a 429: the body of a 200, an error for a lost exchange or another status; and
  -- with `retries_exhausted` if all four are 429s.
  pub do_request-first_answer :
      (answers : S → Answers)
      → IsServed answers
      → (c : Class) (u : String) (s : S)
      → (do_request net c u s).0 ≡ first_answer net.truncate 4 (answers s)
  unfolding do_request
  do_request-first_answer answers served c u s = attempts-first_answer answers served c u 4 0 s
