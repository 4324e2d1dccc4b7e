-- ===== src/Ticketmaster/Client/Retries.antt =====
-- How many requests a call makes, and what it answers.
use ticket_watcher.Prelude.{
  ℕ, zero, suc, ◌+◌, ◌≤◌, ◌≡◌, ◌==◌, refl, ◌∙◌, arith, Bool-cases, inl, inr, String, if◌then◌else◌,
}
use ticket_watcher.Prelude.Outcome.{Outcome, ok, err, is_ok}
use ticket_watcher.Ratelimit.{Class}
use ticket_watcher.Ticketmaster.Client.{
  Response, ClientError, Net, Attempt, backoff_base, returned, again, acquire, backoff, delay,
  parse_retry_after, wait_and_retry, after_exchange, after_acquire, try_once, conclude, attempts,
  do_request,
}

module _ {S : Type 0} (net : Net S) where
  -- The state's counts of the requests made and of the tokens that the limiter granted.
  pub record IsCounting (requests granted : S → ℕ) : Type 0 where
    pub by_acquire :
        (c : Class) (s : S)
        → (requests (acquire net net.limiter c s).1 ≡ requests s)
          × (granted (acquire net net.limiter c s).1
              ≡ granted s + (if is_ok (acquire net net.limiter c s).0 then 1 else 0))
    pub by_exchange :
        (u : String) (s : S)
        → (requests (net.exchange u s).1 ≡ requests s + 1)
          × (granted (net.exchange u s).1 ≡ granted s)
    pub by_random :
        (n : ℕ) (s : S)
        → (requests (net.random n s).1 ≡ requests s) × (granted (net.random n s).1 ≡ granted s)
    pub by_wait :
        (n : ℕ) (s : S)
        → (requests (net.wait n s).1 ≡ requests s) × (granted (net.wait n s).1 ≡ granted s)

  module _ (requests granted : S → ℕ) (counting : IsCounting requests granted) where
    -- From one state to another: so many requests at most, and each with a token of its own.
    abbrev Within : ℕ → S → S → Type 0
    Within n s s' =
        (requests s' ≤ requests s + n) × (requests s' + granted s ≤ requests s + granted s')

    abbrev SameCounts : S → S → Type 0
    SameCounts s s' = (requests s' ≡ requests s) × (granted s' ≡ granted s)

    wait_and_retry-SameCounts :
        (attempt : ℕ) (resp : Response) (s : S) → SameCounts s (wait_and_retry net attempt resp s).1
    wait_and_retry-SameCounts attempt resp s =
        let h = counting.by_random backoff_base s in
        let k =
          counting.by_wait
            (delay net (parse_retry_after net.atoi resp.retry_after) (backoff net attempt s).0)
            (net.random backoff_base s).1 in
        (k.0 ∙ h.0, k.1 ∙ h.1)

    after_exchange-SameCounts :
        (attempt : ℕ) (r : Outcome String Response) (s : S)
        → SameCounts s (after_exchange net attempt r s).1
    after_exchange-SameCounts attempt (err e) s = (refl, refl)
    after_exchange-SameCounts attempt (ok resp) s = elim (Bool-cases (resp.status == 200)) [
      | inl e ↦ rw e (refl, refl)
      | inr e ↦ rw e (elim (Bool-cases (resp.status == 429)) [
        | inl e' ↦ rw e' (wait_and_retry-SameCounts attempt resp s)
        | inr e' ↦ rw e' (refl, refl)
      ])
    ]

    after_acquire-Within :
        (attempt : ℕ) (u : String) (r : Outcome String (Unit {0})) (s s' : S)
        → requests s' ≡ requests s
        → granted s' ≡ granted s + (if is_ok r then 1 else 0)
        → Within 1 s (after_acquire net attempt u r s').1
    after_acquire-Within attempt u (err e) s s' hr hg = (omega arith, omega arith)
    after_acquire-Within attempt u (ok tt) s s' hr hg =
        let h = counting.by_exchange u s' in
        let k = after_exchange-SameCounts attempt (net.exchange u s').0 (net.exchange u s').1 in
        (ground (arith, h.0, k.0, hr), ground (arith, h.0, h.1, k.0, k.1, hr, hg))

    try_once-Within :
        (c : Class) (u : String) (attempt : ℕ) (s : S) → Within 1 s (try_once net c u attempt s).1
    unfolding try_once
    try_once-Within c u attempt s =
        let h = counting.by_acquire c s in after_acquire-Within attempt u _ s _ h.0 h.1

    conclude-Within :
        (n : ℕ) (a : Attempt) (s s' : S) (next : S → Outcome ClientError String × S)
        → Within 1 s s'
        → Within n s' (next s').1
        → Within (n + 1) s (conclude net a s' next).1
    conclude-Within n (returned o) s s' next h k = (omega arith, h.1)
    conclude-Within n again s s' next h k = (omega arith, omega arith)

    attempts-Within :
        (c : Class) (u : String) (left attempt : ℕ) (s : S)
        → Within left s (attempts net c u left attempt s).1
    unfolding attempts
    attempts-Within c u zero attempt s = (omega arith, omega arith)
    attempts-Within c u (suc left) attempt s =
        let t = try_once net c u attempt s in
        let h =
          conclude-Within left t.0 s t.1 (attempts net c u left (attempt + 1))
            (try_once-Within c u attempt s) (attempts-Within c u left (attempt + 1) t.1) in
        (ground (arith, h.0), h.1)

  -- One call makes four requests at most, and never more than the tokens that it was granted: a
  -- retry takes a token of its own. The counts are those of the state.
  pub do_request-Within :
      (requests granted : S → ℕ)
      → IsCounting requests granted
      → (c : Class) (u : String) (s : S)
      → let s' = (do_request net c u s).1 in
        (requests s' ≤ requests s + 4) × (requests s' + granted s ≤ requests s + granted s')
  unfolding do_request
  do_request-Within requests granted counting c u s =
      attempts-Within requests granted counting c u 4 0 s
