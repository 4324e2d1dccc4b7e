-- ===== src/Ticketmaster/Client.antt =====
-- internal/ticketmaster/client.go, the requests: `do`, with its retries on a 429, `Search` and
-- `GetEvent`. What a request meets outside is a parameter over any state: the limiter, Go's HTTP
-- client and random numbers, and a wait. So are Go's decimal numbers, addresses and JSON.
pub mod Retries
pub mod Answers
use ticket_watcher.Prelude.{
  ℕ, zero, suc, ◌+◌, ◌*◌, ◌^◌, ◌==◌, Bool, true, false, Option, none, some, List, String, str_eq,
  if◌then◌else◌,
}
use ticket_watcher.Prelude.Int.{ℤ, pos, pos_part, mul_int64}
use ticket_watcher.Prelude.Instant.{second}
use ticket_watcher.Prelude.Outcome.{Outcome, ok, err}
use ticket_watcher.Ratelimit.{Class, class_poll, class_search}
use ticket_watcher.Ticketmaster.Types.{EventSnapshot, TmEvent}
use ticket_watcher.Ticketmaster.Snapshot.{Calendar, to_snapshot, parse_search_response}

-- What `do` reads of an answer.
pub record Response : Type 0 where
  pub status : ℕ
  pub retry_after : String
  pub body : String

pub data ClientError : Type 0 where
  -- The limiter's error.
  not_acquired : String → ClientError
  -- The error of a request that could not be built, sent or read.
  no_answer : String → ClientError
  cancelled : String → ClientError
  unexpected_status : ℕ → String → ClientError
  retries_exhausted : ClientError
  decode_failed : String → ClientError

-- The outside, over its state.
pub record Net (S : Type 0) : Type 0 where
  -- nil for a client without a limiter.
  pub limiter : Option (Class → S → Outcome String (Unit {0}) × S)
  -- `http.NewRequestWithContext`, `c.http.Do` and `io.ReadAll`.
  pub exchange : String → S → Outcome String Response × S
  -- `rand.Int63n(n)`
  pub random : ℕ → S → ℕ × S
  -- `time.After` against `ctx.Done()`, for so many nanoseconds.
  pub wait : ℕ → S → Outcome String (Unit {0}) × S
  -- `strconv.Atoi`
  pub atoi : String → Option ℤ
  -- The first 200 bytes of a body, for an error's text.
  pub truncate : String → String

-- `base` of backoff: 500 ms.
abbrev pub backoff_base : ℕ
backoff_base = 500_000_000

-- parseRetryAfter; the seconds are multiplied as 64-bit nanoseconds.
abbrev pub parse_retry_after : (String → Option ℤ) → String → Option ℤ
parse_retry_after atoi v =
    if str_eq v ""
    then none
    else elim (atoi v) [ none ↦ none | some secs ↦ some (mul_int64 secs second) ]

-- How an attempt ends the loop, or that the next one follows.
pub data Attempt : Type 0 where
  returned : Outcome ClientError String → Attempt
  again : Attempt

module _ {S : Type 0} (net : Net S) where
  -- backoff
  abbrev pub backoff : ℕ → S → ℕ × S
  backoff attempt s =
      let (jitter, s') = net.random backoff_base s in (backoff_base * 2 ^ attempt + jitter, s')

  -- The delay that the answer asks for, in place of the backoff's.
  abbrev pub delay : Option ℤ → ℕ → ℕ
  delay none wait = wait
  delay (some d) wait = pos_part d

  abbrev pub after_wait : Outcome String (Unit {0}) → Attempt
  after_wait (ok _) = again
  after_wait (err e) = returned (err (cancelled e))

  abbrev pub wait_and_retry : ℕ → Response → S → Attempt × S
  wait_and_retry attempt resp s =
      let (backed_off, s1) = backoff attempt s in
      let (r, s2) = net.wait (delay (parse_retry_after net.atoi resp.retry_after) backed_off) s1 in
      (after_wait r, s2)

  -- The switch on the status.
  abbrev pub after_exchange : ℕ → Outcome String Response → S → Attempt × S
  after_exchange attempt (err e) s = (returned (err (no_answer e)), s)
  after_exchange attempt (ok resp) s =
      if resp.status == 200
      then (returned (ok resp.body), s)
      else if resp.status == 429
      then wait_and_retry attempt resp s
      else (returned (err (unexpected_status resp.status (net.truncate resp.body))), s)

  abbrev pub after_acquire : ℕ → String → Outcome String (Unit {0}) → S → Attempt × S
  after_acquire attempt endpoint (err e) s = (returned (err (not_acquired e)), s)
  after_acquire attempt endpoint (ok _) s =
      let (r, s') = net.exchange endpoint s in after_exchange attempt r s'

  -- `c.limiter.Acquire`, when there is a limiter.
  abbrev pub acquire :
      Option (Class → S → Outcome String (Unit {0}) × S) → Class → S → Outcome String (Unit {0}) × S
  acquire none class s = (ok tt, s)
  acquire (some f) class s = f class s

  -- One turn of the loop.
  unfoldable pub try_once : Class → String → ℕ → S → Attempt × S
  try_once class endpoint attempt s =
      let (r, s') = acquire net.limiter class s in after_acquire attempt endpoint r s'

  abbrev pub conclude :
      Attempt → S → (S → Outcome ClientError String × S) → Outcome ClientError String × S
  conclude (returned o) s next = (o, s)
  conclude again s next = next s

  -- The loop from an attempt on, with so many left.
  unfoldable pub attempts : Class → String → ℕ → ℕ → S → Outcome ClientError String × S
  unfolding try_once
  attempts class endpoint zero attempt s = (err retries_exhausted, s)
  attempts class endpoint (suc left) attempt s =
      let (a, s') = try_once class endpoint attempt s in
      conclude a s' (attempts class endpoint left (attempt + 1))

  abbrev pub max_retries : ℕ
  max_retries = 3

  -- do
  unfoldable pub do_request : Class → String → S → Outcome ClientError String × S
  unfolding attempts
  do_request class endpoint s = attempts class endpoint (max_retries + 1) 0 s

  -- `json.Unmarshal`, and what follows it.
  abbrev pub decoded_event :
      Calendar
      → (String → Outcome String TmEvent)
      → Outcome ClientError String
      → Outcome ClientError EventSnapshot
  decoded_event c decode (err e) = err e
  decoded_event c decode (ok body) = elim (decode body) [
    | ok e ↦ ok (to_snapshot c e)
    | err e ↦ err (decode_failed e)
  ]

  -- GetEvent, for the address of an event
  unfoldable pub get_event :
      Calendar
      → (String → Outcome String TmEvent)
      → (String → String)
      → String
      → S
      → Outcome ClientError EventSnapshot × S
  unfolding do_request
  get_event c decode event_url tm_event_id s =
      let (r, s') = do_request class_poll (event_url tm_event_id) s in
      (decoded_event c decode r, s')

  abbrev pub decoded_search :
      Calendar
      → (String → Outcome String (List TmEvent))
      → Outcome ClientError String
      → Outcome ClientError (List EventSnapshot)
  decoded_search c decode (err e) = err e
  decoded_search c decode (ok body) = elim (parse_search_response c decode body) [
    | ok es ↦ ok es
    | err e ↦ err (decode_failed e)
  ]

  -- Search, for the address of a keyword, with the filter on upcoming sales or without
  unfoldable pub search_events :
      Calendar
      → (String → Outcome String (List TmEvent))
      → (String → Bool → String)
      → String
      → Bool
      → S
      → Outcome ClientError (List EventSnapshot) × S
  unfolding do_request
  search_events c decode search_url keyword upcoming_only s =
      let (r, s') = do_request class_search (search_url keyword upcoming_only) s in
      (decoded_search c decode r, s')
