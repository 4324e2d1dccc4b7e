-- ===== src/Lib.antt =====
-- TicketWatcher watches Ticketmaster events and mails their watchers when a sale milestone is
-- reached. A scheduler finds the events that are due and sends their ids to workers; a worker
-- fetches a snapshot of its event, stores what changed, asks the evaluator which milestones hold
-- for each watch, claims each milestone in the database, and hands an alert to the notifier. A
-- rate limiter keeps the calls to Ticketmaster within a daily budget.
--
-- Which file models which part:
--   * Prelude: lists, tests, signed integers, instants, outcomes and sorting. An instant is a
--     number of nanoseconds since Go's zero time.
--   * Evaluator: internal/evaluator/evaluator.go. `evaluate` is Evaluate, `sale_kinds` its part
--     below the vetoes. Evaluator/Spec states each milestone by itself, Evaluator/Edges what
--     holds from one poll to the next.
--   * Store: internal/store/db/models.go and queries.sql.go. Store/Models has the tables,
--     Store/Watches, Events and Users a step on them per SQL statement, under the statement's
--     name. Store/Claims says what the statements do to the claims of a milestone, Store/Ids to
--     the ids of watches, Store/Owners who may be mailed about a watch, Store/Ownership that a
--     poll leaves both alone.
--   * World: what the calls act on: the clock, the database, the mail accepted, the alerts handed
--     over, and a script of what is met outside. World/Rules and World/Runs are the rules for
--     what an action keeps, and for what it achieves, World/Success for what holds if it returns,
--     World/Leads for what holds whether it returns or fails.
--   * Ticketmaster: internal/ticketmaster. Types has the wire types and the snapshot of types.go;
--     Snapshot is `toSnapshot` and what it calls, of client.go, with Snapshot/Dates and
--     Snapshot/Earliest on its dates; Client is `do` with its retries, GetEvent and Search, with
--     Client/Retries on the number of requests and Client/Answers on the result.
--   * Notifier: internal/notifier. `notify` is Notify; Notifier/Markup and Render are render.go
--     and `render`, AuthMail auth_mail.go, Senders the two senders. Notifier/Safety is about
--     injected markup, Copy about the copy of a kind, Quiet about what the worker needs of a
--     notifier, and Mail about the mail of the worker and the notifier together.
--   * Worker: internal/worker/worker.go. `process_event` is ProcessEvent and `evaluate_watches`
--     evaluateWatches, whose loops are `evaluate_each` and `alert_kinds`; `run_jobs` is the loop
--     of one worker. Worker/Once, Worker/Consent and Worker/Delivery prove that alerts are
--     neither repeated, nor sent to people who do not want them, nor missed; Worker/Quiet is what
--     they need of a notifier, Worker/Polls what a relation needs to be kept by every poll, and
--     Worker/Tests has runs of a small database.
--   * Worker/Process: a poll cut into what a goroutine does without a break, a statement, a
--     reading of the clock or an alert handed over. `polling` of Process/Poll is ProcessEvent
--     again, which Process/Alone compares with `process_event`; Process/Safe and Claiming say
--     what one poll may do whatever the others do between its moves, and Process/Interleaved runs
--     several.
--   * Ratelimit: internal/ratelimit/quota.go, and Acquire of limiter.go; Ratelimit/Bounds has its
--     budgets. Ratelimit/Ip: internal/ratelimit/ip.go, the limiter per client address.
--   * Service/Watch: internal/service/watch.go, each operation of the watch service;
--     Service/Watch/View has what it shows, Service/Watch/Kept what a relation needs to be kept
--     by every call, Service/Watch/Isolation that users do not reach each other's watches, and
--     Service/Watch/Cap that none gets past the cap.
--   * Auth: internal/auth, with the opt-out link in Auth/Unsubscribe.
--   * Service/Auth, Account, Notifications: internal/service/auth.go, account.go, notification.go
--     and search.go. Service/Requests puts the calls on accounts in a row, and
--     Service/Requests/Kept is what a relation needs to be kept by them; Service/Auth/Backend is
--     what they need of the parameters, Service/Auth/Emails and Once, with Links and Once/Spent,
--     what they keep, Service/Auth/Login who gets a token, and Service/Account/OptOut what an
--     opt-out does to the polls after it.
--   * Http: internal/httpapi. Http/Replies has the statuses, Http/Handlers the handlers,
--     Http/Router the groups of routes with their guards, ratelimit.go and auth.Middleware among
--     them; Http/Limits and Http/Isolation, with Isolation/Statements, say what the guards
--     refuse.
--   * Config: internal/config/config.go.
--   * Scheduler: `tick` of internal/scheduler/scheduler.go; Scheduler/Due and Scheduler/Tick.
--   * Engine: what main of cmd/api/main.go starts and stops, as steps that interleave: those of
--     Run of scheduler.go with its ticks, those of the goroutines of StartPool of worker.go, and
--     those of main. Engine/Pool sums over the workers, Engine/Invariant and Steps what every
--     state has, Engine/Drain what happens to the ids sent, Engine/Shutdown and Finish how the
--     engine ends.
--
-- Failures: every call to the database takes a turn of the world's script, which says how much
-- time passes before it and whether it fails; a statement that fails has changed nothing. The
-- theorems on safety hold for every script, so for every place at which a poll can break off. An
-- exhausted script means that nothing fails any more. No definition runs on fuel: every loop is
-- over a list or a text that is there when it starts, but one. The loop of `do` counts the
-- attempts that are left, four at the start, as in the source.
--
-- How the parts meet: the worker calls a notifier through the interface of Worker/Quiet, which
-- Notifier/Quiet fills; the router calls the services, and these the statements of the store.
--
-- Parameters: the client's answer to a fetch or a search of the services, the exchange with an
-- HTTP server, random numbers, waits, bcrypt, JWT, SHA-256, HMAC and base64; of Go's library, the
-- parsing and writing of times and numbers, the Unicode tables, the escaping of a query, JSON and
-- the environment; the midnight after an instant, the outcome of the token bucket's wait, the
-- token buckets of the clients, and what each `select` of the scheduler meets. A notifier is
-- quiet when it leaves the watches, their claims, the users and the list of alerts alone, and a
-- world in which nothing fails any more as calm as it was.
--
-- Not modelled: logging; requests that interleave with each other (beside polls their statements
-- do, in Worker/Process); the matching of paths by chi, the pages of the web client and the texts
-- of the two opt-out pages; the migrations, and of main the construction of the services and the
-- HTTP server; the web client. An id in a path or a token is a natural number: a negative one
-- names no row. Rows are kept in the order in which they were inserted, which is one of the
-- orders that the database may answer. In Engine, a poll only begins and ends, the ids of a tick
-- are any, and the time of the ticks is left open. In Worker/Process, what the notifier does with
-- an alert is one move.
pub mod Prelude
pub mod Evaluator
pub mod Store
pub mod World
pub mod Ticketmaster
pub mod Notifier
pub mod Worker
pub mod Ratelimit
pub mod Scheduler
pub mod Engine
pub mod Auth
pub mod Config
pub mod Service
pub mod Http
