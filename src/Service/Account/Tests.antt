-- ===== src/Service/Account/Tests.antt =====
-- The first user of the small database follows the link of an email.
use ticket_watcher.Prelude.{◌≡◌, refl, arith, false, str_eq, All}
use ticket_watcher.Prelude.Outcome.{ok}
use ticket_watcher.World.{Alert, next_turn}
use ticket_watcher.Worker.{run_jobs}
use ticket_watcher.Worker.Sample.{start, deps, three_jobs, silent-IsQuiet}
use ticket_watcher.Auth.Tests.{signer, signer-IsDecimal}
use ticket_watcher.Auth.Unsubscribe.{new_unsubscribe_token}
use ticket_watcher.Service.Account.{unsubscribe}
use ticket_watcher.Service.Account.OptOut.{IsOnlyOf, unsubscribe-silences}

start-IsOnlyOf : All (IsOnlyOf "a@x" 1) start.db.users.rows
start-IsOnlyOf = ((λ e. refl), ((λ e. ground (arith, e)), ((λ e. ground (arith, e)), tt)))

start-works : (next_turn start start.script).0 ≡ false
unfolding next_turn
start-works = refl

unsubscribe-silences_example :
    let (r, w') = unsubscribe signer "k" (new_unsubscribe_token signer "k" 1) start in
    (r ≡ ok tt)
    × All
        (λ (a : Alert). str_eq a.to_email "a@x" ≡ false)
        (run_jobs deps three_jobs w').notify_calls
unsubscribe-silences_example =
    unsubscribe-silences signer "k" "a@x" 1 signer-IsDecimal (omega arith) deps three_jobs start
      silent-IsQuiet refl start-IsOnlyOf start-works
