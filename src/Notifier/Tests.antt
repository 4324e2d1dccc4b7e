-- ===== src/Notifier/Tests.antt =====
-- Messages, and the mail of a few polls.
use ticket_watcher.Prelude.{◌≡◌, ◌↔◌, refl, true, false, none, some, [], ◌∷◌, All}
use ticket_watcher.World.{Alert}
use ticket_watcher.Evaluator.{Kind, kind_text}
use ticket_watcher.Worker.{run_jobs}
use ticket_watcher.Worker.Sample.{start, three_jobs}
use ticket_watcher.Notifier.Markup.{html_line, plain}
use ticket_watcher.Notifier.Safety.{IsMarkup, html_line-IsMarkup}
use ticket_watcher.Notifier.Render.{Formats, render}
use ticket_watcher.Notifier.Senders.{log_sender, log_sender-IsSender}
use ticket_watcher.Notifier.Copy.{is_rendered, render-ok_iff}
use ticket_watcher.Notifier.Quiet.{notifier}
use ticket_watcher.Notifier.Mail.{IsAlertMail, run_jobs-IsAlertMail}

html_line-test :
    html_line "Foo & <Bar> is **open** now" ≡ "Foo &amp; &lt;Bar&gt; is <strong>open</strong> now"
unfolding html_line
html_line-test = refl

-- One character at least, the earliest end, and no end at all.
plain-test : plain "**a** ***b** **c" ≡ "a *b **c"
unfolding plain
plain-test = refl

html_line-IsMarkup_example : IsMarkup false (html_line "Foo & <Bar> is **open** now")
html_line-IsMarkup_example = html_line-IsMarkup "Foo & <Bar> is **open** now"

abbrev formats : Formats
formats = record { format_utc = λ t. "Thu 17 Sep 2026 at 15:00 UTC"; lower_contains = λ s t. false }

abbrev alert : Alert
alert = record {
  watch_id = 11;
  to_email = "a@x";
  event_name = "Hamilton";
  venue = "";
  event_url = "";
  kind = "public_open";
  availability = "onsale";
  public_onsale_start = some 90;
  earliest_presale_start = none;
  earliest_presale_name = "";
  onsale_tbd = false;
  unsubscribe_url = "https://t/u?token=1.m";
}

render-ok_iff_example :
    (is_rendered (render formats alert) ≡ true) ↔ ((k : Kind) × (alert.kind ≡ kind_text k))
render-ok_iff_example = render-ok_iff formats alert

run_jobs-IsAlertMail_example :
    let w' =
      run_jobs
        (record { notifier = some (notifier formats (log_sender ∷ [])); unsubscribe_url = none })
        three_jobs
        start in
    All (IsAlertMail formats start.db.users.rows start.db.watches.rows w'.notify_calls) w'.outbox
run_jobs-IsAlertMail_example =
    run_jobs-IsAlertMail formats (log_sender ∷ []) none three_jobs start (log_sender-IsSender, tt)
      refl refl
