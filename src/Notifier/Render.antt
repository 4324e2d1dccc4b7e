-- ===== src/Notifier/Render.antt =====
-- internal/notifier/render.go and `render`: the message for one milestone.
use ticket_watcher.Prelude.{
  Bool, true, false, ◌||◌, Option, none, some, List, [], ◌∷◌, ◌++◌, String, ◌<>◌, str_eq,
  if◌then◌else◌,
}
use ticket_watcher.Prelude.Instant.{Instant}
use ticket_watcher.World.{Message, Alert}
use ticket_watcher.Notifier.Markup.{escape_string, plain, html_line}

-- What the copy uses of Go's calendar and of its Unicode tables: `t.UTC().Format("Mon 2 Jan 2006 at
-- 15:04 UTC")`, and whether `strings.ToLower` of a text contains another.
pub record Formats : Type 0 where
  pub format_utc : Instant → String
  pub lower_contains : String → String → Bool

-- `subject, lines, showResaleNote`
pub record Copy : Type 0 where
  pub subject : String
  pub lines : List String
  pub show_resale_note : Bool

abbrev pub resale_note : String
resale_note =
    "Ticketmaster's public data doesn't include resale listings, so tickets may be available on the event page even when the official sale hasn't opened or has closed."

-- `if s != "" { ... }`
abbrev pub unless_empty : String → String → String
unless_empty s t = if str_eq s "" then "" else t

module _ (f : Formats) where
  -- saleTime
  abbrev pub sale_time : Option Instant → String
  sale_time none = ""
  sale_time (some t) = f.format_utc t

  abbrev pub presale_line : Option Instant → List String
  presale_line none = []
  presale_line (some t) =
      ("There's also a presale starting "
        <> sale_time (some t)
        <> " — we'll alert you for that too.")
      ∷ []

  abbrev pub onsale_announced_copy : Alert → Copy
  onsale_announced_copy a = record {
    subject = "📅 Onsale date announced: " <> a.event_name;
    lines =
        (("Ticketmaster has announced when **" <> a.event_name <> "** goes on sale.")
          ∷ ("Public sale opens: **" <> sale_time a.public_onsale_start <> "**")
          ∷ "We'll email you again the moment it opens, so you don't need to keep checking."
          ∷ [])
        ++ presale_line a.earliest_presale_start;
    show_resale_note = true;
  }

  -- `what`
  abbrev pub presale_name : String → String
  presale_name n =
      if str_eq n ""
      then "A presale"
      else if f.lower_contains n "presale"
      then "The " <> n
      else "The " <> n <> " presale"

  abbrev pub public_line : Option Instant → Bool → List String
  public_line (some t) tbd = ("General public sale opens **" <> sale_time (some t) <> "**.") ∷ []
  public_line none true = "The general public sale date hasn't been announced yet." ∷ []
  public_line none false = []

  abbrev pub presale_open_copy : Alert → Copy
  presale_open_copy a = record {
    subject = "🔑 Presale open now: " <> a.event_name;
    lines =
        ((presale_name a.earliest_presale_name
            <> " for **"
            <> a.event_name
            <> "** is open right now — ahead of the general public.")
          ∷ "Presales often need a code, a fan-club membership, or a specific credit card. If you don't have access, you can still wait for the public sale."
          ∷ [])
        ++ public_line a.public_onsale_start a.onsale_tbd;
    show_resale_note = true;
  }

  abbrev pub on_sale_copy : Alert → Copy
  on_sale_copy a = record {
    subject = "🎟\u{fe0f} On sale now: " <> a.event_name;
    lines =
        ("Tickets for **" <> a.event_name <> "** are on sale to the general public right now.")
        ∷ "Popular events can sell out quickly, so it's worth going straight to the event page."
        ∷ [];
    show_resale_note = false;
  }

  abbrev pub sale_closed_copy : Alert → Copy
  sale_closed_copy a = record {
    subject = "⏰ Official sale closed: " <> a.event_name;
    lines =
        ("The official Ticketmaster sale for **" <> a.event_name <> "** has closed.")
        ∷ "**Resale tickets may still be available.** Open the event page below to check for Verified Resale listings from other fans — those are sold separately from the official sale and often stay available right up to the event."
        ∷ "We can't see resale listings, so this is the one case worth checking manually."
        ∷ [];
    show_resale_note = false;
  }

  abbrev pub cancelled_copy : Alert → Copy
  cancelled_copy a = record {
    subject = "❌ Cancelled: " <> a.event_name;
    lines =
        ("**" <> a.event_name <> "** has been cancelled by the organiser.")
        ∷ "If you already bought tickets, refunds are handled by Ticketmaster — check the event page or your Ticketmaster account for details."
        ∷ "We've stopped watching this event, since nothing further will happen."
        ∷ [];
    show_resale_note = false;
  }

  abbrev pub rescheduled_copy : Alert → Copy
  rescheduled_copy a = record {
    subject = "🔄 Date changed: " <> a.event_name;
    lines =
        ("**" <> a.event_name <> "** has been postponed or rescheduled.")
        ∷ "Existing tickets are usually still valid for the new date, but check the event page to confirm — and to see the new date if it's been announced."
        ∷ "Your watch is still active, so we'll keep watching it for you."
        ∷ [];
    show_resale_note = false;
  }

  -- renderMilestone: `none` for a kind that has no copy.
  unfoldable pub render_milestone : Alert → Option Copy
  render_milestone a =
      if str_eq a.kind "onsale_announced"
      then some (onsale_announced_copy a)
      else if str_eq a.kind "presale_open"
      then some (presale_open_copy a)
      else if str_eq a.kind "public_open" || str_eq a.kind "status_onsale"
      then some (on_sale_copy a)
      else if str_eq a.kind "sale_closed"
      then some (sale_closed_copy a)
      else if str_eq a.kind "cancelled"
      then some (cancelled_copy a)
      else if str_eq a.kind "rescheduled"
      then some (rescheduled_copy a)
      else none

-- ctaLabel
abbrev pub cta_label : String → String
cta_label kind =
    if str_eq kind "presale_open"
    then "Open the presale on Ticketmaster"
    else if str_eq kind "public_open" || str_eq kind "status_onsale"
    then "Buy tickets on Ticketmaster"
    else if str_eq kind "sale_closed"
    then "Check for resale tickets on Ticketmaster"
    else if str_eq kind "cancelled" || str_eq kind "rescheduled"
    then "See the event page on Ticketmaster"
    else "View on Ticketmaster"

abbrev pub text_lines : List String → String
text_lines [] = ""
text_lines (l ∷ ls) = plain l <> "\n\n" <> text_lines ls

abbrev pub html_lines : List String → String
html_lines [] = ""
html_lines (l ∷ ls) = "<p>" <> html_line l <> "</p>" <> html_lines ls

abbrev pub venue_suffix : Alert → String
venue_suffix a = unless_empty a.venue (" @ " <> a.venue)

-- buildBodies, the text part
abbrev pub text_body_of : Alert → Copy → String
text_body_of a c =
    plain a.event_name
    <> venue_suffix a
    <> "\n\n"
    <> text_lines c.lines
    <> (if c.show_resale_note then resale_note <> "\n\n" else "")
    <> unless_empty a.event_url (cta_label a.kind <> ": " <> a.event_url <> "\n")

-- buildBodies, the HTML part
abbrev pub html_body_of : Alert → Copy → String
html_body_of a c =
    "<h2>"
    <> html_line (a.event_name <> venue_suffix a)
    <> "</h2>"
    <> html_lines c.lines
    <> (if c.show_resale_note
        then "<p style=\"color:#666;font-size:13px\">" <> html_line resale_note <> "</p>"
        else "")
    <> unless_empty a.event_url (
        "<p><a href=\""
        <> escape_string a.event_url
        <> "\">"
        <> escape_string (cta_label a.kind)
        <> " →</a></p>")

abbrev pub text_footer : String → String
text_footer url = "\n—\nStop receiving these alerts: " <> url <> "\n"

abbrev pub html_footer : String → String
html_footer url =
    "<hr><p style=\"color:#666;font-size:12px\">You're receiving this because you set a watch on this event. <a href=\""
    <> escape_string url
    <> "\">Unsubscribe from all alerts</a>.</p>"

abbrev pub opt_out_headers : String → List (String × String)
opt_out_headers url =
    ("List-Unsubscribe", "<" <> url <> ">")
    ∷ ("List-Unsubscribe-Post", "List-Unsubscribe=One-Click")
    ∷ []

-- The rest of `render`, once there is copy.
abbrev pub message_of : Alert → Copy → Message
message_of a c = record {
  to = a.to_email;
  subject = c.subject;
  html_body = html_body_of a c <> unless_empty a.unsubscribe_url (html_footer a.unsubscribe_url);
  text_body = text_body_of a c <> unless_empty a.unsubscribe_url (text_footer a.unsubscribe_url);
  headers = if str_eq a.unsubscribe_url "" then [] else opt_out_headers a.unsubscribe_url;
}

-- render
unfoldable pub render : Formats → Alert → Option Message
unfolding render_milestone
render f a = elim (render_milestone f a) [ none ↦ none | some c ↦ some (message_of a c) ]
