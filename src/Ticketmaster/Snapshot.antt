-- ===== src/Ticketmaster/Snapshot.antt =====
-- internal/ticketmaster/client.go, from the API's answer to a snapshot: `toSnapshot`,
-- `parseSaleTime`, `normalizeStatus` and `parseSearchResponse`. Parsing a time, a time's year and
-- decoding JSON are Go's, and arguments.
pub mod Dates
pub mod Earliest
use ticket_watcher.Prelude.{
  ℕ, leb, Bool, true, false, ◌||◌, Option, none, some, List, [], ◌∷◌, map, length, String, str_eq,
  if◌then◌else◌,
}
use ticket_watcher.Prelude.Instant.{Instant, before}
use ticket_watcher.Prelude.Outcome.{Outcome, ok, err, map_err}
use ticket_watcher.Ticketmaster.Types.{EventSnapshot, TmPublicSale, TmPresale, TmEvent}

-- `time.Parse(time.RFC3339, v)`, and `t.Year()`. The year is that of the instant, because the client's
-- times are in UTC.
pub record Calendar : Type 0 where
  pub parse_rfc3339 : String → Option Instant
  pub year : Instant → ℕ

abbrev pub sentinel_year : ℕ
sentinel_year = 9999

abbrev pub normalize_status : String → String
normalize_status code = if str_eq code "" then "unknown" else code

abbrev pub first_venue : List String → String
first_venue [] = ""
first_venue (v ∷ vs) = v

module _ (c : Calendar) where
  -- A parsed time: the sentinel stands for "not announced".
  abbrev pub announced : Option Instant → Option Instant × Bool
  announced none = (none, false)
  announced (some t) = if leb sentinel_year (c.year t) then (none, true) else (some t, false)

  -- parseSaleTime
  unfoldable pub parse_sale_time : String → Option Instant × Bool
  parse_sale_time v = if str_eq v "" then (none, false) else announced (c.parse_rfc3339 v)

  -- The date and the name so far.
  abbrev pub Earliest : Type 0
  Earliest = Option Instant × String

  -- The body of the loop over the presales, for a presale's time.
  abbrev pub earlier : TmPresale → Option Instant → Earliest → Earliest
  earlier p none so_far = so_far
  earlier p (some t) (none, name) = (some t, p.name)
  earlier p (some t) (some e, name) = if before t e then (some t, p.name) else (some e, name)

  -- `if tbd || t == nil { continue }`
  abbrev pub consider : TmPresale → Option Instant × Bool → Earliest → Earliest
  consider p (t, true) so_far = so_far
  consider p (t, false) so_far = earlier p t so_far

  unfoldable pub earliest_presale : List TmPresale → Earliest → Earliest
  unfolding parse_sale_time
  earliest_presale [] so_far = so_far
  earliest_presale (p ∷ ps) so_far =
      earliest_presale ps (consider p (parse_sale_time p.start_date_time) so_far)

  -- The public start: none when it is to be announced.
  abbrev pub public_start_of : TmPublicSale → Option Instant × Bool → Option Instant × Bool
  public_start_of s (t, tbd) =
      if s.start_tbd || s.start_tba then (none, true) else if tbd then (none, true) else (t, false)

  abbrev pub unless_tbd : Option Instant × Bool → Option Instant
  unless_tbd (t, true) = none
  unless_tbd (t, false) = t

  -- toSnapshot
  unfoldable pub to_snapshot : TmEvent → EventSnapshot
  unfolding earliest_presale
  to_snapshot e =
      let start = public_start_of e.public (parse_sale_time e.public.start_date_time) in
      let presale = earliest_presale e.presales (none, "") in
      record {
        tm_event_id = e.id;
        name = e.name;
        url = e.url;
        venue = first_venue e.venues;
        event_date =
            if str_eq e.start_date_time "" then none else c.parse_rfc3339 e.start_date_time;
        availability = normalize_status e.status_code;
        public_onsale_start = start.0;
        public_onsale_end = unless_tbd (parse_sale_time e.public.end_date_time);
        onsale_tbd = start.1;
        earliest_presale_start = presale.0;
        earliest_presale_name = presale.1;
        presale_count = length e.presales;
      }

  -- parseSearchResponse, over the decoding of the answer
  abbrev pub parse_search_response :
      (String → Outcome String (List TmEvent)) → String → Outcome String (List EventSnapshot)
  parse_search_response decode body = elim (decode body) [
    | ok es ↦ ok (map to_snapshot es)
    | err e ↦ err e
  ]
