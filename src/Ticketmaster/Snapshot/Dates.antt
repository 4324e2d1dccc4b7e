-- ===== src/Ticketmaster/Snapshot/Dates.antt =====
-- The dates of a snapshot: the sentinel of an unannounced sale never gets through, and the presale is
-- the earliest.
use ticket_watcher.Prelude.{
  ◌≡◌, ◌<◌, refl, arith, leb, Bool, true, false, ◌||◌, Bool-cases, Option, none, some, List, [],
  ◌∷◌, String, str_eq, inl, inr, if◌then◌else◌,
}
use ticket_watcher.Prelude.Instant.{Instant, before}
use ticket_watcher.Ticketmaster.Types.{TmPublicSale, TmPresale, TmEvent}
use ticket_watcher.Ticketmaster.Snapshot.{
  Calendar, sentinel_year, announced, parse_sale_time, earlier, consider, earliest_presale,
  public_start_of, unless_tbd, to_snapshot,
}

module _ (c : Calendar) where
  -- A time whose year is not the sentinel's.
  abbrev pub IsAnnounced : Option Instant → Type 0
  IsAnnounced none = Unit
  IsAnnounced (some t) = c.year t < sentinel_year

  announced-IsAnnounced : (o : Option Instant) → IsAnnounced (announced c o).0
  announced-IsAnnounced none = tt
  announced-IsAnnounced (some t) = elim (Bool-cases (leb sentinel_year (c.year t))) [
    | inl e ↦ rw e tt
    | inr e ↦ rw e (ground arith)
  ]

  parse_sale_time-IsAnnounced : (v : String) → IsAnnounced (parse_sale_time c v).0
  unfolding parse_sale_time
  parse_sale_time-IsAnnounced v = elim (Bool-cases (str_eq v "")) [
    | inl e ↦ rw e tt
    | inr e ↦ rw e (announced-IsAnnounced (c.parse_rfc3339 v))
  ]

  -- What every presale's time lets through.
  abbrev presale_time : TmPresale → Option Instant × Bool
  presale_time p = parse_sale_time c p.start_date_time

  earlier-IsAnnounced :
      (p : TmPresale) (t : Option Instant) (e : Option Instant × String)
      → IsAnnounced t
      → IsAnnounced e.0
      → IsAnnounced (earlier c p t e).0
  earlier-IsAnnounced p none e ht he = he
  earlier-IsAnnounced p (some t) (none, name) ht he = ht
  earlier-IsAnnounced p (some t) (some e, name) ht he = elim (Bool-cases (before t e)) [
    | inl b ↦ rw b ht
    | inr b ↦ rw b he
  ]

  consider-IsAnnounced :
      (p : TmPresale) (t : Option Instant × Bool) (e : Option Instant × String)
      → IsAnnounced t.0
      → IsAnnounced e.0
      → IsAnnounced (consider c p t e).0
  consider-IsAnnounced p (t, true) e ht he = he
  consider-IsAnnounced p (t, false) e ht he = earlier-IsAnnounced p t e ht he

  earliest_presale-IsAnnounced :
      (ps : List TmPresale) (e : Option Instant × String)
      → IsAnnounced e.0
      → IsAnnounced (earliest_presale c ps e).0
  unfolding earliest_presale
  earliest_presale-IsAnnounced [] e he = he
  earliest_presale-IsAnnounced (p ∷ ps) e he =
      earliest_presale-IsAnnounced ps _ (
        consider-IsAnnounced p (presale_time p) e (parse_sale_time-IsAnnounced p.start_date_time)
          he)

  unless_tbd-IsAnnounced :
      (t : Option Instant × Bool) → IsAnnounced t.0 → IsAnnounced (unless_tbd c t)
  unless_tbd-IsAnnounced (t, true) h = tt
  unless_tbd-IsAnnounced (t, false) h = h

  -- The public start that is known, and none when it is to be announced.
  abbrev IsSettled : Option Instant × Bool → Type 0
  IsSettled s = IsAnnounced s.0 × (s.1 ≡ true → s.0 ≡ none)

  public_start_of-IsSettled :
      (s : TmPublicSale) (t : Option Instant × Bool)
      → IsAnnounced t.0
      → IsSettled (public_start_of c s t)
  public_start_of-IsSettled s (t, tbd) h = by_tests (s.start_tbd || s.start_tba) tbd
    where
      by_tests :
          (told tbd : Bool)
          → IsSettled (if told then (none, true) else if tbd then (none, true) else (t, false))
      by_tests true tbd = (tt, λ e. refl)
      by_tests false true = (tt, λ e. refl)
      by_tests false false = (h, λ e. ground (arith, e))

-- Whatever the API answers, no date of the sale calendar is in the sentinel's year, so a sale that is
-- not announced has no date, and a snapshot that says the public sale is to be announced has no public
-- start.
pub to_snapshot-IsAnnounced :
    (c : Calendar) (e : TmEvent)
    → let s = to_snapshot c e in
      IsAnnounced c s.public_onsale_start
      × IsAnnounced c s.public_onsale_end
      × IsAnnounced c s.earliest_presale_start
      × (s.onsale_tbd ≡ true → s.public_onsale_start ≡ none)
unfolding to_snapshot
to_snapshot-IsAnnounced c e =
    let start = parse_sale_time-IsAnnounced c e.public.start_date_time in
    let settled =
      public_start_of-IsSettled c e.public (parse_sale_time c e.public.start_date_time) start in
    (
      settled.0,
      unless_tbd-IsAnnounced c _ (parse_sale_time-IsAnnounced c e.public.end_date_time),
      earliest_presale-IsAnnounced c e.presales (none, "") tt,
      settled.1,
    )
