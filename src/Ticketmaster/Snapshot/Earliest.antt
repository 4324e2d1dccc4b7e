-- ===== src/Ticketmaster/Snapshot/Earliest.antt =====
-- The presale of a snapshot is the earliest of those that have a date.
use ticket_watcher.Prelude.{
  ap, sym, ◌∙◌, Bool, ◌∙◌, ◌≡◌, ◌≤◌, ◌⊎◌, refl, arith, true, false, Bool-cases, Option, none, some,
  List, [], ◌∷◌, String, All, inl, inr,
}
use ticket_watcher.Prelude.Instant.{Instant, before}
use ticket_watcher.Ticketmaster.Types.{TmEvent, TmPresale}
use ticket_watcher.Ticketmaster.Snapshot.{
  Calendar, parse_sale_time, earlier, consider, earliest_presale, to_snapshot,
}

abbrev pub NoLater : Option Instant → Instant → Type 0
NoLater none u = ⊥
NoLater (some t) u = t ≤ u

module _ (c : Calendar) where
  abbrev pub presale_time : TmPresale → Option Instant × Bool
  presale_time p = parse_sale_time c p.start_date_time

  abbrev SoFar : Type 0
  SoFar = Option Instant × String

  earlier-NoLater_kept :
      (p : TmPresale) (t : Option Instant) (e : Option Instant × String) (u : Instant)
      → NoLater e.0 u
      → NoLater (earlier c p t e).0 u
  earlier-NoLater_kept p none e u h = h
  earlier-NoLater_kept p (some t) (none, name) u h = elim h [ ]
  earlier-NoLater_kept p (some t) (some e, name) u h = elim (Bool-cases (before t e)) [
    | inl b ↦ rw b (ground (arith, b, h))
    | inr b ↦ rw b h
  ]

  consider-NoLater_kept :
      (p : TmPresale) (t : Option Instant × Bool) (e : Option Instant × String) (u : Instant)
      → NoLater e.0 u
      → NoLater (consider c p t e).0 u
  consider-NoLater_kept p (t, true) e u h = h
  consider-NoLater_kept p (t, false) e u h = earlier-NoLater_kept p t e u h

  earliest_presale-NoLater_kept :
      (ps : List TmPresale) (e : Option Instant × String) (u : Instant)
      → NoLater e.0 u
      → NoLater (earliest_presale c ps e).0 u
  unfolding earliest_presale
  earliest_presale-NoLater_kept [] e u h = h
  earliest_presale-NoLater_kept (p ∷ ps) e u h =
      earliest_presale-NoLater_kept ps _ u (consider-NoLater_kept p (presale_time p) e u h)

  earlier-NoLater :
      (p : TmPresale) (u : Instant) (e : Option Instant × String)
      → NoLater (earlier c p (some u) e).0 u
  earlier-NoLater p u (none, name) = ground arith
  earlier-NoLater p u (some e, name) = elim (Bool-cases (before u e)) [
    | inl b ↦ rw b (ground arith)
    | inr b ↦ rw b (ground (arith, b))
  ]

  -- No dated presale starts before the chosen one.
  abbrev pub IsNoLaterThan : Option Instant → TmPresale → Type 0
  IsNoLaterThan t p = (u : Instant) → presale_time p ≡ (some u, false) → NoLater t u

  earliest_presale-IsNoLaterThan :
      (ps : List TmPresale) (e : Option Instant × String)
      → All (IsNoLaterThan (earliest_presale c ps e).0) ps
  unfolding earliest_presale
  earliest_presale-IsNoLaterThan [] e = tt
  earliest_presale-IsNoLaterThan (p ∷ ps) e = (
    λ u h. earliest_presale-NoLater_kept ps _ u (rw h (earlier-NoLater p u e)),
    earliest_presale-IsNoLaterThan ps _,
  )

  -- Some presale has the date and the name.
  abbrev pub IsFrom : Option Instant × String → List TmPresale → Type 0
  IsFrom r [] = ⊥
  IsFrom r (p ∷ ps) = ((presale_time p ≡ (r.0, false)) × (p.name ≡ r.1)) ⊎ IsFrom r ps

  earlier-from :
      (p : TmPresale) (t : Option Instant) (e : Option Instant × String)
      → (earlier c p t e ≡ e) ⊎ (earlier c p t e ≡ (t, p.name))
  earlier-from p none e = inl refl
  earlier-from p (some t) (none, name) = inr refl
  earlier-from p (some t) (some e, name) = elim (Bool-cases (before t e)) [
    | inl b ↦ rw b (inr refl)
    | inr b ↦ rw b (inl refl)
  ]

  consider-from :
      (p : TmPresale) (t : Option Instant × Bool) (e : Option Instant × String)
      → (consider c p t e ≡ e) ⊎ ((t.1 ≡ false) × (consider c p t e ≡ (t.0, p.name)))
  consider-from p (t, true) e = inl refl
  consider-from p (t, false) e = elim (earlier-from p t e) [ inl h ↦ inl h | inr h ↦ inr (refl, h) ]

  chosen-lem :
      (t : Option Instant × Bool) (name : String) (r : Option Instant × String)
      → t.1 ≡ false
      → r ≡ (t.0, name)
      → (t ≡ (r.0, false)) × (name ≡ r.1)
  chosen-lem (t, true) name r e h = ground (arith, e)
  chosen-lem (t, false) name r e h =
      (sym (ap (λ (x : Option Instant × String). (x.0, false)) h), sym (ap (λ x. x.1) h))

  earliest_presale-IsFrom :
      (ps : List TmPresale) (e : Option Instant × String)
      → (earliest_presale c ps e ≡ e) ⊎ IsFrom (earliest_presale c ps e) ps
  unfolding earliest_presale
  earliest_presale-IsFrom [] e = inl refl
  earliest_presale-IsFrom (p ∷ ps) e =
      elim (earliest_presale-IsFrom ps (consider c p (presale_time p) e)) [
        | inr later ↦ inr (inr later)
        | inl same ↦ elim (consider-from p (presale_time p) e) [
          | inl kept ↦ inl (same ∙ kept)
          | inr chosen ↦ inr (
              inl (
                chosen-lem (presale_time p) p.name
                  (earliest_presale c ps (consider c p (presale_time p) e)) chosen.0
                  (same ∙ chosen.1)))
        ]
      ]

dated-lem :
    (c : Calendar) (ps : List TmPresale) (t : Instant) (r : Option Instant × String)
    → (r ≡ (none, "")) ⊎ IsFrom c r ps
    → r.0 ≡ some t
    → IsFrom c r ps
dated-lem c ps t r (inl e) h =
    let undated : none ≡ some t = sym (ap (λ x. x.0) e) ∙ h in ground (arith, undated)
dated-lem c ps t r (inr from) h = from

-- The presale that a snapshot carries is the earliest: when it has a date, that date and that name are
-- one presale's, and no presale with an announced date starts before it; when it has none, no
-- presale has an announced date.
pub to_snapshot-earliest_presale :
    (c : Calendar) (e : TmEvent)
    → let s = to_snapshot c e in
      All (IsNoLaterThan c s.earliest_presale_start) e.presales
      × ((t : Instant)
          → s.earliest_presale_start ≡ some t
          → IsFrom c (s.earliest_presale_start, s.earliest_presale_name) e.presales)
unfolding to_snapshot
to_snapshot-earliest_presale c e = (
  earliest_presale-IsNoLaterThan c e.presales (none, ""),
  λ t h.
      dated-lem c e.presales t (earliest_presale c e.presales (none, ""))
        (earliest_presale-IsFrom c e.presales (none, "")) h,
)
