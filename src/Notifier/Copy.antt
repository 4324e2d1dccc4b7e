-- ===== src/Notifier/Copy.antt =====
-- What has copy, and what the message of an alert carries.
use ticket_watcher.Prelude.{
  ◌≡◌, refl, sym, ◌↔◌, inl, inr, Bool, true, false, Bool-cases, ◌||◌, Option, none, some, str_eq,
  str_eq_iff, if◌then◌else◌, arith,
}
use ticket_watcher.Evaluator.{
  Kind, kind_text, cancelled, rescheduled, onsale_announced, presale_open, public_open,
  status_onsale, sale_closed,
}
use ticket_watcher.World.{Alert, Message}
use ticket_watcher.Notifier.Render.{
  Formats, Copy, render_milestone, render, message_of, opt_out_headers,
}

abbrev pub is_rendered : Option Message → Bool
is_rendered none = false
is_rendered (some m) = true

abbrev has_copy : Option Copy → Bool
has_copy none = false
has_copy (some c) = true

is_rendered-render :
    (f : Formats) (a : Alert) → is_rendered (render f a) ≡ has_copy (render_milestone f a)
unfolding render
is_rendered-render f a = by_copy (render_milestone f a)
  where
    by_copy :
        (c : Option Copy)
        → is_rendered (elim c [ none ↦ none | some c ↦ some (message_of a c) ]) ≡ has_copy c
    by_copy none = refl
    by_copy (some c) = refl

module _ (f : Formats) (a : Alert) where
  has_copy-kind : (k : Kind) → a.kind ≡ kind_text k → has_copy (render_milestone f a) ≡ true
  unfolding render_milestone
  has_copy-kind cancelled e = rw e refl
  has_copy-kind rescheduled e = rw e refl
  has_copy-kind onsale_announced e = rw e refl
  has_copy-kind presale_open e = rw e refl
  has_copy-kind public_open e = rw e refl
  has_copy-kind status_onsale e = rw e refl
  has_copy-kind sale_closed e = rw e refl

  abbrev IsKindText : Type 0
  IsKindText = (k : Kind) × (a.kind ≡ kind_text k)

  -- One test of the switch: it passes, or the next test decides.
  has_copy-if :
      (b : Bool) (c : Copy) (rest : Option Copy)
      → (b ≡ true → IsKindText)
      → (has_copy rest ≡ true → IsKindText)
      → has_copy (if b then some c else rest) ≡ true
      → IsKindText
  has_copy-if true c rest this next h = this refl
  has_copy-if false c rest this next h = next h

  is_text : (k : Kind) → str_eq a.kind (kind_text k) ≡ true → IsKindText
  is_text k e = (k, (str_eq_iff a.kind (kind_text k)).0 e)

  -- Two kinds share their copy.
  is_either :
      (j k : Kind)
      → (str_eq a.kind (kind_text j) || str_eq a.kind (kind_text k)) ≡ true
      → IsKindText
  is_either j k e = elim (Bool-cases (str_eq a.kind (kind_text j))) [
    | inl first ↦ is_text j first
    | inr other ↦ is_text k (ground (arith, other, e))
  ]

  kind_of-has_copy : has_copy (render_milestone f a) ≡ true → IsKindText
  unfolding render_milestone
  kind_of-has_copy = has_copy-if _ _ _ (is_text onsale_announced) (
      has_copy-if _ _ _ (is_text presale_open) (
        has_copy-if _ _ _ (is_either public_open status_onsale) (
          has_copy-if _ _ _ (is_text sale_closed) (
            has_copy-if _ _ _ (is_text cancelled)
              (has_copy-if _ _ _ (is_text rescheduled) (λ h. ground (arith, h)))))))

-- An alert is rendered if, and only if, its kind is the text of one of the evaluator's kinds: no
-- milestone goes without its copy, and nothing else is mailed.
pub render-ok_iff :
    (f : Formats) (a : Alert)
    → (is_rendered (render f a) ≡ true) ↔ ((k : Kind) × (a.kind ≡ kind_text k))
render-ok_iff f a =
    rw (is_rendered-render f a) (kind_of-has_copy f a, λ k. has_copy-kind f a k.0 k.1)

message_of-lem :
    (a : Alert) (c : Option Copy) (m : Message)
    → elim c [ none ↦ none | some c ↦ some (message_of a c) ] ≡ some m
    → (m.to ≡ a.to_email)
      × (str_eq a.unsubscribe_url "" ≡ false → m.headers ≡ opt_out_headers a.unsubscribe_url)
message_of-lem a none m h = ground (arith, h)
message_of-lem a (some c) m h =
    let same : message_of a c ≡ m = cc in rw (sym same) (refl, λ e. rw e refl)

-- The message goes to the alert's address, and when the alert has an opt-out link, the message has
-- both headers of a one-click opt-out by that link.
pub render-opt_out :
    (f : Formats) (a : Alert) (m : Message)
    → render f a ≡ some m
    → (m.to ≡ a.to_email)
      × (str_eq a.unsubscribe_url "" ≡ false → m.headers ≡ opt_out_headers a.unsubscribe_url)
unfolding render
render-opt_out f a m h = message_of-lem a (render_milestone f a) m h
