-- ===== src/Scheduler/Due.antt =====
-- What a tick sends: events that are due, in their order, no more than the budget.
use ticket_watcher.Prelude.{
  ℕ, zero, suc, ◌≤◌, ◌≡◌, refl, Bool, true, false, ◌&&◌, List, [], ◌∷◌, leb, ◌==◌, length, take,
  select, any, length-take-le, All, All-mono, arith, Bool-cases, inl, inr, if◌then◌else◌,
}
use ticket_watcher.Prelude.Int.{ℤ, pos, negsuc, pos_part}
use ticket_watcher.Prelude.Instant.{Instant}
use ticket_watcher.Prelude.Outcome.{ok}
use ticket_watcher.Store.Models.{Event, Db}
use ticket_watcher.Store.Events.{is_due, list_due_events}
use ticket_watcher.Scheduler.{list_due, enqueue, Select, sends, to_int32}
use ticket_watcher.Prelude.Sort.{insert_by, sort_by}

module _ {ℓ} {A : Type ℓ} (P : A → Type 0) where
  insert_by-All :
      (le : A → A → Bool) (x : A) (xs : List A) → P x → All P xs → All P (insert_by le x xs)
  unfolding insert_by
  insert_by-All le x [] p h = (p, tt)
  insert_by-All le x (y ∷ ys) p h = elim (Bool-cases (le x y)) [
    | inl holds ↦ rw holds (p, h)
    | inr fails ↦ rw fails (h.0, insert_by-All le x ys p h.1)
  ]

  sort_by-All : (le : A → A → Bool) (xs : List A) → All P xs → All P (sort_by le xs)
  unfolding sort_by
  sort_by-All le [] h = tt
  sort_by-All le (x ∷ xs) h = insert_by-All le x _ h.0 (sort_by-All le xs h.1)

  take-All : (n : ℕ) (xs : List A) → All P xs → All P (take n xs)
  take-All zero xs h = tt
  take-All (suc n) [] h = tt
  take-All (suc n) (x ∷ xs) h = (h.0, take-All n xs h.1)

All-cons_if {ℓ} :
    {A : Type ℓ} (P : A → Type 0) (b : Bool) (x : A) (xs : List A)
    → (b ≡ true → P x)
    → All P xs
    → All P (if b then x ∷ xs else xs)
All-cons_if P true x xs p h = (p refl, h)
All-cons_if P false x xs p h = h

-- What is selected is in the list, and passes.
select-any {ℓ} :
    {A : Type ℓ} (p : A → Bool) (same : A → A → Bool) (xs : List A)
    → ((x : A) → same x x ≡ true)
    → All (λ x. any (λ y. same y x && p y) xs ≡ true) (select p xs)
select-any p same [] r = tt
select-any p same (x ∷ xs) r =
    All-cons_if (λ z. any (λ y. same y z && p y) (x ∷ xs) ≡ true) (p x) x (select p xs)
      (λ h. ground (arith, r x, h))
      (All-mono (λ z. any (λ y. same y z && p y) xs ≡ true)
        (λ z. any (λ y. same y z && p y) (x ∷ xs) ≡ true) (select p xs) (λ z h. ground (arith, h))
        (select-any p same xs r))

-- An event of the table has the id, and is due at the instant and actively watched.
abbrev pub IsDueId : Instant → Db → ℕ → Type 0
IsDueId now db i =
    any (λ (e : Event). e.id == i && is_due now db.watches.rows e) db.events.rows ≡ true

abbrev by_next_poll : Event → Event → Bool
by_next_poll a b = leb a.next_poll_at b.next_poll_at

pub list_due-due :
    (limit : ℤ) (now : Instant) (db : Db) (events : List Event)
    → (list_due limit now db).0 ≡ ok events
    → All (λ (e : Event). IsDueId now db e.id) events × (length events ≤ pos_part limit)
unfolding list_due list_due_events
list_due-due (pos limit) now db events e =
    let P : Event → Type 0 = λ e. IsDueId now db e.id in
    let due = select (is_due now db.watches.rows) db.events.rows in
    let same : take limit (sort_by by_next_poll due) ≡ events = ground arith in
    rw⁻¹ same (
      take-All P limit _ (
          sort_by-All P by_next_poll due (
            select-any (is_due now db.watches.rows) (λ (a b : Event). a.id == b.id) db.events.rows
              (λ a. ground arith))),
      length-take-le limit _,
    )
list_due-due (negsuc n) now db events e = ground arith

pub enqueue-All :
    (P : ℕ → Type 0) (env : ℕ → Select) (i : ℕ) (es : List Event)
    → All (λ (e : Event). P e.id) es
    → All P (enqueue env i es)
unfolding enqueue
enqueue-All P env i [] h = tt
enqueue-All P env i (e ∷ es) h = elim (Bool-cases (sends (env i))) [
  | inl sent ↦ rw sent (h.0, enqueue-All P env (suc i) es h.1)
  | inr stopped ↦ rw stopped tt
]

pub length-enqueue :
    (env : ℕ → Select) (i : ℕ) (es : List Event) → length (enqueue env i es) ≤ length es
unfolding enqueue
length-enqueue env i [] = ground arith
length-enqueue env i (e ∷ es) = ground (arith, length-enqueue env (suc i) es)

pub to_int32-le : (n : ℕ) → pos_part (to_int32 n) ≤ n
to_int32-le n = ground arith
