-- ===== src/Store/Owners.antt =====
-- Who may be mailed about a watch, and the statements that leave that alone.
use ticket_watcher.Prelude.{
  Bool-cases, ℕ, ◌≡◌, Bool, true, false, not, ◌&&◌, Option, none, some, List, [], ◌∷◌, map, String,
  str_eq, ◌==◌, any, select, arith, All, str_eq_self, inl, inr, All-append, All-mono,
}
use ticket_watcher.Store.Models.{User, Watch}
use ticket_watcher.Store.Watches.{
  joined_row, join_users, ListActiveWatchesForEventRow, is_active_on,
}

-- The watch belongs to the user.
abbrev pub owns : ℕ → ℕ → List Watch → Bool
owns id user_id = any (λ (w : Watch). w.id == id && w.user_id == user_id)

abbrev pub is_set : Option ℕ → Bool
is_set none = false
is_set (some t) = true

-- The address is that of an owner of the watch, who has confirmed it and has not opted out.
abbrev pub is_recipient : ℕ → String → List Watch → User → Bool
is_recipient id email watches u =
    owns id u.id watches
    && str_eq u.email email
    && is_set u.email_verified_at
    && not (is_set u.unsubscribed_at)

abbrev pub may_mail : ℕ → String → List Watch → List User → Bool
may_mail id email watches users = any (is_recipient id email watches) users

-- A joined row that passes both gates names a recipient.
abbrev pub IsMailable : List Watch → List User → ListActiveWatchesForEventRow → Type 0
IsMailable watches users row =
    is_set row.email_verified_at ≡ true
    → is_set row.unsubscribed_at ≡ false
    → may_mail row.id row.user_email watches users ≡ true

IsMailable-cons :
    (watches : List Watch) (u : User) (users : List User) (row : ListActiveWatchesForEventRow)
    → IsMailable watches users row
    → IsMailable watches (u ∷ users) row
IsMailable-cons watches u users row h v s = ground (arith, h v s)

joined_row-IsMailable :
    (watches : List Watch) (w : Watch) (u : User) (us : List User)
    → owns w.id w.user_id watches ≡ true
    → (u.id == w.user_id) ≡ true
    → IsMailable watches (u ∷ us) (joined_row w u)
joined_row-IsMailable watches w u us o same v s =
    let e : u.id ≡ w.user_id = ground arith in
    let o' : owns w.id u.id watches ≡ true = rw e o in ground (arith, str_eq_self u.email)

-- The rows of one watch.
joined-IsMailable :
    (watches : List Watch) (w : Watch) (us : List User)
    → owns w.id w.user_id watches ≡ true
    → All (IsMailable watches us) (map (joined_row w) (select (λ (u : User). u.id == w.user_id) us))
joined-IsMailable watches w [] o = tt
joined-IsMailable watches w (u ∷ us) o =
    let rest =
      All-mono (IsMailable watches us) (IsMailable watches (u ∷ us)) _
        (IsMailable-cons watches u us) (joined-IsMailable watches w us o) in
    elim (Bool-cases (u.id == w.user_id)) [
      | inl mine ↦ rw mine (joined_row-IsMailable watches w u us o mine, rest)
      | inr other ↦ rw other rest
    ]

-- Every watch of a list is in the table, with its owner.
abbrev pub AllOwned : List Watch → List Watch → Type 0
AllOwned watches = All λ (w : Watch). owns w.id w.user_id watches ≡ true

owns-cons :
    (w : Watch) (ws : List Watch) (v : Watch)
    → owns v.id v.user_id ws ≡ true
    → owns v.id v.user_id (w ∷ ws) ≡ true
owns-cons w ws v h = ground (arith, h)

select-AllOwned : (p : Watch → Bool) (ws : List Watch) → AllOwned ws (select p ws)
select-AllOwned p [] = tt
select-AllOwned p (w ∷ ws) =
    let rest =
      All-mono (λ (v : Watch). owns v.id v.user_id ws ≡ true)
        (λ (v : Watch). owns v.id v.user_id (w ∷ ws) ≡ true) (select p ws) (owns-cons w ws)
        (select-AllOwned p ws) in
    elim (Bool-cases (p w)) [ inl take ↦ rw take (ground arith, rest) | inr skip ↦ rw skip rest ]

join_users-IsMailable :
    (watches : List Watch) (users : List User) (ws : List Watch)
    → AllOwned watches ws
    → All (IsMailable watches users) (join_users users ws)
unfolding join_users
join_users-IsMailable watches users [] h = tt
join_users-IsMailable watches users (w ∷ ws) h =
    All-append (IsMailable watches users) _ _ (joined-IsMailable watches w users h.0)
      (join_users-IsMailable watches users ws h.1)

-- What the workers read: a row that passes both gates names a recipient of its watch.
pub list_active_watches_for_event-IsMailable :
    (event_id : ℕ) (users : List User) (ws : List Watch)
    → All (IsMailable ws users) (join_users users (select (is_active_on event_id) ws))
list_active_watches_for_event-IsMailable event_id users ws =
    join_users-IsMailable ws users _ (select-AllOwned (is_active_on event_id) ws)
