-- ===== src/Prelude/Lists.antt =====
-- Lists measured by native numbers, and filtered and searched by Boolean tests.
use Prim.Native.Nat.{ℕ, zero, suc, ◌+◌, ◌≤◌}
use mathlib.Core.Path.{ap, ◌≡◌, refl}
use mathlib.Core.Bool.{◌&&◌, not, Bool, true, false, ◌||◌}
use mathlib.Core.List.{List, [], ◌∷◌, ◌++◌}
use mathlib.Core.Option.{Option, none, some}
use native.Mathlib.Omega.{arith}
use ticket_watcher.Prelude.Tests.{if◌then◌else◌}

module _ {ℓ} {A : Type ℓ} where
  abbrev pub length : List A → ℕ
  length [] = 0
  length (x ∷ xs) = suc (length xs)

  abbrev pub take : ℕ → List A → List A
  take zero xs = []
  take (suc n) [] = []
  take (suc n) (x ∷ xs) = x ∷ take n xs

  -- The members that pass a test, in order.
  abbrev pub select : (A → Bool) → List A → List A
  select p [] = []
  select p (x ∷ xs) = let rest = select p xs in if p x then x ∷ rest else rest

  -- The first member that passes a test.
  abbrev pub find? : (A → Bool) → List A → Option A
  find? p [] = none
  find? p (x ∷ xs) = let rest = find? p xs in if p x then some x else rest

  abbrev pub any : (A → Bool) → List A → Bool
  any p [] = false
  any p (x ∷ xs) = p x || any p xs

  -- How many members pass a test.
  abbrev pub count : (A → Bool) → List A → ℕ
  count p [] = 0
  count p (x ∷ xs) = (if p x then 1 else 0) + count p xs

  -- Applies an update to the members that pass a test.
  abbrev pub update_where : (A → Bool) → (A → A) → List A → List A
  update_where p f [] = []
  update_where p f (x ∷ xs) = (if p x then f x else x) ∷ update_where p f xs

  pub length-append : (xs ys : List A) → length (xs ++ ys) ≡ length xs + length ys
  length-append [] ys = omega arith
  length-append (x ∷ xs) ys = omega (arith, length-append xs ys)

  pub length-take-le : (n : ℕ) (xs : List A) → length (take n xs) ≤ n
  length-take-le zero xs = omega arith
  length-take-le (suc n) [] = omega arith
  length-take-le (suc n) (x ∷ xs) = omega (arith, length-take-le n xs)

  pub count-append : (p : A → Bool) (xs ys : List A) → count p (xs ++ ys) ≡ count p xs + count p ys
  count-append p [] ys = omega arith
  count-append p (x ∷ xs) ys = omega (arith, count-append p xs ys)

  pub count-le-length : (p : A → Bool) (xs : List A) → count p xs ≤ length xs
  count-le-length p [] = omega arith
  count-le-length p (x ∷ xs) = ground (arith, count-le-length p xs)

  pub any-append : (p : A → Bool) (xs ys : List A) → any p (xs ++ ys) ≡ (any p xs || any p ys)
  any-append p [] ys = refl
  any-append p (x ∷ xs) ys = ground (arith, any-append p xs ys)

  pub count-update_where :
      (p q : A → Bool) (f : A → A) (xs : List A)
      → ((x : A) → p (f x) ≡ p x)
      → count p (update_where q f xs) ≡ count p xs
  count-update_where p q f [] h = refl
  count-update_where p q f (x ∷ xs) h = ground (arith, h x, count-update_where p q f xs h)

  pub count-update_where-le :
      (p q : A → Bool) (f : A → A) (xs : List A)
      → ((x : A) → p (f x) ≡ true → p x ≡ true)
      → count p (update_where q f xs) ≤ count p xs
  count-update_where-le p q f [] h = omega arith
  count-update_where-le p q f (x ∷ xs) h = ground (arith, h x, count-update_where-le p q f xs h)

  pub count-select-le : (p q : A → Bool) (xs : List A) → count p (select q xs) ≤ count p xs
  count-select-le p q [] = omega arith
  count-select-le p q (x ∷ xs) = ground (arith, count-select-le p q xs)

  pub any-select : (p q : A → Bool) (xs : List A) → any p xs ≡ false → any p (select q xs) ≡ false
  any-select p q [] h = refl
  any-select p q (x ∷ xs) h = ground (arith, h, any-select p q xs)

  pub any-select-not : (p : A → Bool) (xs : List A) → any p (select (λ x. not (p x)) xs) ≡ false
  any-select-not p [] = refl
  any-select-not p (x ∷ xs) = ground (arith, any-select-not p xs)

  pub count-eq_zero : (p : A → Bool) (xs : List A) → any p xs ≡ false → count p xs ≡ 0
  count-eq_zero p [] h = refl
  count-eq_zero p (x ∷ xs) h = ground (arith, count-eq_zero p xs)

  pub count_mono :
      (p q : A → Bool) (xs : List A) → ((x : A) → p x ≡ true → q x ≡ true) → count p xs ≤ count q xs
  count_mono p q [] h = omega arith
  count_mono p q (x ∷ xs) h = ground (arith, h x, count_mono p q xs h)

  pub find?-holds : (p : A → Bool) (xs : List A) (x : A) → find? p xs ≡ some x → p x ≡ true
  find?-holds p [] x e = ground (arith, e)
  find?-holds p (y ∷ ys) x e = ground (arith, e, find?-holds p ys x)

  first_passes :
      (p q : A → Bool) (y : A) (ys : List A) (x : A) (b : Bool)
      → p y ≡ b
      → (if b then some y else find? p ys) ≡ some x
      → q x ≡ true
      → (find? p ys ≡ some x → any (λ z. p z && q z) ys ≡ true)
      → ((b && q y) || any (λ z. p z && q z) ys) ≡ true
  first_passes p q y ys x true r e h rest = let same : y ≡ x = cc in ground (arith, ap q same, h)
  first_passes p q y ys x false r e h rest = rest e

  -- The first member that passes one test passes another, too.
  pub any-find? :
      (p q : A → Bool) (xs : List A) (x : A)
      → find? p xs ≡ some x
      → q x ≡ true
      → any (λ y. p y && q y) xs ≡ true
  any-find? p q [] x e h = ground (arith, e)
  any-find? p q (y ∷ ys) x e h =
      first_passes p q y ys x (p y) refl e h (λ rest. any-find? p q ys x rest h)

  pub find?-count : (p : A → Bool) (xs : List A) (x : A) → find? p xs ≡ some x → 1 ≤ count p xs
  find?-count p [] x e = ground (arith, e)
  find?-count p (y ∷ ys) x e = ground (arith, e, find?-count p ys x)

-- Every member has the property: a tuple of proofs.
abbrev pub All {ℓ κ} : {A : Type ℓ} → (A → Type κ) → List A → Type κ
All P [] = Unit
All P (x ∷ xs) = P x × All P xs

pub All-append {ℓ κ} :
    {A : Type ℓ} (P : A → Type κ) (xs ys : List A) → All P xs → All P ys → All P (xs ++ ys)
All-append P [] ys hx hy = hy
All-append P (x ∷ xs) ys hx hy = (hx.0, All-append P xs ys hx.1 hy)

pub All-mono {ℓ κ μ} :
    {A : Type ℓ} (P : A → Type κ) (Q : A → Type μ) (xs : List A)
    → ((x : A) → P x → Q x)
    → All P xs
    → All Q xs
All-mono P Q [] f h = tt
All-mono P Q (x ∷ xs) f h = (f x h.0, All-mono P Q xs f h.1)
