-- ===== src/Base/Query.antt =====
-- Rows of a table as a list: `query.filter(p).first()`, an update of the row that was found, and
-- sums over the rows that a filter keeps.
use mathlib.Core.Option.{Option, none, some}
use payvorax.Base.Tests.{if◌then◌else◌, Bool-cases}
use mathlib.Core.Logic.{inl, inr}
use mathlib.Core.Path.{ap, subst, ◌≡◌, refl}
use payvorax.Base.Int.{ℤ, pos, ◌+ℤ◌, int_laws}
use Prim.Native.Nat.{ℕ, ◌+◌}
use mathlib.Core.Bool.{Bool, true, false}
use mathlib.Core.List.{List, [], ◌∷◌, ◌++◌}
use native.Mathlib.Omega.{arith}

module _ {ℓ} {A : Type ℓ} where
  abbrev pub find_first : (A → Bool) → List A → Option A
  find_first p [] = none
  find_first p (x ∷ xs) = if p x then some x else find_first p xs

  abbrev pub update_first : (A → Bool) → (A → A) → List A → List A
  update_first p f [] = []
  update_first p f (x ∷ xs) = if p x then f x ∷ xs else x ∷ update_first p f xs

  -- `func.sum(m)` over the rows that satisfy `p`.
  abbrev pub sum_where : (A → Bool) → (A → ℕ) → List A → ℕ
  sum_where p m [] = 0
  sum_where p m (x ∷ xs) = (if p x then m x else 0) + sum_where p m xs

  abbrev pub sum_of : (A → ℤ) → List A → ℤ
  sum_of m [] = pos 0
  sum_of m (x ∷ xs) = m x +ℤ sum_of m xs

  abbrev pub All {κ} : (A → Type κ) → List A → Type κ
  All P [] = Unit
  All P (x ∷ xs) = P x × All P xs

module _ {ℓ} {A : Type ℓ} where
  pub find_first-holds :
      (p : A → Bool) (xs : List A) (x : A) → find_first p xs ≡ some x → p x ≡ true
  find_first-holds p [] x h = cc
  find_first-holds p (y ∷ xs) x h = ground (arith, find_first-holds p xs x)

  pub find_first-update_self :
      (p : A → Bool) (f : A → A) (xs : List A) (x : A)
      → find_first p xs ≡ some x
      → p (f x) ≡ true
      → find_first p (update_first p f xs) ≡ some (f x)
  find_first-update_self p f [] x h k = cc
  find_first-update_self p f (y ∷ xs) x h k = ground (arith, find_first-update_self p f xs x)

  pub All-intro {κ} : (P : A → Type κ) (xs : List A) → ((x : A) → P x) → All P xs
  All-intro P [] h = tt
  All-intro P (x ∷ xs) h = (h x, All-intro P xs h)

  pub find_first-update_other :
      (p q : A → Bool) (f : A → A) (xs : List A)
      → ((x : A) → q (f x) ≡ q x)
      → All (λ x. p x ≡ true → q x ≡ false) xs
      → find_first q (update_first p f xs) ≡ find_first q xs
  find_first-update_other p q f [] same apart = refl
  find_first-update_other p q f (y ∷ xs) same apart =
      ground (arith, find_first-update_other p q f xs same apart.1, same y, apart.0)

  pub sum_of-update :
      (m : A → ℤ) (p : A → Bool) (f : A → A) (xs : List A) (x : A)
      → find_first p xs ≡ some x
      → sum_of m (update_first p f xs) +ℤ m x ≡ sum_of m xs +ℤ m (f x)
  sum_of-update m p f [] x h = cc
  sum_of-update m p f (y ∷ xs) x h = grind (int_laws, sum_of-update m p f xs x)

  pub sum_where-update :
      (q : A → Bool) (m : A → ℕ) (p : A → Bool) (f : A → A) (xs : List A) (x : A)
      → find_first p xs ≡ some x
      → sum_where q m (update_first p f xs) + (if q x then m x else 0)
        ≡ sum_where q m xs + (if q (f x) then m (f x) else 0)
  sum_where-update q m p f [] x h = cc
  sum_where-update q m p f (y ∷ xs) x h = grind (arith, sum_where-update q m p f xs x)

  -- A row that a query finds has what all rows have.
  pub All-find_first {κ} :
      (P : A → Type κ) (p : A → Bool) (xs : List A) (x : A)
      → All P xs
      → find_first p xs ≡ some x
      → P x
  All-find_first P p [] x h e = cc
  All-find_first P p (y ∷ xs) x h e = elim (Bool-cases (p y)) [
    | inl here ↦ let same : y ≡ x = ground (arith, here) in subst P same h.0
    | inr there ↦ All-find_first P p xs x h.1 (ground (arith, there))
  ]

  All-update_cases {κ} :
      (P : A → Type κ) (p : A → Bool) (f : A → A) (y : A) (xs : List A)
      → ((x : A) → P x → P (f x))
      → All P (y ∷ xs)
      → All P (update_first p f xs)
      → All P (update_first p f (y ∷ xs))
  All-update_cases P p f y xs keep h rest =
      elim (p y) as (λ b. All P (if b then f y ∷ xs else y ∷ update_first p f xs)) [
        | true ↦ (keep y h.0, h.1)
        | false ↦ (h.0, rest)
      ]

  pub All-update {κ} :
      (P : A → Type κ) (p : A → Bool) (f : A → A) (xs : List A)
      → ((x : A) → P x → P (f x))
      → All P xs
      → All P (update_first p f xs)
  All-update P p f [] keep h = tt
  All-update P p f (y ∷ xs) keep h =
      All-update_cases P p f y xs keep h (All-update P p f xs keep h.1)

  -- A row at the end of a table, which a query that found nothing before finds.
  pub find_first-append :
      (p : A → Bool) (xs : List A) (x : A)
      → find_first p xs ≡ none
      → p x ≡ true
      → find_first p (xs ++ x ∷ []) ≡ some x
  find_first-append p [] x h k = ground arith
  find_first-append p (y ∷ xs) x h k = ground (arith, find_first-append p xs x)

  -- A query that asks for more than one which found nothing.
  pub find_first-weaken :
      (p q : A → Bool) (xs : List A)
      → ((x : A) → p x ≡ false → q x ≡ false)
      → find_first p xs ≡ none
      → find_first q xs ≡ none
  find_first-weaken p q [] less h = refl
  find_first-weaken p q (y ∷ xs) less h = ground (arith, find_first-weaken p q xs less, less y)

  -- Two queries that find the same row: the second one finds it after the update by the first.
  pub find_first-update_same :
      (p q : A → Bool) (f : A → A) (xs : List A) (x : A)
      → find_first p xs ≡ some x
      → find_first q xs ≡ some x
      → q (f x) ≡ true
      → find_first q (update_first p f xs) ≡ some (f x)
  find_first-update_same p q f [] x h k e = cc
  find_first-update_same p q f (y ∷ xs) x h k e = ground (
    arith,
    find_first-update_same p q f xs x,
    find_first-holds p (y ∷ xs) x h,
    find_first-holds q (y ∷ xs) x k,
  )

  -- Where the row that a query finds stands in the table, before and after its update.
  pub find_first-split :
      (p : A → Bool) (f : A → A) (xs : List A) (x : A)
      → find_first p xs ≡ some x
      → (pre post : List A) × (xs ≡ pre ++ x ∷ post)
        × (update_first p f xs ≡ pre ++ f x ∷ post)
        × All (λ y. p y ≡ false) pre
  find_first-split p f [] x h = cc
  find_first-split p f (y ∷ xs) x h = elim (Bool-cases (p y)) [
    | inl here ↦ ([], xs, ground (arith, here), ground (arith, here), tt)
    | inr there ↦
        let (pre, post, e, e', apart) = find_first-split p f xs x (ground (arith, there)) in
        (y ∷ pre, post, ap (λ l. y ∷ l) e, rw (there, e'), (there, apart))
  ]

  pub find_first-none :
      (p : A → Bool) (xs : List A) → find_first p xs ≡ none → All (λ y. p y ≡ false) xs
  find_first-none p [] h = tt
  find_first-none p (y ∷ xs) h =
      let head : p y ≡ false = ground arith in (head, find_first-none p xs (ground (arith, head)))

  pub All-map {κ κ'} :
      (P : A → Type κ) (Q : A → Type κ') (xs : List A) → ((x : A) → P x → Q x) → All P xs → All Q xs
  All-map P Q [] f h = tt
  All-map P Q (x ∷ xs) f h = (f x h.0, All-map P Q xs f h.1)

  pub sum_where-none :
      (q : A → Bool) (xs : List A) → sum_where q (λ x. 1) xs ≡ 0 → find_first q xs ≡ none
  sum_where-none q [] h = refl
  sum_where-none q (y ∷ xs) h = ground (arith, sum_where-none q xs)

  -- The row at the end after its update, which the query does not find again.
  pub find_first-update_append :
      (p : A → Bool) (f : A → A) (xs : List A) (x : A)
      → find_first p xs ≡ none
      → p x ≡ true
      → p (f x) ≡ false
      → find_first p (update_first p f (xs ++ x ∷ [])) ≡ none
  find_first-update_append p f [] x h k e = ground arith
  find_first-update_append p f (y ∷ xs) x h k e = ground (arith, find_first-update_append p f xs x)

  pub All-append {κ} :
      (P : A → Type κ) (xs : List A) (x : A) → All P xs → P x → All P (xs ++ x ∷ [])
  All-append P [] x h k = (k, tt)
  All-append P (y ∷ xs) x h k = (h.0, All-append P xs x h.1 k)
