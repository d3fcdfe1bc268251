-- ===== src/Matrix/Credit.antt =====
-- What a fee credit changes, and what it leaves alone.
use payvorax.Base.{
  ℕ, ◌≡◌, refl, inl, inr, true, false, some, arith, ◌==◌, Bool-cases, Option-cases, ◌∙◌, ap, sym,
  Bool, List, [], ◌∷◌,
}
use payvorax.Base.Int.{ℤ, pos, ◌+ℤ◌, int_laws}
use payvorax.Base.Query.{
  find_first-holds, find_first-update_self, find_first-update_other, sum_of-update, All, All-update,
}
use payvorax.Bank.{User, Bank}
use payvorax.Bank.Money.{user_is, find_user, with_balance, total_balance, set_balance}
use payvorax.Matrix.{is_matrix, get_matrix_user, credit_fee, set_matrix_balance}

is_matrix-with_balance : (v : ℤ) (u : User) → is_matrix (with_balance v u) ≡ is_matrix u
unfolding is_matrix
is_matrix-with_balance v u = refl

+ℤ_nothing : (a : ℤ) (n : ℕ) → (n == 0) ≡ true → a ≡ a +ℤ pos n
+ℤ_nothing a n h = grind int_laws

-- With a platform account, the amount arrives there.
pub credit_fee-arrives :
    (amount : ℕ) (b : Bank) (m : User)
    → get_matrix_user b ≡ some m
    → get_matrix_user (credit_fee amount b) ≡ some (with_balance (m.balance +ℤ pos amount) m)
unfolding credit_fee
credit_fee-arrives amount b m h = elim (Bool-cases (amount == 0)) [
  | inl zero_fee ↦
      rw zero_fee
        (h ∙ ap (λ (v : ℤ). some (with_balance v m)) (+ℤ_nothing m.balance amount zero_fee))
  | inr fee ↦
      rw (fee, h)
        (find_first-update_self is_matrix (with_balance (m.balance +ℤ pos amount)) b.users m h
          (is_matrix-with_balance _ m ∙ find_first-holds is_matrix b.users m h))
]

-- With a platform account, the sum of all balances rises by the amount.
pub total_balance-credit_fee :
    (amount : ℕ) (b : Bank) (m : User)
    → get_matrix_user b ≡ some m
    → total_balance (credit_fee amount b) ≡ total_balance b +ℤ pos amount
unfolding credit_fee
total_balance-credit_fee amount b m h = elim (Bool-cases (amount == 0)) [
  | inl zero_fee ↦ rw zero_fee (grind int_laws)
  | inr fee ↦
      rw (fee, h)
        (grind (
          int_laws,
          sum_of-update (λ (u : User). u.balance) is_matrix (with_balance (m.balance +ℤ pos amount))
              b.users m h,
        ))
]

-- User `k` is not the platform.
abbrev pub IsCustomer : ℕ → Bank → Type 0
IsCustomer k b = All (λ (x : User). is_matrix x ≡ true → user_is k x ≡ false) b.users

swap_sides : (a b : Bool) → (a ≡ true → b ≡ false) → b ≡ true → a ≡ false
swap_sides true b h k = cc (h refl)
swap_sides false b h k = refl

pub All-swap :
    (k : ℕ) (us : List User)
    → All (λ (x : User). is_matrix x ≡ true → user_is k x ≡ false) us
    → All (λ (x : User). user_is k x ≡ true → is_matrix x ≡ false) us
All-swap k [] h = tt
All-swap k (u ∷ us) h = (swap_sides (is_matrix u) (user_is k u) h.0, All-swap k us h.1)

-- The account of a customer is not touched by a write to the platform's.
pub find_user-set_matrix_balance :
    (k : ℕ) (v : ℤ) (b : Bank)
    → IsCustomer k b
    → find_user k (set_matrix_balance v b) ≡ find_user k b
find_user-set_matrix_balance k v b apart =
    find_first-update_other is_matrix (user_is k) (with_balance v) b.users (λ x. refl) apart

-- A write to a customer's account does not touch the platform's.
pub get_matrix_user-set_balance :
    (k : ℕ) (v : ℤ) (b : Bank)
    → IsCustomer k b
    → get_matrix_user (set_balance k v b) ≡ get_matrix_user b
get_matrix_user-set_balance k v b apart =
    find_first-update_other (user_is k) is_matrix (with_balance v) b.users
      (is_matrix-with_balance v) (All-swap k b.users apart)

pub set_balance-IsCustomer :
    (j k : ℕ) (v : ℤ) (b : Bank) → IsCustomer k b → IsCustomer k (set_balance j v b)
set_balance-IsCustomer j k v b apart =
    All-update (λ (x : User). is_matrix x ≡ true → user_is k x ≡ false) (user_is j) (with_balance v)
      b.users (λ x h m. h (sym (is_matrix-with_balance v x) ∙ m)) apart

pub find_user-credit_fee :
    (amount k : ℕ) (b : Bank) → IsCustomer k b → find_user k (credit_fee amount b) ≡ find_user k b
unfolding credit_fee
find_user-credit_fee amount k b apart = elim (Option-cases (get_matrix_user b)) [
  | inl missing ↦ ground (arith, missing)
  | inr (m, found) ↦
      ground (arith, found, find_user-set_matrix_balance k (m.balance +ℤ pos amount) b apart)
]

pub set_matrix_balance-IsCustomer :
    (k : ℕ) (v : ℤ) (b : Bank) → IsCustomer k b → IsCustomer k (set_matrix_balance v b)
set_matrix_balance-IsCustomer k v b apart =
    All-update (λ (x : User). is_matrix x ≡ true → user_is k x ≡ false) is_matrix (with_balance v)
      b.users (λ x h m. h (sym (is_matrix-with_balance v x) ∙ m)) apart

pub get_matrix_user-set_matrix_balance :
    (v : ℤ) (b : Bank) (m : User)
    → get_matrix_user b ≡ some m
    → get_matrix_user (set_matrix_balance v b) ≡ some (with_balance v m)
get_matrix_user-set_matrix_balance v b m h =
    find_first-update_self is_matrix (with_balance v) b.users m h
      (is_matrix-with_balance v m ∙ find_first-holds is_matrix b.users m h)
