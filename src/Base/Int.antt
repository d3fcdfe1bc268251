-- ===== src/Base/Int.antt =====
-- Signed amounts (a balance may fall below zero before a guard looks at it) over the native numbers.
use Prim.Native.Nat.{ℕ, suc, ◌+◌, ◌-◌, ◌≤◌}
use mathlib.Core.Path.{◌≡◌}
use mathlib.Core.Bool.{Bool, true, false}
use native.Mathlib.Omega.{arith}
use payvorax.Base.Tests.{ltb, leb, if◌then◌else◌}

-- `negsuc n` is -(n + 1).
pub data ℤ : Type 0 where
  pos : ℕ → ℤ
  negsuc : ℕ → ℤ

abbrev pub pos_part : ℤ → ℕ
pos_part (pos n) = n
pos_part (negsuc _) = 0

abbrev pub neg_part : ℤ → ℕ
neg_part (pos _) = 0
neg_part (negsuc n) = suc n

abbrev pub sub_ℕ : ℕ → ℕ → ℤ
sub_ℕ a b = if leb b a then pos (a - b) else negsuc (b - a - 1)

infixl 65 ◌+ℤ◌ ◌-ℤ◌
infix 50 ◌≤ℤ◌ ◌<ℤ◌
unfoldable pub ◌+ℤ◌ : ℤ → ℤ → ℤ
a +ℤ b = sub_ℕ (pos_part a + pos_part b) (neg_part a + neg_part b)

unfoldable pub ◌-ℤ◌ : ℤ → ℤ → ℤ
a -ℤ b = sub_ℕ (pos_part a + neg_part b) (neg_part a + pos_part b)

abbrev pub ◌≤ℤ◌ : ℤ → ℤ → Type 0
a ≤ℤ b = pos_part a + neg_part b ≤ pos_part b + neg_part a

abbrev pub ◌<ℤ◌ : ℤ → ℤ → Type 0
a <ℤ b = suc (pos_part a + neg_part b) ≤ pos_part b + neg_part a

abbrev pub ltb_ℤ : ℤ → ℤ → Bool
ltb_ℤ a b = ltb (pos_part a + neg_part b) (pos_part b + neg_part a)

-- `abs(a)`, an amount that is never negative.
abbrev pub abs : ℤ → ℕ
abs a = pos_part a + neg_part a

pub +ℤ_parts :
    (a b : ℤ)
    → pos_part (a +ℤ b) + neg_part a + neg_part b ≡ neg_part (a +ℤ b) + pos_part a + pos_part b
unfolding ◌+ℤ◌
+ℤ_parts a b = ground arith

pub -ℤ_parts :
    (a b : ℤ)
    → pos_part (a -ℤ b) + neg_part a + pos_part b ≡ neg_part (a -ℤ b) + pos_part a + neg_part b
unfolding ◌-ℤ◌
-ℤ_parts a b = ground arith

pub eq_of_parts : (a b : ℤ) → pos_part a + neg_part b ≡ pos_part b + neg_part a → a ≡ b
eq_of_parts a b h = ground arith

pub one_sign : (a : ℤ) (P : Type 0) → (neg_part a ≡ 0 → P) → (pos_part a ≡ 0 → P) → P
one_sign (pos n) P f g = f (omega arith)
one_sign (negsuc n) P f g = g (omega arith)

pub ltb_ℤ→lt : (a b : ℤ) → ltb_ℤ a b ≡ true → a <ℤ b
ltb_ℤ→lt a b h = ground arith

pub ltb_ℤ→ge : (a b : ℤ) → ltb_ℤ a b ≡ false → b ≤ℤ a
ltb_ℤ→ge a b h = ground arith

-- The two parts of equal amounts, for `omega`.
pub parts_of_eq : (a b : ℤ) → a ≡ b → (pos_part a ≡ pos_part b) × (neg_part a ≡ neg_part b)
parts_of_eq a b h = ground arith

pub ruleset int_laws = (arith, +ℤ_parts, -ℤ_parts, eq_of_parts)

-- Money that leaves one account and reaches another: what two updates of a sum come to.
pub sum_after_move :
    (t₀ t₁ t₂ s r a : ℤ) → t₁ +ℤ s ≡ t₀ +ℤ (s -ℤ a) → t₂ +ℤ r ≡ t₁ +ℤ (r +ℤ a) → t₂ ≡ t₀
sum_after_move t₀ t₁ t₂ s r a h k =
    omega
      (int_laws, parts_of_eq (t₁ +ℤ s) (t₀ +ℤ (s -ℤ a)) h, parts_of_eq (t₂ +ℤ r) (t₁ +ℤ (r +ℤ a)) k)

-- What one update of a sum comes to.
pub sum_after_debit : (t₀ t₁ s a : ℤ) → t₁ +ℤ s ≡ t₀ +ℤ (s -ℤ a) → t₁ ≡ t₀ -ℤ a
sum_after_debit t₀ t₁ s a h = omega (int_laws, parts_of_eq (t₁ +ℤ s) (t₀ +ℤ (s -ℤ a)) h)

pub sum_after_credit : (t₀ t₁ s a : ℤ) → t₁ +ℤ s ≡ t₀ +ℤ (s +ℤ a) → t₁ ≡ t₀ +ℤ a
sum_after_credit t₀ t₁ s a h = omega (int_laws, parts_of_eq (t₁ +ℤ s) (t₀ +ℤ (s +ℤ a)) h)
