-- ===== src/Barcode/Luhn.antt =====
-- The rule of modulus 10 for a field and its check digit, apart from the way `_mod10` computes it.
use payvorax.Base.{
  ℕ, ◌+◌, ◌-◌, ◌*◌, ◌/◌, ◌%◌, ◌≤◌, ◌≡◌, refl, ap₂, ◌↔◌, Bool, true, false, not, [], ◌∷◌, reverse,
  arith, if◌then◌else◌,
}
use payvorax.Base.Digits.{IsDigits, IsDigits-reverse}
use payvorax.Base.Text.{Text, is_digit, digit_value}
use payvorax.Barcode.{mod10_product, mod10_total, mod10}

-- The sum of the two digits of a number below a hundred.
abbrev digits_sum : ℕ → ℕ
digits_sum n = n / 10 + n % 10

-- The digits from the right, each times 2 at an even place and times 1 at an odd one, with the digits of
-- each product added; `i` is the place.
unfoldable pub luhn_from : ℕ → Text → ℕ
luhn_from i [] = 0
luhn_from i (c ∷ s) = digits_sum (digit_value c * (2 - i % 2)) + luhn_from (i + 1) s

-- The check digit makes the sum a multiple of 10.
abbrev pub IsChecked : Text → ℕ → Type 0
IsChecked f c = (luhn_from 0 (reverse f) + digit_value c) % 10 ≡ 0

product-digits :
    (double : Bool) (i d : ℕ)
    → i % 2 ≡ (if double then 0 else 1)
    → d ≤ 9
    → mod10_product double d ≡ digits_sum (d * (2 - i % 2))
product-digits true i d h le = let e : 2 - i % 2 ≡ 2 = omega (arith, h) in rw e (ground arith)
product-digits false i d h le = let e : 2 - i % 2 ≡ 1 = omega (arith, h) in rw e (ground arith)

next :
    (double : Bool) (i : ℕ)
    → i % 2 ≡ (if double then 0 else 1)
    → (i + 1) % 2 ≡ (if not double then 0 else 1)
next true i h = omega (arith, h)
next false i h = omega (arith, h)

mod10_total-luhn :
    (double : Bool) (i : ℕ) (s : Text)
    → i % 2 ≡ (if double then 0 else 1)
    → IsDigits s
    → mod10_total double s ≡ luhn_from i s
unfolding mod10_total luhn_from
mod10_total-luhn double i [] h digits = refl
mod10_total-luhn double i (c ∷ s) h digits =
    ap₂ (λ m n. m + n) (product-digits double i (digit_value c) h (ground (arith, digits.0)))
      (mod10_total-luhn (not double) (i + 1) s (next double i h) digits.1)

-- `_mod10` gives the digit that satisfies the rule.
pub mod10-IsChecked :
    (f : Text) (c : ℕ) → IsDigits f → is_digit c ≡ true → (mod10 f ≡ digit_value c) ↔ IsChecked f c
unfolding mod10
mod10-IsChecked f c digits digit =
    let e = mod10_total-luhn true 0 (reverse f) refl (IsDigits-reverse f digits) in
    let le : digit_value c ≤ 9 = ground (arith, digit) in
    (λ h. ground (arith, e), λ h. ground (arith, e))
