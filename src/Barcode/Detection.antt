-- ===== src/Barcode/Detection.antt =====
-- A single wrong digit is caught.
use payvorax.Base.{
  ℕ, ◌%◌, ◌≤◌, ◌≡◌, ◌≢◌, Bool, true, false, [], ◌∷◌, ◌++◌, arith, sym, ap, ◌∙◌, not, append_assoc,
  reverse, reverse-append,
}
use payvorax.Base.Text.{Text, is_digit, digit_value}
use payvorax.Barcode.{mod10_product, mod10_total, mod10}
use payvorax.Base.Digits.{reverse-cons}

mod10_product-injective :
    (double : Bool) (c d : ℕ)
    → c ≤ 9
    → d ≤ 9
    → c ≢ d
    → mod10_product double c ≢ mod10_product double d
mod10_product-injective true c d hc hd ne = ground arith
mod10_product-injective false c d hc hd ne = ground arith

mod10_product-le : (double : Bool) (c : ℕ) → c ≤ 9 → mod10_product double c ≤ 9
mod10_product-le true c h = ground arith
mod10_product-le false c h = ground arith

-- Two texts that differ in one digit have totals that differ modulo 10.
mod10_total-differs :
    (double : Bool) (xs ys : Text) (c d : ℕ)
    → is_digit c ≡ true
    → is_digit d ≡ true
    → c ≢ d
    → mod10_total double (xs ++ c ∷ ys) % 10 ≢ mod10_total double (xs ++ d ∷ ys) % 10
unfolding mod10_total
mod10_total-differs double [] ys c d hc hd ne e = ground (
  arith,
  mod10_product-injective double (digit_value c) (digit_value d),
  mod10_product-le double (digit_value c),
  mod10_product-le double (digit_value d),
)
mod10_total-differs double (x ∷ xs) ys c d hc hd ne e =
    mod10_total-differs (not double) xs ys c d hc hd ne (omega (arith, e))

-- Check digits are equal only where the totals are equal modulo 10.
mod10-total :
    (s t : Text)
    → mod10 s ≡ mod10 t
    → mod10_total true (reverse s) % 10 ≡ mod10_total true (reverse t) % 10
unfolding mod10
mod10-total s t e = ground arith

reverse-middle : (xs ys : Text) (c : ℕ) → reverse (xs ++ c ∷ ys) ≡ reverse ys ++ c ∷ reverse xs
reverse-middle xs ys c =
    reverse-append xs (c ∷ ys)
    ∙ ap (λ l. l ++ reverse xs) (reverse-cons c ys)
    ∙ append_assoc (reverse ys) (c ∷ []) (reverse xs)

-- Two texts that differ in exactly one place, where both have digits, have different check digits of
-- modulus 10.
mod10-detects :
    (xs ys : Text) (c d : ℕ)
    → is_digit c ≡ true
    → is_digit d ≡ true
    → c ≢ d
    → mod10 (xs ++ c ∷ ys) ≢ mod10 (xs ++ d ∷ ys)
mod10-detects xs ys c d hc hd ne e =
    mod10_total-differs true (reverse ys) (reverse xs) c d hc hd ne (
      ap (λ l. mod10_total true l % 10) (sym (reverse-middle xs ys c))
      ∙ mod10-total (xs ++ c ∷ ys) (xs ++ d ∷ ys) e
      ∙ ap (λ l. mod10_total true l % 10) (reverse-middle xs ys d))
