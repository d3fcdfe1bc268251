-- ===== src/Barcode.antt =====
-- The check digits of a boleto's barcode and typeable line (app/boleto/service.py).
pub mod Detection
pub mod Line
pub mod Luhn
use payvorax.Base.Digits.{all_digits}
use payvorax.Base.{
  ℕ, ◌+◌, ◌-◌, ◌*◌, ◌%◌, Bool, true, false, not, ◌&&◌, [], ◌∷◌, ◌++◌, ltb, ◌==◌, if◌then◌else◌,
  length, take, drop, get_or, reverse,
}
use payvorax.Base.Text.{Text, digit_value, strip}

-- One product of `_mod10`: the weight is 2 or 1, and a product of two digits has its digits added.
abbrev pub mod10_product : Bool → ℕ → ℕ
mod10_product double d = if double then (if ltb (d * 2) 10 then d * 2 else d * 2 - 9) else d

-- The loop over the reversed digits: the weights alternate, 2 first.
unfoldable pub mod10_total : Bool → Text → ℕ
mod10_total double [] = 0
mod10_total double (c ∷ s) = mod10_product double (digit_value c) + mod10_total (not double) s

-- `_mod10`
unfoldable pub mod10 : Text → ℕ
mod10 digits =
    let remainder = mod10_total true (reverse digits) % 10 in
    if remainder == 0 then 0 else 10 - remainder

-- The loop of `_mod11_bank` over the reversed digits: the weights run from 2 to 9 and start again.
unfoldable pub mod11_total : ℕ → Text → ℕ
mod11_total i [] = 0
mod11_total i (c ∷ s) = digit_value c * (i % 8 + 2) + mod11_total (i + 1) s

unfoldable pub mod11_bank : Text → ℕ
mod11_bank digits =
    let remainder = mod11_total 0 (reverse digits) % 11 in
    if ltb remainder 2 then 1 else 11 - remainder

abbrev pub slice : ℕ → ℕ → Text → Text
slice from to s = take (to - from) (drop from s)

-- A field of the typeable line, `s[from:at]`, and its check digit, `s[at]`.
abbrev pub field_ok : ℕ → ℕ → Text → Bool
field_ok from at s = mod10 (slice from at s) == digit_value (get_or s at b'0')

unfoldable pub valid_line : Text → Bool
valid_line s = field_ok 0 9 s && field_ok 10 20 s && field_ok 21 31 s

unfoldable pub valid_bank_barcode : Text → Bool
valid_bank_barcode s = mod11_bank (take 4 s ++ drop 5 s) == digit_value (get_or s 4 b'0')

-- Four blocks of twelve digits.
unfoldable pub valid_utility : Text → Bool
valid_utility s = field_ok 0 11 s && field_ok 12 23 s && field_ok 24 35 s && field_ok 36 47 s

-- `validate_barcode`
unfoldable pub validate_barcode : Text → Bool
validate_barcode barcode =
    let cleaned = strip barcode in
    let first = get_or cleaned 0 0 in
    if not (all_digits cleaned && ltb 0 (length cleaned))
    then false
    else if length cleaned == 47
    then valid_line cleaned
    else if length cleaned == 44 && not (first == b'8')
    then valid_bank_barcode cleaned
    else if length cleaned == 48 && first == b'8'
    then valid_utility cleaned
    else length cleaned == 44 && first == b'8'
