-- ===== src/Emv.antt =====
-- app/core/pix_emv.py: the text of a Pix QR code, a sequence of tagged fields with a checksum; and
-- `_validate_pix_crc` (app/pix/router.py). Texts are ASCII, so that a character is a byte.
pub mod Keys
pub mod Payload
pub mod TopLevel
pub mod Walk
use payvorax.Base.{
  ℕ, zero, suc, ◌+◌, ◌-◌, ◌*◌, ◌/◌, ◌%◌, bit_xor, Bool, true, ◌&&◌, ◌||◌, Option, none, some, List,
  [], ◌∷◌, ◌++◌, map, ltb, ◌==◌, if◌then◌else◌, length, take, drop, min,
}
use payvorax.Base.Text.{Text, codes, text_eq, is_digit, digit_value, to_upper, is_space, strip}

-- One round of the inner loop: `crc & 0x8000` tests the bit 15 of a number below 2 ^ 16.
abbrev crc_shift : ℕ → ℕ
crc_shift crc = (if crc / 0x8000 % 2 == 1 then bit_xor (crc * 2) 0x1021 else crc * 2) % 0x10000

unfoldable crc_rounds : ℕ → ℕ → ℕ
crc_rounds zero crc = crc
crc_rounds (suc n) crc = crc_rounds n (crc_shift crc)

unfoldable crc_loop : Text → ℕ → ℕ
unfolding crc_rounds
crc_loop [] crc = crc
crc_loop (byte ∷ s) crc = crc_loop s (crc_rounds 8 (bit_xor crc (byte * 256)))

abbrev hex_digit : ℕ → ℕ
hex_digit n = if ltb n 10 then b'0' + n else b'A' + (n - 10)

-- `format(crc, "04X")` of a number below 2 ^ 16.
abbrev hex4 : ℕ → Text
hex4 n =
    hex_digit (n / 4096 % 16)
    ∷ hex_digit (n / 256 % 16)
    ∷ hex_digit (n / 16 % 16)
    ∷ hex_digit (n % 16)
    ∷ []

-- `crc16_ccitt`
unfoldable pub crc16_ccitt : Text → Text
unfolding crc_loop
crc16_ccitt s = hex4 (crc_loop s 0xFFFF)

-- The decimal digits of a number, behind its fuel: a number has no more digits than its successor
-- counts.
unfoldable pub decimal_digits : ℕ → ℕ → Text → Text
decimal_digits zero n acc = acc
decimal_digits (suc fuel) n acc =
    let more = decimal_digits fuel (n / 10) ((b'0' + n % 10) ∷ acc) in
    if ltb n 10 then (b'0' + n) ∷ acc else more

unfoldable pub decimal : ℕ → Text
unfolding decimal_digits
decimal n = decimal_digits (suc n) n []

abbrev pub two_digits : ℕ → Text
two_digits n = (b'0' + n / 10 % 10) ∷ (b'0' + n % 10) ∷ []

-- f"{n:02d}"
abbrev pub padded : ℕ → Text
padded n = if ltb n 100 then two_digits n else decimal n

-- f"{value:.2f}" of an amount in cents.
abbrev pub format_cents : ℕ → Text
format_cents cents = decimal (cents / 100) ++ b'.' ∷ two_digits (cents % 100)

-- `_tlv`
abbrev pub tlv : Text → Text → Text
tlv tag value = tag ++ (padded (length value) ++ value)

abbrev pub remove_hyphens : Text → Text
remove_hyphens [] = []
remove_hyphens (c ∷ s) = if c == b'-' then remove_hyphens s else c ∷ remove_hyphens s

abbrev pub merchant_account : Text → Text
merchant_account key = tlv (codes "00") (codes "BR.GOV.BCB.PIX") ++ tlv (codes "01") key

abbrev pub additional_data : Text → Text
additional_data key = tlv (codes "05") (take 25 (remove_hyphens key))

-- The fields of a static payload, before the checksum.
unfoldable pub static_fields : Text → Text → List (Text × Text)
static_fields charge_id amount_str =
    (codes "00", codes "01")
    ∷ (codes "01", codes "11")
    ∷ (codes "26", merchant_account charge_id)
    ∷ (codes "52", codes "0000")
    ∷ (codes "53", codes "986")
    ∷ (codes "54", amount_str)
    ∷ (codes "58", codes "BR")
    ∷ (codes "59", codes "BioCodeTechPay")
    ∷ (codes "60", codes "BRASILIA")
    ∷ (codes "62", additional_data charge_id)
    ∷ []

unfoldable pub encode : List (Text × Text) → Text
encode [] = []
encode (f ∷ fs) = tlv f.0 f.1 ++ encode fs

-- The end of `build_pix_static_emv`: the tag and length of the checksum, and the checksum over all
-- that stands before it.
unfoldable pub with_checksum : List (Text × Text) → Text
unfolding encode crc16_ccitt
with_checksum fields = let payload = encode fields ++ codes "6304" in payload ++ crc16_ccitt payload

-- `build_pix_static_emv`
unfoldable pub build_pix_static_emv : Text → ℕ → Text
unfolding with_checksum decimal
build_pix_static_emv charge_id value = with_checksum (static_fields charge_id (format_cents value))

-- `int(s)` of a text of two characters: digits, with a blank or a sign.
pub data Parsed : Type 0 where
  number : ℕ → Parsed
  minus : ℕ → Parsed
  no_number : Parsed

abbrev is_blank_or_plus : ℕ → Bool
is_blank_or_plus c = is_space c || c == b'+'

unfoldable pub int_of : Text → Parsed
int_of (c ∷ d ∷ []) =
    if is_digit c && is_digit d
    then number (digit_value c * 10 + digit_value d)
    else if is_blank_or_plus c && is_digit d
    then number (digit_value d)
    else if c == b'-' && is_digit d
    then minus (digit_value d)
    else if is_digit c && is_space d
    then number (digit_value c)
    else no_number
int_of s = no_number

-- Python's index of the position `o - m` in a text: before the start it counts from the end.
abbrev index_of : Text → ℕ → ℕ → ℕ
index_of s o m = if ltb o m then length s - (m - o) else min (o - m) (length s)

-- `s[i:j]`
abbrev between : Text → ℕ → ℕ → Text
between s i j = take (j - i) (drop i s)

-- The number that stands for the position `o - m`: itself, or as far beyond the end of the text as it
-- lies before its start, where no position is otherwise.
abbrev position : Text → ℕ → ℕ → ℕ
position s o m = if ltb o m then length s + (m - o) else o - m

-- The two characters at a position.
abbrev pub tag_at : Text → ℕ → Text
tag_at s at =
    if ltb (length s) at
    then between s (index_of s 0 (at - length s)) (index_of s 2 (at - length s))
    else take 2 (drop at s)

-- One round of `_walk_tlv` at `m` places before the start, which a negative length leads to.
unfoldable step_before : Text → ℕ → Option (Text × Text × ℕ)
unfolding int_of
step_before s m =
    let tag = between s (index_of s 0 m) (index_of s 2 m) in
    if ltb (length s + m) 4
    then none
    else elim (int_of (between s (index_of s 2 m) (index_of s 4 m))) [
      | no_number ↦ none
      | minus n ↦
          some (tag, between s (index_of s 4 m) (index_of s 4 (m + n)), position s 4 (m + n))
      | number n ↦
          if ltb (length s + m) (4 + n)
          then none
          else some (tag, between s (index_of s 4 m) (index_of s (4 + n) m), position s (4 + n) m)
    ]

-- One round of `_walk_tlv` at a position: the field, and the next position. A negative length steps
-- back.
unfoldable pub walk_step : Text → ℕ → Option (Text × Text × ℕ)
unfolding int_of step_before
walk_step s at =
    if ltb (length s) at
    then step_before s (at - length s)
    else if ltb (length s) (at + 4)
    then none
    else elim (int_of (take 2 (drop (at + 2) s))) [
      | no_number ↦ none
      | minus n ↦
          some
            (take 2 (drop at s), between s (at + 4) (index_of s (at + 4) n), position s (at + 4) n)
      | number n ↦
          if ltb (length s) (at + 4 + n)
          then none
          else some (take 2 (drop at s), take n (drop (at + 4) s), at + 4 + n)
    ]

-- The rounds of `_walk_tlv`, on fuel; `none` if it has not stopped within them.
unfoldable pub walk : ℕ → Text → ℕ → Option (List (Text × Text))
unfolding walk_step
walk zero s at = none
walk (suc fuel) s at = elim (walk_step s at) [
  | none ↦ some []
  | some (tag, value, next) ↦ elim (walk fuel s next) [
    | none ↦ none
    | some fields ↦ some ((tag, value) ∷ fields)
  ]
]

abbrev field_of : Text → List (Text × Text) → Option Text
field_of tag [] = none
field_of tag (f ∷ fs) = if text_eq f.0 tag then some f.1 else field_of tag fs

-- `parse_emv_amount`, over the fields that the walk yields; `float_of` stands for Python's `float` of
-- a text, in cents, with `none` for a `ValueError`.
unfoldable parse_emv_amount : (Text → Option ℕ) → List (Text × Text) → ℕ
parse_emv_amount float_of fields = elim (field_of (codes "54") fields) [
  | none ↦ 0
  | some text ↦ elim (float_of text) [ none ↦ 0 | some cents ↦ cents ]
]

-- `emv.rfind("6304")`: the text up to and including its last occurrence, and what follows.
unfoldable pub split_last : Text → Option (Text × Text)
split_last [] = none
split_last (c ∷ s) = elim (split_last s) [
  | some (before, after) ↦ some (c ∷ before, after)
  | none ↦
      if text_eq (take 4 (c ∷ s)) (codes "6304") then some (codes "6304", drop 4 (c ∷ s)) else none
]

-- `_validate_pix_crc`
unfoldable pub validate_pix_crc : Text → Bool
unfolding split_last crc16_ccitt
validate_pix_crc payload = elim (split_last (strip payload)) [
  | none ↦ true
  | some (body, after) ↦ text_eq (map to_upper (take 4 after)) (crc16_ccitt body)
]
