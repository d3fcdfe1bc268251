-- ===== src/Emv/TopLevel.antt =====
-- The readers of app/pix/router.py for a scanned code: `_parse_emv_top_level`, `_parse_emv_value`,
-- `_extract_txid_field62`.
pub mod Stops
use payvorax.Base.{ℕ, zero, suc, Option, none, some, List, [], ◌∷◌, if◌then◌else◌}
use payvorax.Base.Text.{Text, codes, text_eq, strip}
use payvorax.Emv.{walk_step, tag_at}

-- `_parse_emv_top_level`, on fuel: `none` if it has not stopped within it. The list has the fields in
-- the order in which they are written into the dictionary.
unfoldable pub parse_emv_top_level : ℕ → Text → ℕ → Option (List (Text × Text))
unfolding walk_step
parse_emv_top_level zero s at = none
parse_emv_top_level (suc fuel) s at =
    if text_eq (tag_at s at) (codes "63") then some [] else elim (walk_step s at) [
      | none ↦ some []
      | some (tag, value, next) ↦ elim (parse_emv_top_level fuel s next) [
        | none ↦ none
        | some fields ↦ some ((tag, value) ∷ fields)
      ]
    ]

-- A dictionary keeps the last value that is written for a key.
abbrev pub get_field : Text → List (Text × Text) → Option Text
get_field tag [] = none
get_field tag (f ∷ fs) = elim (get_field tag fs) [
  | some value ↦ some value
  | none ↦ if text_eq f.0 tag then some f.1 else none
]

abbrev pub amount_of : (Text → Option ℕ) → List (Text × Text) → ℕ
amount_of float_of fields = elim (get_field (codes "54") fields) [
  | none ↦ 0
  | some [] ↦ 0
  | some (c ∷ raw) ↦ elim (float_of (c ∷ raw)) [ none ↦ 0 | some cents ↦ cents ]
]

-- `_parse_emv_value`; `float_of` stands for Python's `float` of a text, in cents, with `none` for a
-- `ValueError`.
unfoldable pub parse_emv_value : (Text → Option ℕ) → ℕ → Text → Option ℕ
unfolding parse_emv_top_level
parse_emv_value float_of fuel emv = elim (parse_emv_top_level fuel (strip emv) 0) [
  | none ↦ none
  | some fields ↦ some (amount_of float_of fields)
]

-- An empty text is `None`.
abbrev or_none : Text → Option Text
or_none [] = none
or_none (c ∷ s) = some (c ∷ s)

-- The loop over the field 62 of `_extract_txid_field62`, on fuel; the outer `none` if it has not
-- stopped.
unfoldable find_txid : ℕ → Text → ℕ → Option (Option Text)
unfolding walk_step
find_txid zero s at = none
find_txid (suc fuel) s at = elim (walk_step s at) [
  | none ↦ some none
  | some (tag, value, next) ↦
      let rest = find_txid fuel s next in
      if text_eq tag (codes "05") then some (or_none (strip value)) else rest
]

abbrev txid_in : ℕ → List (Text × Text) → Option (Option Text)
txid_in fuel fields = elim (get_field (codes "62") fields) [
  | none ↦ some none
  | some [] ↦ some none
  | some (c ∷ raw) ↦ find_txid fuel (c ∷ raw) 0
]

-- `_extract_txid_field62`
unfoldable extract_txid_field62 : ℕ → Text → Option (Option Text)
unfolding parse_emv_top_level find_txid
extract_txid_field62 fuel emv = elim (parse_emv_top_level fuel (strip emv) 0) [
  | none ↦ none
  | some fields ↦ txid_in fuel fields
]
