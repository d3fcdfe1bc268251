-- ===== src/Barcode/Line.antt =====
-- The typeable line of 47 digits: three fields with a check digit each, and the rest.
use payvorax.Base.Digits.{IsDigits, strip-IsDigits, all_digits-IsDigits, IsDigits-split}
use payvorax.Base.{
  ℕ, ◌+◌, ◌-◌, ◌≡◌, refl, sym, ap, ap₂, ◌∙◌, ◌↔◌, true, ◌&&◌, [], ◌∷◌, ◌++◌, append_assoc, arith,
  ◌==◌, length, take, drop, get_or, length-append, take-append_length, drop-append_length,
  get_or-middle,
}
use payvorax.Base.Text.{Text, digit_value, strip}
use payvorax.Barcode.{mod10, slice, field_ok, valid_line, validate_barcode}
use payvorax.Barcode.Luhn.{IsChecked, mod10-IsChecked}

take_prefix : (n : ℕ) (f t : Text) → length f ≡ n → take n (f ++ t) ≡ f
take_prefix n f t h = ap (λ k. take k (f ++ t)) (sym h) ∙ take-append_length f t

drop_prefix : (n : ℕ) (f t : Text) → length f ≡ n → drop n (f ++ t) ≡ t
drop_prefix n f t h = ap (λ k. drop k (f ++ t)) (sym h) ∙ drop-append_length f t

-- A field behind `pre` is checked against the digit that follows it.
field_at :
    (from at : ℕ) (pre f t : Text) (c : ℕ)
    → length pre ≡ from
    → from + length f ≡ at
    → field_ok from at (pre ++ (f ++ c ∷ t)) ≡ (mod10 f == digit_value c)
field_at from at pre f t c hp hf =
    let cut : slice from at (pre ++ (f ++ c ∷ t)) ≡ f =
      ap (take (at - from)) (drop_prefix from pre (f ++ c ∷ t) hp)
      ∙ take_prefix (at - from) f (c ∷ t) (omega (arith, hf)) in
    let check : get_or (pre ++ (f ++ c ∷ t)) at b'0' ≡ c =
      ap (λ l. get_or l at b'0') (sym (append_assoc pre f (c ∷ t)))
      ∙ get_or-middle (pre ++ f) t c at b'0' (omega (arith, length-append pre f, hp, hf)) in
    ap₂ (λ l k. mod10 l == digit_value k) cut check

module _ (f₁ f₂ f₃ rest : Text) (c₁ c₂ c₃ : ℕ) where
  abbrev pub line : Text
  line = f₁ ++ c₁ ∷ (f₂ ++ c₂ ∷ (f₃ ++ c₃ ∷ rest))

  -- The lengths of the parts, which make 47 digits.
  pub record IsLine : Type 0 where
    pub digits : IsDigits line
    pub first : length f₁ ≡ 9
    pub second : length f₂ ≡ 10
    pub third : length f₃ ≡ 10
    pub last : length rest ≡ 15

  module _ (h : IsLine) where
    length-line : length line ≡ 47
    length-line = omega (
      arith,
      length-append f₁ (c₁ ∷ (f₂ ++ c₂ ∷ (f₃ ++ c₃ ∷ rest))),
      length-append f₂ (c₂ ∷ (f₃ ++ c₃ ∷ rest)),
      length-append f₃ (c₃ ∷ rest),
      h.first,
      h.second,
      h.third,
      h.last,
    )

    second_field : field_ok 10 20 line ≡ (mod10 f₂ == digit_value c₂)
    second_field =
        ap (field_ok 10 20) (sym (append_assoc f₁ (c₁ ∷ []) (f₂ ++ c₂ ∷ (f₃ ++ c₃ ∷ rest))))
        ∙ field_at 10 20 (f₁ ++ c₁ ∷ []) f₂ (f₃ ++ c₃ ∷ rest) c₂
            (omega (arith, length-append f₁ (c₁ ∷ []), h.first)) (omega (arith, h.second))

    abbrev before_third : Text
    before_third = f₁ ++ c₁ ∷ (f₂ ++ c₂ ∷ [])

    regrouped : before_third ++ (f₃ ++ c₃ ∷ rest) ≡ line
    regrouped = simp append_assoc

    third_field : field_ok 21 31 line ≡ (mod10 f₃ == digit_value c₃)
    third_field =
        ap (field_ok 21 31) (sym regrouped)
        ∙ field_at 21 31 before_third f₃ rest c₃
            (omega (
              arith,
              length-append f₁ (c₁ ∷ (f₂ ++ c₂ ∷ [])),
              length-append f₂ (c₂ ∷ []),
              h.first,
              h.second,
            ))
            (omega (arith, h.third))

    cleaned : strip line ≡ line
    cleaned = strip-IsDigits line h.digits

    validate_line : validate_barcode line ≡ valid_line line
    unfolding validate_barcode
    validate_line = rw cleaned (ground (arith, all_digits-IsDigits line h.digits, length-line))

    abbrev FieldsChecked : Type 0
    FieldsChecked = IsChecked f₁ c₁ × IsChecked f₂ c₂ × IsChecked f₃ c₃

    fields_iff :
        ((mod10 f₁ ≡ digit_value c₁) × (mod10 f₂ ≡ digit_value c₂) × (mod10 f₃ ≡ digit_value c₃))
        ↔ FieldsChecked
    fields_iff =
        let (d₁, r₁) = IsDigits-split f₁ (c₁ ∷ (f₂ ++ c₂ ∷ (f₃ ++ c₃ ∷ rest))) h.digits in
        let (d₂, r₂) = IsDigits-split f₂ (c₂ ∷ (f₃ ++ c₃ ∷ rest)) r₁.1 in
        let (d₃, r₃) = IsDigits-split f₃ (c₃ ∷ rest) r₂.1 in
        let (a₁, b₁) = mod10-IsChecked f₁ c₁ d₁ r₁.0 in
        let (a₂, b₂) = mod10-IsChecked f₂ c₂ d₂ r₂.0 in
        let (a₃, b₃) = mod10-IsChecked f₃ c₃ d₃ r₃.0 in
        (λ e. (a₁ e.0, a₂ e.1, a₃ e.2), λ e. (b₁ e.0, b₂ e.1, b₃ e.2))

    -- A typeable line of 47 digits is accepted exactly if each of its three fields and the digit after
    -- it obey the rule of modulus 10: the digits of the field, counted from the right and times 2 at
    -- every other place beginning with the last, with the digits of each product added, and the check
    -- digit make a sum that 10 divides.
    pub validate_line_iff : (validate_barcode line ≡ true) ↔ FieldsChecked
    unfolding valid_line
    validate_line_iff =
        let first =
          field_at 0 9 [] f₁ (f₂ ++ c₂ ∷ (f₃ ++ c₃ ∷ rest)) c₁ refl (omega (arith, h.first)) in
        let all : validate_barcode line ≡ (
            (mod10 f₁ == digit_value c₁)
            && (mod10 f₂ == digit_value c₂)
            && (mod10 f₃ == digit_value c₃)) =
          validate_line
          ∙ ap₂ (λ p q. p && q) (ap₂ (λ p q. p && q) first second_field) third_field in
        let (to, from) = fields_iff in
        rw all (λ e. to (ground arith), λ e. let x = from e in ground (arith, x))
