-- ===== src/Document.antt =====
-- app/core/document_validator.py: the check digits of CPF and CNPJ.
pub mod CheckDigits
use payvorax.Base.Digits.{keep_digits}
use payvorax.Base.{
  ℕ, ◌+◌, ◌-◌, ◌*◌, ◌%◌, Bool, true, false, not, ◌&&◌, List, [], ◌∷◌, ltb, leb, ◌==◌, if◌then◌else◌,
  length, get_or,
}
use payvorax.Base.Text.{Text, digit_value}
use payvorax.Bank.{cpf, cnpj}

-- `sum(int(s[i]) * weights[i] for i in range(len(weights)))`
unfoldable pub weighted : List ℕ → Text → ℕ
weighted [] s = 0
weighted (w ∷ ws) [] = 0
weighted (w ∷ ws) (c ∷ s) = digit_value c * w + weighted ws s

-- `len(set(s)) == 1`
unfoldable pub repeated : ℕ → Text → Bool
repeated c [] = true
repeated c (d ∷ s) = c == d && repeated c s

unfoldable pub one_digit_only : Text → Bool
unfolding repeated
one_digit_only [] = false
one_digit_only (c ∷ s) = repeated c s

-- The weights `10 - i` for nine digits and `11 - i` for ten.
abbrev pub cpf_weights1 : List ℕ
cpf_weights1 = 10 ∷ 9 ∷ 8 ∷ 7 ∷ 6 ∷ 5 ∷ 4 ∷ 3 ∷ 2 ∷ []

abbrev pub cpf_weights2 : List ℕ
cpf_weights2 = 11 ∷ cpf_weights1

abbrev pub cnpj_weights1 : List ℕ
cnpj_weights1 = 5 ∷ 4 ∷ 3 ∷ 2 ∷ 9 ∷ 8 ∷ 7 ∷ 6 ∷ 5 ∷ 4 ∷ 3 ∷ 2 ∷ []

abbrev pub cnpj_weights2 : List ℕ
cnpj_weights2 = 6 ∷ cnpj_weights1

-- `remainder = (total * 10) % 11; 0 if remainder >= 10 else remainder`
unfoldable pub cpf_digit : ℕ → ℕ
cpf_digit total = let remainder = total * 10 % 11 in if leb 10 remainder then 0 else remainder

-- `remainder = total % 11; 0 if remainder < 2 else 11 - remainder`
unfoldable pub cnpj_digit : ℕ → ℕ
cnpj_digit total = let remainder = total % 11 in if ltb remainder 2 then 0 else 11 - remainder

-- The digit at a position, as `int(s[i])`.
abbrev pub digit_at : Text → ℕ → ℕ
digit_at s i = digit_value (get_or s i b'0')

unfoldable pub validate_cpf : Text → Bool
validate_cpf text =
    let cpf = keep_digits text in
    if not (length cpf == 11)
    then false
    else if one_digit_only cpf
    then false
    else if not (cpf_digit (weighted cpf_weights1 cpf) == digit_at cpf 9)
    then false
    else cpf_digit (weighted cpf_weights2 cpf) == digit_at cpf 10

unfoldable pub validate_cnpj : Text → Bool
validate_cnpj text =
    let cnpj = keep_digits text in
    if not (length cnpj == 14)
    then false
    else if one_digit_only cnpj
    then false
    else if not (cnpj_digit (weighted cnpj_weights1 cnpj) == digit_at cnpj 12)
    then false
    else cnpj_digit (weighted cnpj_weights2 cnpj) == digit_at cnpj 13

pub data DocumentCheck : Type 0 where
  is_cpf is_cnpj cpf_invalid cnpj_invalid wrong_length : DocumentCheck

unfoldable pub validate_document : Text → DocumentCheck
validate_document cpf_cnpj =
    let digits = keep_digits cpf_cnpj in
    if length digits == 11
    then if validate_cpf digits then is_cpf else cpf_invalid
    else if length digits == 14
    then if validate_cnpj digits then is_cnpj else cnpj_invalid
    else wrong_length
