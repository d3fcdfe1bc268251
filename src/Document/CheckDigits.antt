-- ===== src/Document/CheckDigits.antt =====
-- Which documents are accepted: every base has exactly one pair of check digits.
use payvorax.Base.Digits.{keep_digits, IsDigits, keep_digits-IsDigits}
use payvorax.Base.{
  ℕ, ◌+◌, ◌≡◌, refl, sym, ap, ◌∙◌, ◌↔◌, true, false, List, [], ◌∷◌, ◌++◌, append_assoc, arith,
  length, get_or, length-append, get_or-middle,
}
use payvorax.Base.Text.{Text, digit_value}
use payvorax.Document.{
  weighted, one_digit_only, cpf_weights1, cpf_weights2, cpf_digit, validate_cpf, digit_at,
}

weighted-append :
    (ws : List ℕ) (s t : Text) → length s ≡ length ws → weighted ws (s ++ t) ≡ weighted ws s
unfolding weighted
weighted-append [] [] t h = refl
weighted-append [] (c ∷ s) t h = absurd (omega (arith, h))
weighted-append (w ∷ ws) [] t h = absurd (omega (arith, h))
weighted-append (w ∷ ws) (c ∷ s) t h = omega (arith, weighted-append ws s t (omega (arith, h)))

accepted_by_digits :
    (s : Text)
    → keep_digits s ≡ s
    → length s ≡ 11
    → one_digit_only s ≡ false
    → (validate_cpf s ≡ true) ↔ (
        (cpf_digit (weighted cpf_weights1 s) ≡ digit_at s 9)
        × (cpf_digit (weighted cpf_weights2 s) ≡ digit_at s 10))
unfolding validate_cpf
accepted_by_digits s kept eleven mixed = rw kept (λ h. ground arith, λ h. ground arith)

abbrev with_check : Text → ℕ → ℕ → Text
with_check base x y = base ++ x ∷ y ∷ []

module _ (base : Text) (x y : ℕ) (digits : IsDigits (with_check base x y)) where
  abbrev document : Text
  document = with_check base x y

  kept : keep_digits document ≡ document
  kept = keep_digits-IsDigits document digits

  next : get_or document (length base + 1) b'0' ≡ y
  next =
      ap (λ l. get_or l (length base + 1) b'0') (sym (append_assoc base (x ∷ []) (y ∷ [])))
      ∙ get_or-middle (base ++ x ∷ []) [] y (length base + 1) b'0' (length-append base (x ∷ []))

  -- A CPF of nine digits and two check digits, which are not all the same digit, is accepted exactly
  -- if its check digits are those that the algorithm computes from the digits before them.
  validate_cpf_iff :
      length base ≡ 9
      → one_digit_only document ≡ false
      → (validate_cpf document ≡ true) ↔ (
          (digit_value x ≡ cpf_digit (weighted cpf_weights1 base))
          × (digit_value y ≡ cpf_digit (weighted cpf_weights2 (base ++ x ∷ []))))
  unfolding validate_cpf
  validate_cpf_iff nine mixed =
      let ten : 10 ≡ length base + 1 = omega (arith, nine) in
      let first = ap cpf_digit (weighted-append cpf_weights1 base (x ∷ y ∷ []) nine) in
      let second =
        ap (λ l. cpf_digit (weighted cpf_weights2 l)) (sym (append_assoc base (x ∷ []) (y ∷ [])))
        ∙ ap cpf_digit (
            weighted-append cpf_weights2 (base ++ x ∷ []) (y ∷ [])
              (omega (arith, length-append base (x ∷ []), nine))) in
      let at9 = get_or-middle base (y ∷ []) x 9 b'0' nine in
      let at10 = ap (λ n. get_or document n b'0') ten ∙ next in
      let eleven : length document ≡ 11 = omega (arith, length-append base (x ∷ y ∷ []), nine) in
      let (to, from) = accepted_by_digits document kept eleven mixed in
      (
        λ h.
            let (p, q) = to h in
            (sym (ap digit_value at9) ∙ sym p ∙ first, sym (ap digit_value at10) ∙ sym q ∙ second),
        λ h. from (
          first ∙ sym h.0 ∙ sym (ap digit_value at9),
          second ∙ sym h.1 ∙ sym (ap digit_value at10),
        ),
      )
