-- ===== src/Emv/Walk.antt =====
-- The walk over the fields of a QR code: what it reads back, and the texts on which it does not stop.
use payvorax.Base.{
  ℕ, ◌+◌, ◌<◌, ◌≡◌, refl, arith, length, drop, [], ◌∷◌, ◌++◌, some, zero, suc, ◌≤◌, ap, none, take,
  take-append_length, sym, subst, List, append-nil, length-append, subst₂, ◌∙◌, append_assoc, ◌-◌,
  min, false, ltb,
}
use payvorax.Base.Text.{Text}
use payvorax.Emv.{two_digits, int_of, number, padded, walk_step, walk, minus, tlv, encode}
use payvorax.Base.Query.{All}

-- A field as `_tlv` can write it so that it is read back: a tag of two characters, and a value whose
-- length has two digits.
abbrev pub IsField : Text × Text → Type 0
IsField f = (length f.0 ≡ 2) × (length f.1 < 100)

int_of-two_digits : (n : ℕ) → n < 100 → int_of (two_digits n) ≡ number n
unfolding int_of
int_of-two_digits n h = ground arith

pub padded_small : (n : ℕ) → n < 100 → padded n ≡ two_digits n
padded_small n h = ground arith

drop-append_at : (pre s : Text) (k n : ℕ) → n ≡ length pre + k → drop n (pre ++ s) ≡ drop k s
drop-append_at [] s k n h = ap (λ m. drop m s) (omega (arith, h))
drop-append_at (c ∷ pre) s k zero h = absurd (omega (arith, h))
drop-append_at (c ∷ pre) s k (suc n) h = drop-append_at pre s k n (omega (arith, h))

-- One round on a text whose rest from the position on starts with a field.
walk_step-read :
    (s value rest : Text) (n a b : ℕ)
    → drop n s ≡ a ∷ b ∷ (two_digits (length value) ++ (value ++ rest))
    → drop (n + 2) s ≡ two_digits (length value) ++ (value ++ rest)
    → drop (n + 4) s ≡ value ++ rest
    → n + 4 + length value ≤ length s
    → length value < 100
    → walk_step s n ≡ some (a ∷ b ∷ [], value, n + 4 + length value)
unfolding walk_step
walk_step-read s value rest n a b h₀ h₂ h₄ le lt =
    grind (arith, h₀, h₂, h₄, int_of-two_digits (length value) lt, take-append_length value rest)

-- A length of minus four is a step to the position itself.
walk_step-stuck :
    (s : Text) (n : ℕ)
    → n + 4 ≤ length s
    → int_of (take 2 (drop (n + 2) s)) ≡ minus 4
    → walk_step s n ≡ some (take 2 (drop n s), [], n)
unfolding walk_step
walk_step-stuck s n le h =
    let inside : ltb (length s) n ≡ false = ground arith in
    let enough : ltb (length s) (n + 4) ≡ false = ground arith in
    let back : ltb (n + 4) 4 ≡ false = ground arith in
    let none_left : min (n + 4 - 4) (length s) - (n + 4) ≡ 0 = omega (arith, le) in
    let same : n + 4 - 4 ≡ n = omega arith in rw (inside, enough, h, back, none_left, same) refl

-- Where at least four characters are left at a position and the length among them reads -4, the walk
-- stays at that position: no number of rounds ends it.
walk-stuck :
    (s : Text) (n fuel : ℕ)
    → n + 4 ≤ length s
    → int_of (take 2 (drop (n + 2) s)) ≡ minus 4
    → walk fuel s n ≡ none
unfolding walk
walk-stuck s n zero le h = refl
walk-stuck s n (suc fuel) le h = grind (arith, walk_step-stuck s n le h, walk-stuck s n fuel le h)

-- The text of one field.
tlv_small :
    (value : Text) (a b : ℕ)
    → length value < 100
    → tlv (a ∷ b ∷ []) value ≡ a ∷ b ∷ (two_digits (length value) ++ value)
tlv_small value a b h = ap (λ t. a ∷ b ∷ (t ++ value)) (padded_small (length value) h)

-- One round reads the field that stands behind a prefix.
walk_step-field :
    (pre value rest : Text) (a b : ℕ)
    → length value < 100
    → walk_step (pre ++ a ∷ b ∷ (two_digits (length value) ++ (value ++ rest))) (length pre)
      ≡ some (a ∷ b ∷ [], value, length pre + 4 + length value)
walk_step-field pre value rest a b h =
    let field = a ∷ b ∷ (two_digits (length value) ++ (value ++ rest)) in
    walk_step-read (pre ++ field) value rest (length pre) a b
      (drop-append_at pre field 0 (length pre) (omega arith))
      (drop-append_at pre field 2 (length pre + 2) (omega arith))
      (drop-append_at pre field 4 (length pre + 4) (omega arith))
      (omega (arith, length-append pre field, length-append value rest)) h

-- What stands before the next field.
length-next :
    (pre value : Text) (a b : ℕ)
    → length (pre ++ a ∷ b ∷ (two_digits (length value) ++ value)) ≡ length pre + 4 + length value
length-next pre value a b =
    omega (arith, length-append pre (a ∷ b ∷ (two_digits (length value) ++ value)))

pub walk-cons :
    (s : Text) (n next fuel : ℕ) (tag value : Text) (fs : List (Text × Text))
    → walk_step s n ≡ some (tag, value, next)
    → walk fuel s next ≡ some fs
    → walk (suc fuel) s n ≡ some ((tag, value) ∷ fs)
unfolding walk
walk-cons s n next fuel tag value fs h k = grind (arith, h, k)

walk-end : (s : Text) (fuel : ℕ) → walk (suc fuel) s (length s) ≡ some []
unfolding walk walk_step
walk-end s fuel = ground arith

tlv_before :
    (value rest : Text) (a b : ℕ)
    → length value < 100
    → tlv (a ∷ b ∷ []) value ++ rest ≡ a ∷ b ∷ (two_digits (length value) ++ (value ++ rest))
tlv_before value rest a b h =
    ap (λ t. t ++ rest) (tlv_small value a b h)
    ∙ ap (λ t. a ∷ b ∷ t) (append_assoc (two_digits (length value)) value rest)

-- The next field stands behind the prefix and this one.
next_prefix :
    (pre value rest : Text) (a b : ℕ)
    → (pre ++ a ∷ b ∷ (two_digits (length value) ++ value)) ++ rest
      ≡ pre ++ a ∷ b ∷ (two_digits (length value) ++ (value ++ rest))
next_prefix pre value rest a b =
    append_assoc pre (a ∷ b ∷ (two_digits (length value) ++ value)) rest
    ∙ ap (λ t. pre ++ a ∷ b ∷ t) (append_assoc (two_digits (length value)) value rest)

-- The fields that were written behind a prefix are read from there, when the fuel exceeds their
-- number.
walk-encode_at :
    (fs : List (Text × Text)) (pre : Text) (fuel : ℕ)
    → All IsField fs
    → length fs < fuel
    → walk fuel (pre ++ encode fs) (length pre) ≡ some fs
unfolding encode
walk-encode_at fs pre zero h lt = absurd (omega (arith, lt))
walk-encode_at [] pre (suc fuel) h lt =
    subst (λ s. walk (suc fuel) s (length pre) ≡ some []) (sym (append-nil pre)) (walk-end pre fuel)
walk-encode_at (((a ∷ b ∷ []), value) ∷ fs) pre (suc fuel) h lt =
    let pre' = pre ++ a ∷ b ∷ (two_digits (length value) ++ value) in
    let later = walk-encode_at fs pre' fuel h.1 (omega (arith, lt)) in
    let s = pre ++ a ∷ b ∷ (two_digits (length value) ++ (value ++ encode fs)) in
    subst (λ t. walk (suc fuel) (pre ++ t) (length pre) ≡ some ((a ∷ b ∷ [], value) ∷ fs))
      (sym (tlv_before value (encode fs) a b h.0.1))
      (walk-cons s (length pre) (length pre + 4 + length value) fuel (a ∷ b ∷ []) value fs
        (walk_step-field pre value (encode fs) a b h.0.1)
        (subst₂ (λ t n. walk fuel t n ≡ some fs) (next_prefix pre value (encode fs) a b)
          (length-next pre value a b) later))
walk-encode_at (([], value) ∷ fs) pre (suc fuel) h lt = absurd (omega (arith, h.0.0))
walk-encode_at (((a ∷ []), value) ∷ fs) pre (suc fuel) h lt = absurd (omega (arith, h.0.0))
walk-encode_at (((a ∷ b ∷ c ∷ t), value) ∷ fs) pre (suc fuel) h lt = absurd (omega (arith, h.0.0))

-- The walk over written fields, with tags of two characters and values of fewer than 100, yields them
-- again, with any fuel above their number.
pub walk-encode :
    (fs : List (Text × Text)) (fuel : ℕ)
    → All IsField fs
    → length fs < fuel
    → walk fuel (encode fs) 0 ≡ some fs
walk-encode fs fuel h lt = walk-encode_at fs [] fuel h lt
