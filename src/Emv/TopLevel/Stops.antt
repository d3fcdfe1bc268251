-- ===== src/Emv/TopLevel/Stops.antt =====
-- The readers of a scanned code stop where no length in it can be negative.
use payvorax.Base.{
  ℕ, zero, suc, ◌+◌, ◌≤◌, ◌≡◌, false, some, [], ◌∷◌, arith, length, take, drop, ◌==◌, ◌<◌, inl, inr,
  Option, List, ◌++◌, reverse, Bool-cases, Option-cases, if-holds, sym, subst, refl, ◌⊎◌, ltb,
}
use payvorax.Base.Text.{Text, codes, text_eq, is_space, lstrip, strip}
use payvorax.Base.Query.{All}
use payvorax.Base.Digits.{reverse-cons}
use payvorax.Emv.{int_of, Parsed, number, minus, no_number, walk_step, tag_at}
use payvorax.Emv.TopLevel.{parse_emv_top_level, parse_emv_value, amount_of}

-- No character is a minus sign.
abbrev pub HasNoMinus : Text → Type 0
HasNoMinus s = All (λ c. (c == b'-') ≡ false) s

HasNoMinus-take : (n : ℕ) (s : Text) → HasNoMinus s → HasNoMinus (take n s)
HasNoMinus-take zero s h = tt
HasNoMinus-take (suc n) [] h = tt
HasNoMinus-take (suc n) (c ∷ s) h = (h.0, HasNoMinus-take n s h.1)

HasNoMinus-drop : (n : ℕ) (s : Text) → HasNoMinus s → HasNoMinus (drop n s)
HasNoMinus-drop zero s h = h
HasNoMinus-drop (suc n) [] h = tt
HasNoMinus-drop (suc n) (c ∷ s) h = HasNoMinus-drop n s h.1

-- What `int` makes of a text with no minus sign.
abbrev IsNotMinus : Parsed → Type 0
IsNotMinus (number n) = Unit
IsNotMinus (minus n) = ⊥
IsNotMinus no_number = Unit

int_of-IsNotMinus : (s : Text) → HasNoMinus s → IsNotMinus (int_of s)
unfolding int_of
int_of-IsNotMinus [] h = tt
int_of-IsNotMinus (c ∷ []) h = tt
int_of-IsNotMinus (c ∷ d ∷ []) h = ground (arith, h.0)
int_of-IsNotMinus (c ∷ d ∷ e ∷ s) h = tt

parsed_cases : (x : Parsed) → IsNotMinus x → (x ≡ no_number) ⊎ ((n : ℕ) × (x ≡ number n))
parsed_cases (number n) h = inr (n, refl)
parsed_cases (minus n) h = absurd h
parsed_cases no_number h = inl refl

walk_step-advances :
    (s tag value : Text) (n next : ℕ)
    → HasNoMinus s
    → n ≤ length s
    → walk_step s n ≡ some (tag, value, next)
    → (n + 4 ≤ next) × (next ≤ length s)
unfolding walk_step
walk_step-advances s tag value n next h within e =
    let inside : ltb (length s) n ≡ false = ground arith in
    let read =
      int_of-IsNotMinus (take 2 (drop (n + 2) s))
        (HasNoMinus-take 2 (drop (n + 2) s) (HasNoMinus-drop (n + 2) s h)) in
    elim (parsed_cases (int_of (take 2 (drop (n + 2) s))) read) [
      | inl none_read ↦ absurd (ground (arith, inside, none_read, e))
      | inr (count, is_read) ↦ ground (arith, inside, is_read, e)
    ]

top_level-stops_at :
    (fuel : ℕ) (s : Text) (n : ℕ)
    → HasNoMinus s
    → n ≤ length s
    → length s < n + fuel
    → (fields : List (Text × Text)) × (parse_emv_top_level fuel s n ≡ some fields)
unfolding parse_emv_top_level
top_level-stops_at zero s n h le lt = absurd (omega (arith, le, lt))
top_level-stops_at (suc fuel) s n h le lt = elim (Bool-cases (text_eq (tag_at s n) (codes "63"))) [
  | inl last ↦ ([], ground (arith, last))
  | inr more ↦ elim (Option-cases (walk_step s n)) [
    | inl ended ↦ ([], ground (arith, more, ended))
    | inr ((tag, value, next), stepped) ↦
        let ahead = walk_step-advances s tag value n next h le stepped in
        let later = top_level-stops_at fuel s next h ahead.1 (omega (arith, lt, ahead.0)) in
        ((tag, value) ∷ later.0, ground (arith, more, stepped, later.1))
  ]
]

HasNoMinus-lstrip : (s : Text) → HasNoMinus s → HasNoMinus (lstrip s)
HasNoMinus-lstrip [] h = tt
HasNoMinus-lstrip (c ∷ s) h =
    if-holds HasNoMinus (is_space c) (lstrip s) (c ∷ s) (λ _. HasNoMinus-lstrip s h.1) (λ _. h)

HasNoMinus-append : (s t : Text) → HasNoMinus s → HasNoMinus t → HasNoMinus (s ++ t)
HasNoMinus-append [] t h k = k
HasNoMinus-append (c ∷ s) t h k = (h.0, HasNoMinus-append s t h.1 k)

HasNoMinus-reverse : (s : Text) → HasNoMinus s → HasNoMinus (reverse s)
HasNoMinus-reverse [] h = tt
HasNoMinus-reverse (c ∷ s) h =
    subst HasNoMinus (sym (reverse-cons c s))
      (HasNoMinus-append (reverse s) (c ∷ []) (HasNoMinus-reverse s h.1) (h.0, tt))

HasNoMinus-strip : (s : Text) → HasNoMinus s → HasNoMinus (strip s)
HasNoMinus-strip s h =
    HasNoMinus-reverse (lstrip (reverse (lstrip s))) (
      HasNoMinus-lstrip (reverse (lstrip s))
        (HasNoMinus-reverse (lstrip s) (HasNoMinus-lstrip s h)))

-- The amount of a code with no minus sign is read within as many rounds as the code has characters,
-- and one more.
pub parse_emv_value-stops :
    (float_of : Text → Option ℕ) (fuel : ℕ) (emv : Text)
    → HasNoMinus emv
    → length (strip emv) < fuel
    → (cents : ℕ) × (parse_emv_value float_of fuel emv ≡ some cents)
unfolding parse_emv_value
parse_emv_value-stops float_of fuel emv h lt =
    let fields =
      top_level-stops_at fuel (strip emv) 0 (HasNoMinus-strip emv h) (omega arith)
        (omega (arith, lt)) in
    (amount_of float_of fields.0, ground (arith, fields.1))
