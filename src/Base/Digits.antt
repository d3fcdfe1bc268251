-- ===== src/Base/Digits.antt =====
-- Texts of digits: `re.sub(r"\D", "", s)`, `s.isdigit()`, and what `strip` leaves of them.
use mathlib.Core.Path.{◌≡◌, refl, ap, sym, ◌∙◌, subst}
use mathlib.Core.Bool.{Bool, true, ◌&&◌}
use mathlib.Core.List.{List, [], ◌∷◌, ◌++◌, reverse, reverse-append, reverse-reverse}
use native.Mathlib.Omega.{arith}
use payvorax.Base.Tests.{if◌then◌else◌}
use payvorax.Base.Text.{Text, is_digit, lstrip, strip}
use payvorax.Base.Query.{All}

unfoldable pub keep_digits : Text → Text
keep_digits [] = []
keep_digits (c ∷ s) = if is_digit c then c ∷ keep_digits s else keep_digits s

abbrev pub all_digits : Text → Bool
all_digits [] = true
all_digits (c ∷ s) = is_digit c && all_digits s

abbrev pub IsDigits : Text → Type 0
IsDigits s = All (λ c. is_digit c ≡ true) s

pub keep_digits-IsDigits : (s : Text) → IsDigits s → keep_digits s ≡ s
unfolding keep_digits
keep_digits-IsDigits [] h = refl
keep_digits-IsDigits (c ∷ s) h = ground (arith, keep_digits-IsDigits s h.1)

pub all_digits-IsDigits : (s : Text) → IsDigits s → all_digits s ≡ true
all_digits-IsDigits [] h = refl
all_digits-IsDigits (c ∷ s) h = ground (arith, all_digits-IsDigits s h.1)

pub IsDigits-of_test : (s : Text) → all_digits s ≡ true → IsDigits s
IsDigits-of_test [] h = tt
IsDigits-of_test (c ∷ s) h = (ground (arith, h), IsDigits-of_test s (ground (arith, h)))

IsDigits-append : (s t : Text) → IsDigits s → IsDigits t → IsDigits (s ++ t)
IsDigits-append [] t h k = k
IsDigits-append (c ∷ s) t h k = (h.0, IsDigits-append s t h.1 k)

pub IsDigits-split : (s t : Text) → IsDigits (s ++ t) → IsDigits s × IsDigits t
IsDigits-split [] t h = (tt, h)
IsDigits-split (c ∷ s) t h = let (a, b) = IsDigits-split s t h.1 in ((h.0, a), b)

pub reverse-cons {ℓ} : {A : Type ℓ} (x : A) (xs : List A) → reverse (x ∷ xs) ≡ reverse xs ++ x ∷ []
reverse-cons x xs = reverse-append (x ∷ []) xs

pub IsDigits-reverse : (s : Text) → IsDigits s → IsDigits (reverse s)
IsDigits-reverse [] h = tt
IsDigits-reverse (c ∷ s) h =
    subst IsDigits (sym (reverse-cons c s))
      (IsDigits-append (reverse s) (c ∷ []) (IsDigits-reverse s h.1) (h.0, tt))

lstrip-IsDigits : (s : Text) → IsDigits s → lstrip s ≡ s
lstrip-IsDigits [] h = refl
lstrip-IsDigits (c ∷ s) h = ground (arith, h.0)

-- Digits are no white space.
pub strip-IsDigits : (s : Text) → IsDigits s → strip s ≡ s
strip-IsDigits s h =
    ap (λ t. reverse (lstrip (reverse t))) (lstrip-IsDigits s h)
    ∙ ap reverse (lstrip-IsDigits (reverse s) (IsDigits-reverse s h))
    ∙ reverse-reverse s
