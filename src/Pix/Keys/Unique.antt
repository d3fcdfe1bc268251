-- ===== src/Pix/Keys/Unique.antt =====
-- An email key belongs to one account when it has been registered.
use payvorax.Base.Query.{All, find_first, update_first, find_first-holds, find_first-update_self}
use payvorax.Base.{
  ℕ, ◌≡◌, Bool, true, false, not, ◌&&◌, none, some, List, [], ◌∷◌, arith, ◌==◌, if-holds, subst,
  inl, inr, Option, Bool-cases, Option-cases,
}
use payvorax.Base.Text.{Text}
use payvorax.Bank.Money.{user_is, find_user}
use payvorax.Bank.{ok, User, Bank}
use payvorax.Pix.Keys.{
  email_key, holds_key, with_email_key, register_email_pix_key, registered, set_email_key,
  holds_already,
}

All-none_found {ℓ} :
    {A : Type ℓ} (q : A → Bool) (xs : List A) → find_first q xs ≡ none → All (λ x. q x ≡ false) xs
All-none_found q [] h = tt
All-none_found q (x ∷ xs) h = (ground (arith, h), All-none_found q xs (ground (arith, h)))

-- Whoever holds the key is user `k`.
abbrev pub BelongsTo : ℕ → Text → List User → Type 0
BelongsTo k key us = All (λ x. holds_key key x ≡ true → k ≡ x.id) us

nobody_else-BelongsTo :
    (k : ℕ) (key : Text) (us : List User)
    → All (λ x. (holds_key key x && not (k == x.id)) ≡ false) us
    → BelongsTo k key us
nobody_else-BelongsTo k key [] h = tt
nobody_else-BelongsTo k key (u ∷ us) h =
    (λ holds. ground (arith, h.0, holds), nobody_else-BelongsTo k key us h.1)

write-BelongsTo :
    (k : ℕ) (key : Text) (us : List User)
    → BelongsTo k key us
    → BelongsTo k key (update_first (user_is k) (with_email_key (some key)) us)
write-BelongsTo k key [] h = tt
write-BelongsTo k key (u ∷ us) h =
    if-holds (BelongsTo k key) (user_is k u) _ _ (λ at. (λ _. ground (arith, at), h.1))
      (λ _. (h.0, write-BelongsTo k key us h.1))

-- Right after a registration that answers `registered`, the user's account holds the user's email as
-- its key, and every account that holds that key has this user's id. (The answer
-- `already_registered` says nothing of the kind.)
pub register_email_pix_key-BelongsTo :
    (k : ℕ) (u : User) (b b' : Bank)
    → find_user k b ≡ some u
    → register_email_pix_key k b ≡ (ok registered, b')
    → BelongsTo k (email_key u) b'.users
      × (find_user k b' ≡ some (with_email_key (some (email_key u)) u))
unfolding register_email_pix_key
register_email_pix_key-BelongsTo k u b b' found done = elim (Bool-cases (holds_already u)) [
  | inl before ↦ absurd (ground (arith, found, done, before))
  | inr new ↦
      let key = email_key u in
      let others : Option User = find_first (λ x. holds_key key x && not (k == x.id)) b.users in
      elim (Option-cases others) [
        | inr (x, taken) ↦ absurd (ground (arith, found, done, new, taken))
        | inl free ↦
            let e : set_email_key k (some key) b ≡ b' = ground (arith, found, done, new, free) in
            subst
              (λ (x : Bank).
                BelongsTo k key x.users × (find_user k x ≡ some (with_email_key (some key) u)))
              e
              (
                write-BelongsTo k key b.users
                    (nobody_else-BelongsTo k key b.users (All-none_found _ b.users free)),
                find_first-update_self (user_is k) (with_email_key (some key)) b.users u found
                    (find_first-holds (user_is k) b.users u found),
              )
      ]
]
