-- ===== src/Cards/Ownership.antt =====
-- No operation of one user touches another user's cards.
use payvorax.Base.{ℕ, ◌≡◌, refl, ◌≢◌, List, [], ◌∷◌, arith, ◌==◌, if◌then◌else◌}
use payvorax.Base.Query.{update_first}
use payvorax.Bank.{CardType, CreditCard, Bank}
use payvorax.Cards.{
  is_seen, create_card, remove_first, delete_card, toggled, toggle_block_card, with_limit,
  update_card_limit,
}

-- The cards of user `j` that the table holds, expired or not, in its order.
unfoldable pub owned : ℕ → List CreditCard → List CreditCard
owned j [] = []
owned j (c ∷ cs) = if j == c.user_id then c ∷ owned j cs else owned j cs

pub data CardOp : Type 0 where
  add : ℕ → CardType → CardOp
  delete : ℕ → CardOp
  toggle : ℕ → CardOp
  limit_to : ℕ → ℕ → CardOp

-- One operation of user `k` at a time.
abbrev pub apply_card : ℕ → ℕ → CardOp → Bank → Bank
apply_card now k (add new_id type) b = (create_card now new_id k type b).1
apply_card now k (delete id) b = (delete_card now id k b).1
apply_card now k (toggle id) b = (toggle_block_card now id k b).1
apply_card now k (limit_to id n) b = (update_card_limit now id k n b).1

module _ (j k now id : ℕ) (ne : j ≢ k) where
  owned-update :
      (f : CreditCard → CreditCard) (cs : List CreditCard)
      → ((c : CreditCard) → (f c).user_id ≡ c.user_id)
      → owned j (update_first (is_seen now id k) f cs) ≡ owned j cs
  unfolding owned
  owned-update f [] same = refl
  owned-update f (c ∷ cs) same = ground (arith, owned-update f cs same, same c)

  owned-remove : (cs : List CreditCard) → owned j (remove_first (is_seen now id k) cs) ≡ owned j cs
  unfolding owned
  owned-remove [] = refl
  owned-remove (c ∷ cs) = ground (arith, owned-remove cs)

-- Any operation of user `k` leaves the cards of another user `j` as they were, and the accounts of
-- all users too.
cards_are_separate :
    (now j k : ℕ) (op : CardOp) (b : Bank)
    → j ≢ k
    → (owned j (apply_card now k op b).cards ≡ owned j b.cards)
      × ((apply_card now k op b).users ≡ b.users)
unfolding create_card delete_card toggle_block_card update_card_limit
cards_are_separate now j k (add new_id type) b ne = unfold owned in ground arith
cards_are_separate now j k (delete id) b ne = ground (arith, owned-remove j k now id ne b.cards)
cards_are_separate now j k (toggle id) b ne =
    ground (arith, owned-update j k now id ne toggled b.cards (λ c. refl))
cards_are_separate now j k (limit_to id n) b ne =
    ground (arith, owned-update j k now id ne (with_limit n) b.cards (λ c. refl))
