-- ===== src/Cards.antt =====
-- app/cards/service.py: cards of a user, of which the expired ones are not seen. Times are seconds.
pub mod Ownership
use payvorax.Base.{
  ℕ, ◌+◌, ◌*◌, Bool, true, false, not, ◌&&◌, Option, none, some, List, [], ◌∷◌, ltb, ◌==◌,
  if◌then◌else◌,
}
use payvorax.Base.Query.{find_first, update_first}
use payvorax.Bank.{CardType, CreditCard, Bank, virtual_temp}

-- `CreditCard.expires_at == None or CreditCard.expires_at > now`
abbrev is_live : ℕ → CreditCard → Bool
is_live now c = elim c.expires_at [ none ↦ true | some at ↦ ltb now at ]

-- The filter of `get_card`.
abbrev pub is_seen : ℕ → ℕ → ℕ → CreditCard → Bool
is_seen now card_id k c = card_id == c.id && k == c.user_id && is_live now c

-- A card of the type `VIRTUAL_TEMP` lives for a day.
abbrev expiry_of : ℕ → CardType → Option ℕ
expiry_of now virtual_temp = some (now + 24 * 3600)
expiry_of now _ = none

abbrev pub new_card : ℕ → ℕ → ℕ → CardType → CreditCard
new_card now new_id k type = record {
  id = new_id;
  user_id = k;
  type = type;
  is_blocked = false;
  limit = 100000;
  expires_at = expiry_of now type;
}

-- `create_card`; the number, the code and the printed date are not modelled.
unfoldable pub create_card : ℕ → ℕ → ℕ → CardType → Bank → CreditCard × Bank
create_card now new_id k type b =
    (new_card now new_id k type, record b { cards = new_card now new_id k type ∷ b.cards })

unfoldable cards_of : ℕ → ℕ → List CreditCard → List CreditCard
cards_of now k [] = []
cards_of now k (c ∷ cs) =
    if k == c.user_id && is_live now c then c ∷ cards_of now k cs else cards_of now k cs

-- `list_cards`
abbrev list_cards : ℕ → ℕ → Bank → List CreditCard
list_cards now k b = cards_of now k b.cards

-- `get_card`
abbrev get_card : ℕ → ℕ → ℕ → Bank → Option CreditCard
get_card now card_id k b = find_first (is_seen now card_id k) b.cards

-- A change of the card that `get_card` returns, or none.
abbrev change_card : ℕ → ℕ → ℕ → (CreditCard → CreditCard) → Bank → Option CreditCard × Bank
change_card now card_id k f b = elim (get_card now card_id k b) [
  | none ↦ (none, b)
  | some c ↦ (some (f c), record b { cards = update_first (is_seen now card_id k) f b.cards })
]

abbrev pub remove_first : (CreditCard → Bool) → List CreditCard → List CreditCard
remove_first p [] = []
remove_first p (c ∷ cs) = if p c then cs else c ∷ remove_first p cs

-- `delete_card`
unfoldable pub delete_card : ℕ → ℕ → ℕ → Bank → Option CreditCard × Bank
delete_card now card_id k b = elim (get_card now card_id k b) [
  | none ↦ (none, b)
  | some c ↦ (some c, record b { cards = remove_first (is_seen now card_id k) b.cards })
]

abbrev pub toggled : CreditCard → CreditCard
toggled c = record c { is_blocked = not c.is_blocked }

-- `toggle_block_card`
unfoldable pub toggle_block_card : ℕ → ℕ → ℕ → Bank → Option CreditCard × Bank
toggle_block_card now card_id k b = change_card now card_id k toggled b

abbrev pub with_limit : ℕ → CreditCard → CreditCard
with_limit n c = record c { limit = n }

-- `update_card_limit`
unfoldable pub update_card_limit : ℕ → ℕ → ℕ → ℕ → Bank → Option CreditCard × Bank
update_card_limit now card_id k new_limit b = change_card now card_id k (with_limit new_limit) b
