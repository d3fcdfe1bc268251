-- ===== src/Pix/Transfer/Moves.antt =====
-- An internal transfer moves money from one account to the other, and never more than is there.
use payvorax.Bank.{User, PixTransaction, Bank, Result, ok, raise, PixKeyType}
use payvorax.Bank.Money.{user_is, find_user, with_balance, set_balance, total_balance}
use payvorax.Pix.Request.{Context}
use payvorax.Pix.Transfer.{execute_internal_transfer}
use payvorax.Base.{
  ℕ, ◌≡◌, refl, sym, ◌∙◌, ◌≢◌, ◌⊎◌, inl, inr, some, arith, ◌==◌, ==_iff, Bool-cases, ap, Option,
  if◌then◌else◌, ==-refl,
}
use payvorax.Base.Int.{ℤ, pos, ◌+ℤ◌, ◌-ℤ◌, ◌≤ℤ◌, ◌<ℤ◌, ltb_ℤ, ltb_ℤ→lt, ltb_ℤ→ge, sum_after_move}
use payvorax.Base.Text.{Text}
use payvorax.Base.Query.{
  find_first-holds, find_first-update_self, find_first-update_other, sum_of-update, All-intro,
}

-- Writing one account's balance leaves every other account.
pub find_user-set_balance_ne :
    (j k : ℕ) (v : ℤ) (b : Bank) → j ≢ k → find_user j (set_balance k v b) ≡ find_user j b
find_user-set_balance_ne j k v b ne =
    find_first-update_other (user_is k) (user_is j) (with_balance v) b.users (λ x. refl)
      (All-intro _ b.users (λ x at. ground arith))

pub find_user-set_balance_self :
    (k : ℕ) (v : ℤ) (b : Bank) (u : User)
    → find_user k b ≡ some u
    → find_user k (set_balance k v b) ≡ some (with_balance v u)
find_user-set_balance_self k v b u h =
    find_first-update_self (user_is k) (with_balance v) b.users u h
      (find_first-holds (user_is k) b.users u h)

pub total_balance-set_balance :
    (k : ℕ) (v : ℤ) (b : Bank) (u : User)
    → find_user k b ≡ some u
    → total_balance (set_balance k v b) +ℤ u.balance ≡ total_balance b +ℤ v
total_balance-set_balance k v b u h =
    sum_of-update (λ (x : User). x.balance) (user_is k) (with_balance v) b.users u h

-- The account of user `k` after a transfer of `amount` from the row `s` to the row `r`.
abbrev account_after : User → User → ℕ → ℕ → Bank → Option User
account_after s r amount k b =
    if k == s.id
    then some (with_balance (s.balance -ℤ pos amount) s)
    else if k == r.id
    then some (with_balance (r.balance +ℤ pos amount) r)
    else find_user k b

-- What a transfer of `amount` has done, by how it ended.
abbrev pub Transfers :
    User → User → ℕ → Bank → Result (PixTransaction × PixTransaction) × Bank → Type 0
Transfers s r amount b (ok txs, b') =
    (pos amount ≤ℤ s.balance)
    × ((k : ℕ) → find_user k b' ≡ account_after s r amount k b)
    × (total_balance b' ≡ total_balance b)
Transfers s r amount b (raise e, b') = (b' ≡ b) × ((s.id ≡ r.id) ⊎ (s.balance <ℤ pos amount))

module _ (s r : User) (amount : ℕ) (b : Bank) where
  abbrev debited : Bank
  debited = set_balance s.id (s.balance -ℤ pos amount) b

  abbrev moved : Bank
  moved = set_balance r.id (r.balance +ℤ pos amount) debited

  transfer_total :
      s.id ≢ r.id
      → find_user s.id b ≡ some s
      → find_user r.id b ≡ some r
      → total_balance moved ≡ total_balance b
  transfer_total ne hs hr =
      sum_after_move (total_balance b) (total_balance debited) (total_balance moved) s.balance
        r.balance (pos amount) (total_balance-set_balance s.id (s.balance -ℤ pos amount) b s hs)
        (total_balance-set_balance r.id (r.balance +ℤ pos amount) debited r
          (find_user-set_balance_ne r.id s.id (s.balance -ℤ pos amount) b (λ e. ne (sym e)) ∙ hr))

module _ (s r : User) (amount : ℕ) (b : Bank) (ne : s.id ≢ r.id) (hs : find_user s.id b ≡ some s)
    (hr : find_user r.id b ≡ some r) where
  sender_after :
      find_user s.id (moved s r amount b) ≡ some (with_balance (s.balance -ℤ pos amount) s)
  sender_after =
      find_user-set_balance_ne s.id r.id _ (debited s r amount b) ne
      ∙ find_user-set_balance_self s.id _ b s hs

  recipient_after :
      find_user r.id (moved s r amount b) ≡ some (with_balance (r.balance +ℤ pos amount) r)
  recipient_after =
      find_user-set_balance_self r.id _ (debited s r amount b) r
        (find_user-set_balance_ne r.id s.id _ b (λ e. ne (sym e)) ∙ hr)

  find_user-moved : (k : ℕ) → find_user k (moved s r amount b) ≡ account_after s r amount k b
  find_user-moved k = elim (Bool-cases (k == s.id)) [
    | inl sender ↦ rw ((==_iff k s.id).0 sender, ==-refl s.id) sender_after
    | inr not_sender ↦ elim (Bool-cases (k == r.id)) [
      | inl recipient ↦
          ap (λ i. find_user i (moved s r amount b)) ((==_iff k r.id).0 recipient)
          ∙ recipient_after
          ∙ rw (not_sender, recipient) refl
      | inr not_recipient ↦
          find_user-set_balance_ne k r.id _ (debited s r amount b) (λ e. cc ((==_iff k r.id).1 e))
          ∙ find_user-set_balance_ne k s.id _ b (λ e. cc ((==_iff k s.id).1 e))
          ∙ rw (not_sender, not_recipient) refl
    ]
  ]

-- A transfer between the accounts of two rows of the table either goes through or raises. If it
-- goes through, the sender had the amount, the sender's balance falls and the recipient's rises by
-- it, every other account is as it was, and so is the sum of all balances. If it raises, nothing
-- has changed, and the two accounts are one or the sender's balance is below the amount.
pub execute_internal_transfer-Transfers :
    (c : Context) (s r : User) (amount : ℕ) (pix_key : Text) (key_type : PixKeyType) (key : Text)
    (correlation_id : ℕ) (b : Bank)
    → find_user s.id b ≡ some s
    → find_user r.id b ≡ some r
    → Transfers s r amount b
        (execute_internal_transfer c s r amount pix_key key_type key correlation_id b)
unfolding execute_internal_transfer
execute_internal_transfer-Transfers c s r amount pix_key key_type key correlation_id b hs hr =
    elim (Bool-cases (s.id == r.id)) [
      | inl same ↦ rw same (refl, inl ((==_iff s.id r.id).0 same))
      | inr apart ↦ elim (Bool-cases (ltb_ℤ s.balance (pos amount))) [
        | inl short ↦ rw (apart, short) (refl, inr (ltb_ℤ→lt s.balance (pos amount) short))
        | inr covered ↦
            let ne : s.id ≢ r.id = λ e. cc ((==_iff s.id r.id).1 e) in
            rw (apart, covered)
              (
                ltb_ℤ→ge s.balance (pos amount) covered,
                find_user-moved s r amount b ne hs hr,
                transfer_total s r amount b ne hs hr,
              )
      ]
    ]
