-- ===== src/Pix/Webhook/Debit.antt =====
-- The deferred debit: what one completed transfer takes from the sender and gives to the platform.
use payvorax.Base.{ℕ, ◌+◌, ◌-◌, ◌≡◌, sym, subst, ap, ◌∙◌, inl, inr, some, arith, Option-cases}
use payvorax.Base.Int.{ℤ, pos, pos_part, ◌+ℤ◌, ◌-ℤ◌, ◌≤ℤ◌, ◌<ℤ◌, abs, -ℤ_parts, sum_after_debit}
use payvorax.Bank.Money.{find_user, with_balance, set_balance, total_balance}
use payvorax.Bank.{User, PixTransaction, Bank, fee_of}
use payvorax.Fees.{platform_pix_outbound_network_fee}
use payvorax.Matrix.{get_matrix_user, set_matrix_balance, credit_fee}
use payvorax.Matrix.Credit.{
  credit_fee-arrives, total_balance-credit_fee, IsCustomer, get_matrix_user-set_balance,
  set_balance-IsCustomer, find_user-credit_fee, find_user-set_matrix_balance,
  set_matrix_balance-IsCustomer, get_matrix_user-set_matrix_balance,
}
use payvorax.Pix.Transfer.Moves.{find_user-set_balance_self, total_balance-set_balance}
use payvorax.Pix.Webhook.{absorb_shortfall, debit_balance, credit_margin, debit_sender}

credit_margin-eq :
    (fee : ℕ) (b : Bank)
    → credit_margin fee b ≡ credit_fee (fee - platform_pix_outbound_network_fee) b
unfolding credit_margin credit_fee
credit_margin-eq fee b = ground arith

-- A debit that the balance covers.
pub record Debited (p : PixTransaction) (u m : User) (b b' : Bank) : Type 0 where
  pub sender :
      find_user p.user_id b' ≡ some (with_balance (u.balance -ℤ pos (p.value + fee_of p)) u)
  pub platform :
      get_matrix_user b'
      ≡ some (with_balance (m.balance +ℤ pos (fee_of p - platform_pix_outbound_network_fee)) m)
  pub total :
      total_balance b'
      ≡ total_balance b
        -ℤ pos (p.value + fee_of p)
        +ℤ pos (fee_of p - platform_pix_outbound_network_fee)

-- A debit that it does not cover: what is missing comes out of the platform's account.
pub record Clamped (p : PixTransaction) (u m : User) (b b' : Bank) : Type 0 where
  pub sender : find_user p.user_id b' ≡ some (with_balance (pos 0) u)
  pub platform :
      get_matrix_user b'
      ≡ some (
          with_balance
            (pos (pos_part (m.balance -ℤ pos (abs (u.balance -ℤ pos (p.value + fee_of p)))))
              +ℤ pos (fee_of p - platform_pix_outbound_network_fee))
            m)

module _ (p : PixTransaction) (u m : User) (b : Bank) where
  abbrev after : ℤ
  after = u.balance -ℤ pos (p.value + fee_of p)

  abbrev margin : ℕ
  margin = fee_of p - platform_pix_outbound_network_fee

  abbrev taken : Bank
  taken = set_balance p.user_id after b

  debit_sender-covered :
      find_user p.user_id b ≡ some u
      → pos (p.value + fee_of p) ≤ℤ u.balance
      → debit_sender p b ≡ credit_fee margin taken
  unfolding debit_sender debit_balance
  debit_sender-covered found covered =
      ground
        (arith, -ℤ_parts u.balance (pos (p.value + fee_of p)), credit_margin-eq (fee_of p) taken)

  pub debit_sender-Debited :
      find_user p.user_id b ≡ some u
      → get_matrix_user b ≡ some m
      → IsCustomer p.user_id b
      → pos (p.value + fee_of p) ≤ℤ u.balance
      → Debited p u m b (debit_sender p b)
  debit_sender-Debited found platform apart covered =
      let apart' = set_balance-IsCustomer p.user_id p.user_id after b apart in
      let platform' = get_matrix_user-set_balance p.user_id after b apart ∙ platform in
      subst (Debited p u m b) (sym (debit_sender-covered found covered)) (record {
        sender =
            find_user-credit_fee margin p.user_id taken apart'
            ∙ find_user-set_balance_self p.user_id after b u found;
        platform = credit_fee-arrives margin taken m platform';
        total =
            total_balance-credit_fee margin taken m platform'
            ∙ ap (λ t. t +ℤ pos margin)
                (sum_after_debit (total_balance b) (total_balance taken) u.balance
                  (pos (p.value + fee_of p)) (total_balance-set_balance p.user_id after b u found));
      })

  abbrev emptied : Bank
  emptied = set_balance p.user_id (pos 0) b

  abbrev absorbed : ℤ
  absorbed = pos (pos_part (m.balance -ℤ pos (abs after)))

  debit_sender-short :
      find_user p.user_id b ≡ some u
      → get_matrix_user emptied ≡ some m
      → u.balance <ℤ pos (p.value + fee_of p)
      → debit_sender p b ≡ credit_fee margin (set_matrix_balance absorbed emptied)
  unfolding debit_sender debit_balance absorb_shortfall
  debit_sender-short found platform short = ground (
    arith,
    -ℤ_parts u.balance (pos (p.value + fee_of p)),
    credit_margin-eq (fee_of p) (set_matrix_balance absorbed emptied),
  )

  pub debit_sender-Clamped :
      find_user p.user_id b ≡ some u
      → get_matrix_user b ≡ some m
      → IsCustomer p.user_id b
      → u.balance <ℤ pos (p.value + fee_of p)
      → Clamped p u m b (debit_sender p b)
  debit_sender-Clamped found platform apart short =
      let platform' = get_matrix_user-set_balance p.user_id (pos 0) b apart ∙ platform in
      let apart' = set_balance-IsCustomer p.user_id p.user_id (pos 0) b apart in
      let paid = set_matrix_balance absorbed emptied in
      subst (Clamped p u m b) (sym (debit_sender-short found platform' short)) (record {
        sender =
            find_user-credit_fee margin p.user_id paid
              (set_matrix_balance-IsCustomer p.user_id absorbed emptied apart')
            ∙ find_user-set_matrix_balance p.user_id absorbed emptied apart'
            ∙ find_user-set_balance_self p.user_id (pos 0) b u found;
        platform =
            credit_fee-arrives margin paid (with_balance absorbed m)
              (get_matrix_user-set_matrix_balance absorbed emptied m platform');
      })

pub pix-credit_fee :
    (n : ℕ) (b : Bank) → ((credit_fee n b).pix ≡ b.pix) × ((credit_fee n b).ledger ≡ b.ledger)
unfolding credit_fee
pix-credit_fee n b = ground arith

pix-debit_balance :
    (k : ℕ) (v : ℤ) (b : Bank)
    → ((debit_balance k v b).pix ≡ b.pix) × ((debit_balance k v b).ledger ≡ b.ledger)
unfolding debit_balance absorb_shortfall
pix-debit_balance k v b = ground arith

-- A debit leaves the transactions and the ledger alone.
pub pix-debit_sender :
    (p : PixTransaction) (b : Bank)
    → ((debit_sender p b).pix ≡ b.pix) × ((debit_sender p b).ledger ≡ b.ledger)
unfolding debit_sender
pix-debit_sender p b = elim (Option-cases (find_user p.user_id b)) [
  | inl missing ↦ ground (arith, missing)
  | inr (u, found) ↦
      let b₁ = debit_balance p.user_id (u.balance -ℤ pos (p.value + fee_of p)) b in
      ground (
        arith,
        found,
        credit_margin-eq (fee_of p) b₁,
        pix-credit_fee (fee_of p - 300) b₁,
        pix-debit_balance p.user_id (u.balance -ℤ pos (p.value + fee_of p)) b,
      )
]
