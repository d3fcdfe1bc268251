-- ===== src/Pix/QrCode/Conserves.antt =====
-- `pay_pix_qrcode` on a charge of the platform: what the accounts are afterwards.
use payvorax.Base.Query.{find_first-holds, find_first-update_other, All-intro, update_first}
use payvorax.Base.{ℕ, ◌+◌, ◌≡◌, refl, sym, ap, ◌∙◌, ◌≢◌, some, arith, ==_iff, subst, option-holds}
use payvorax.Base.Int.{pos, ◌+ℤ◌, ◌-ℤ◌, int_laws, sum_after_debit, ◌≤ℤ◌, ◌<ℤ◌, -ℤ_parts}
use payvorax.Bank.Money.{user_is, find_user, with_balance, set_balance, total_balance}
use payvorax.Bank.{User, PixTransaction, Bank, confirmed, insufficient_funds, raise, Outcome, ok}
use payvorax.Fees.{pix_maintenance_fee}
use payvorax.Matrix.{get_matrix_user, credit_fee}
use payvorax.Matrix.Credit.{
  credit_fee-arrives, total_balance-credit_fee, IsCustomer, get_matrix_user-set_balance,
  set_balance-IsCustomer, find_user-credit_fee, set_matrix_balance-IsCustomer,
}
use payvorax.Pix.Lifecycle.{set_status, with_status}
use payvorax.Pix.QrCode.Internal.{
  credit_charge, settle_internal, debit_payer, pay_other, pay_internal, internal_row,
}
use payvorax.Pix.Receipt.{receipt_fee, raised_limit, credited_row, credit_pix_receipt}
use payvorax.Pix.Transfer.Moves.{
  find_user-set_balance_ne, find_user-set_balance_self, total_balance-set_balance,
}
use payvorax.Pix.Receipt.Credits.{credit_pix_receipt-Credits}
use payvorax.Pix.QrCode.{QrRequest, QrContext}
use payvorax.Pix.Create.{add_pix}

-- A paid charge of someone else: the payer has paid the value and the maintenance fee, the owner of
-- the charge has the value, the platform the fee, and no money has come or gone.
pub record Paid (charge : PixTransaction) (sender receiver m : User) (b b' : Bank) : Type 0 where
  pub payer :
      find_user sender.id b'
      ≡ some (with_balance (sender.balance -ℤ pos (charge.value + pix_maintenance_fee)) sender)
  pub owner :
      find_user receiver.id b'
      ≡ some (
          credited_row
            (receiver.balance +ℤ pos charge.value)
            (raised_limit receiver.credit_limit charge.value)
            receiver)
  pub platform : get_matrix_user b' ≡ some (with_balance (m.balance +ℤ pos pix_maintenance_fee) m)
  pub total : total_balance b' ≡ total_balance b

-- A receipt with no fee changes one account.
abbrev credited_bank : User → ℕ → Bank → Bank
credited_bank r gross b = record b {
  users =
      update_first (user_is r.id)
        (credited_row (r.balance +ℤ pos gross) (raised_limit r.credit_limit gross)) b.users;
}

receipt_free :
    (r : User) (gross : ℕ) (b : Bank)
    → (credit_pix_receipt r gross (some 0) b).1 ≡ credited_bank r gross b
unfolding credit_pix_receipt receipt_fee credit_fee
receipt_free r gross b = ground arith

find_user-receipt_free :
    (r : User) (k gross : ℕ) (b : Bank)
    → k ≢ r.id
    → find_user k (credit_pix_receipt r gross (some 0) b).1 ≡ find_user k b
find_user-receipt_free r k gross b ne =
    ap (find_user k) (receipt_free r gross b)
    ∙ find_first-update_other (user_is r.id) (user_is k) _ b.users (λ x. refl)
        (All-intro _ b.users (λ x at. ground arith))

module _ (charge : PixTransaction) (sender receiver m : User) (b : Bank)
    (payer : find_user sender.id b ≡ some sender)
    (owner : find_user charge.user_id b ≡ some receiver) (platform : get_matrix_user b ≡ some m)
    (apart : sender.id ≢ receiver.id) (payer_apart : IsCustomer sender.id b)
    (owner_apart : IsCustomer receiver.id b) where
  abbrev total_debit : ℕ
  total_debit = charge.value + pix_maintenance_fee

  abbrev debited : Bank
  debited = set_balance sender.id (sender.balance -ℤ pos total_debit) b

  abbrev with_fee : Bank
  with_fee = debit_payer sender charge b

  owner_id : charge.user_id ≡ receiver.id
  owner_id =
      (==_iff charge.user_id receiver.id).0
        (find_first-holds (user_is charge.user_id) b.users receiver owner)

  owner_before : find_user receiver.id with_fee ≡ some receiver
  unfolding debit_payer
  owner_before =
      find_user-credit_fee pix_maintenance_fee receiver.id debited
        (set_balance-IsCustomer sender.id receiver.id _ b owner_apart)
      ∙ find_user-set_balance_ne receiver.id sender.id _ b (λ e. apart (sym e))
      ∙ ap (λ k. find_user k b) (sym owner_id)
      ∙ owner

  payer_before :
      find_user sender.id with_fee ≡ some (with_balance (sender.balance -ℤ pos total_debit) sender)
  unfolding debit_payer
  payer_before =
      find_user-credit_fee pix_maintenance_fee sender.id debited
        (set_balance-IsCustomer sender.id sender.id _ b payer_apart)
      ∙ find_user-set_balance_self sender.id _ b sender payer

  platform_before :
      get_matrix_user with_fee ≡ some (with_balance (m.balance +ℤ pos pix_maintenance_fee) m)
  unfolding debit_payer
  platform_before =
      credit_fee-arrives pix_maintenance_fee debited m
        (get_matrix_user-set_balance sender.id _ b payer_apart ∙ platform)

  total_before : total_balance with_fee +ℤ pos charge.value ≡ total_balance b
  unfolding debit_payer
  total_before =
      ap (λ t. t +ℤ pos charge.value)
        (total_balance-credit_fee pix_maintenance_fee debited m
          (get_matrix_user-set_balance sender.id _ b payer_apart ∙ platform))
      ∙ ap (λ t. t +ℤ pos pix_maintenance_fee +ℤ pos charge.value)
          (sum_after_debit (total_balance b) (total_balance debited) sender.balance
            (pos total_debit) (total_balance-set_balance sender.id _ b sender payer))
      ∙ omega int_laws

  abbrev marked : Bank
  marked = set_status charge.id confirmed with_fee

  settled :
      settle_internal charge with_fee ≡ (credit_pix_receipt receiver charge.value (some 0) marked).1
  unfolding settle_internal credit_charge
  settled =
      rw (ap (λ k. find_user k marked) owner_id ∙ owner_before, settle_internal, credit_charge) refl

  owner_stays_apart : IsCustomer receiver.id with_fee
  unfolding debit_payer credit_fee
  owner_stays_apart =
      option-holds (IsCustomer receiver.id) (get_matrix_user debited) _ _
        (λ _. set_balance-IsCustomer sender.id receiver.id _ b owner_apart)
        (λ x _.
          set_matrix_balance-IsCustomer receiver.id (x.balance +ℤ pos pix_maintenance_fee) debited
            (set_balance-IsCustomer sender.id receiver.id _ b owner_apart))

  settled-Paid : Paid charge sender receiver m b (settle_internal charge with_fee)
  unfolding receipt_fee
  settled-Paid =
      let v = m.balance +ℤ pos pix_maintenance_fee in
      let credits =
        credit_pix_receipt-Credits receiver (with_balance v m) charge.value (some 0) marked
          owner_before platform_before owner_stays_apart in
      subst (Paid charge sender receiver m b) (sym settled) (record {
        payer = find_user-receipt_free receiver sender.id charge.value marked apart ∙ payer_before;
        owner =
            credits.0
            ∙ ap
                (λ n. some (
                  credited_row (receiver.balance +ℤ pos n)
                    (raised_limit receiver.credit_limit charge.value) receiver))
                (omega arith);
        platform = credits.1 ∙ ap (λ t. some (with_balance t m)) (omega int_laws);
        total = credits.2 ∙ ap (λ n. total_balance with_fee +ℤ pos n) (omega arith) ∙ total_before;
      })

  -- A payment of an internal charge of someone else, where the payer and the owner of the charge are
  -- customers and the platform has an account: with a balance that covers the value and the
  -- maintenance fee, the payer pays both, the owner gets the value with the credit limit raised, the
  -- platform gets the fee, and the sum of all balances stays the same; with a smaller balance the
  -- payment is refused and nothing changes.
  pub pay_internal-Paid :
      (c : QrContext) (d : QrRequest)
      → (pos total_debit ≤ℤ sender.balance
          → Paid charge sender receiver m b (pay_internal c d charge sender b).1)
        × (sender.balance <ℤ pos total_debit
            → pay_internal c d charge sender b ≡ (raise insufficient_funds, b))
  unfolding pay_internal pay_other
  pay_internal-Paid c d =
      let row = internal_row c d charge sender in
      let paid = settle_internal charge with_fee in
      let gap = -ℤ_parts sender.balance (pos total_debit) in
      (
        λ covered.
            let e : pay_internal c d charge sender b ≡ (ok row, add_pix row paid) =
              ground (arith, owner, owner_id, apart, covered, gap) in
            subst (λ (o : Outcome PixTransaction). Paid charge sender receiver m b o.1) (sym e)
              (record {
                payer = settled-Paid.payer;
                owner = settled-Paid.owner;
                platform = settled-Paid.platform;
                total = settled-Paid.total;
              }),
        λ short. ground (arith, owner, owner_id, apart, short),
      )

-- A payment of one's own charge, of a customer, where the platform has an account: the sum of all
-- balances rises by the value of the charge.
own_charge_is_credited_unpaid :
    (c : QrContext) (d : QrRequest) (charge : PixTransaction) (sender m : User) (b : Bank)
    → find_user sender.id b ≡ some sender
    → charge.user_id ≡ sender.id
    → get_matrix_user b ≡ some m
    → IsCustomer sender.id b
    → total_balance (pay_internal c d charge sender b).1 ≡ total_balance b +ℤ pos charge.value
unfolding pay_internal settle_internal credit_charge receipt_fee
own_charge_is_credited_unpaid c d charge sender m b found own platform apart =
    let marked = set_status charge.id confirmed b in
    let after = (credit_pix_receipt sender charge.value (some 0) marked).1 in
    let e : pay_internal c d charge sender b ≡ (ok (with_status confirmed charge), after) =
      ground (arith, own, found) in
    let credits =
      credit_pix_receipt-Credits sender m charge.value (some 0) marked found platform apart in
    ap (λ (o : Outcome PixTransaction). total_balance o.1) e
    ∙ credits.2
    ∙ ap (λ n. total_balance b +ℤ pos n) (omega arith)
