-- ===== src/Pix/Receipt/Credits.antt =====
-- What a receipt adds to the accounts, and that a charge is credited once.
use payvorax.Base.{
  ℕ, ◌+◌, ◌-◌, ◌*◌, ◌≤◌, max, ◌≡◌, refl, sym, ap, ◌∙◌, true, false, Option, some, arith, subst, inl,
  inr, Bool-cases, min,
}
use payvorax.Base.Int.{ℤ, pos, ◌+ℤ◌, int_laws, sum_after_credit}
use payvorax.Base.Query.{
  update_first, find_first-holds, find_first-update_self, find_first-update_other, sum_of-update,
  All-update, find_first,
}
use payvorax.Bank.Money.{user_is, find_user, with_balance, total_balance}
use payvorax.Bank.{User, PixTransaction, Bank, confirmed, is_confirmed}
use payvorax.Matrix.{is_matrix, get_matrix_user, credit_fee}
use payvorax.Matrix.Credit.{
  credit_fee-arrives, total_balance-credit_fee, IsCustomer, find_user-credit_fee, All-swap,
}
use payvorax.Pix.Lifecycle.{pix_is, with_status, find_pix, set_status}
use payvorax.Pix.Receipt.{
  credit_limit_cap, receipt_fee, raised_limit, credited_row, credit_pix_receipt, credit_receiver,
  on_charge_paid, charge_already_confirmed, ChargeAction, charge_confirmed,
}

-- The credit limit that a receipt leaves: never above the cap, never above the old limit by more
-- than half of the gross value, rounded up, and never below the smaller of the old limit and the
-- cap.
raised_limit_bounds :
    (current gross_value : ℕ)
    → (raised_limit current gross_value ≤ credit_limit_cap)
      × (2 * raised_limit current gross_value ≤ 2 * current + gross_value + 1)
      × (min current credit_limit_cap ≤ raised_limit current gross_value)
unfolding raised_limit
raised_limit_bounds current gross_value = omega arith

-- The net credit and the fee of a receipt.
abbrev net_of : User → ℕ → Option ℕ → ℕ
net_of r gross fee = gross - receipt_fee r gross fee

module _ (r m : User) (gross : ℕ) (fee : Option ℕ) (b : Bank) where
  abbrev receipt : Bank
  receipt = (credit_pix_receipt r gross fee b).1

  abbrev limit : ℕ
  limit = raised_limit r.credit_limit gross

  abbrev balance_after : ℤ
  balance_after = r.balance +ℤ pos (net_of r gross fee)

  abbrev credited : Bank
  credited = record b {
    users = update_first (user_is r.id) (credited_row balance_after limit) b.users;
  }

  is_matrix-credited_row : (v : ℤ) (l : ℕ) (u : User) → is_matrix (credited_row v l u) ≡ is_matrix u
  unfolding is_matrix
  is_matrix-credited_row v l u = refl

  credited-IsCustomer : IsCustomer r.id b → IsCustomer r.id credited
  credited-IsCustomer apart =
      All-update (λ (x : User). is_matrix x ≡ true → user_is r.id x ≡ false) (user_is r.id)
        (credited_row balance_after limit) b.users
        (λ x h k. h (sym (is_matrix-credited_row balance_after limit x) ∙ k)) apart

  get_matrix_user-credited : IsCustomer r.id b → get_matrix_user credited ≡ get_matrix_user b
  get_matrix_user-credited apart =
      find_first-update_other (user_is r.id) is_matrix (credited_row balance_after limit) b.users
        (is_matrix-credited_row balance_after limit) (All-swap r.id b.users apart)

  total_balance-credited :
      find_user r.id b ≡ some r
      → total_balance credited ≡ total_balance b +ℤ pos (net_of r gross fee)
  total_balance-credited found =
      sum_after_credit (total_balance b) (total_balance credited) r.balance
        (pos (net_of r gross fee))
        (sum_of-update (λ (x : User). x.balance) (user_is r.id) (credited_row balance_after limit)
          b.users r found)

  -- A receipt for a customer, where the platform has an account: the customer's balance rises by the
  -- gross value less the fee, or not at all where the fee is higher, with the credit limit raised
  -- and every other field as it was; the platform's balance rises by the fee; and the sum of all
  -- balances rises by the larger of the gross value and the fee.
  pub credit_pix_receipt-Credits :
      find_user r.id b ≡ some r
      → get_matrix_user b ≡ some m
      → IsCustomer r.id b
      → (find_user r.id receipt ≡ some (credited_row balance_after limit r))
        × (get_matrix_user receipt
            ≡ some (with_balance (m.balance +ℤ pos (receipt_fee r gross fee)) m))
        × (total_balance receipt ≡ total_balance b +ℤ pos (max gross (receipt_fee r gross fee)))
  unfolding credit_pix_receipt
  credit_pix_receipt-Credits found platform apart =
      let platform' = get_matrix_user-credited apart ∙ platform in
      let paid = receipt_fee r gross fee in
      (
        find_user-credit_fee paid r.id credited (credited-IsCustomer apart)
            ∙ find_first-update_self (user_is r.id) (credited_row balance_after limit) b.users r
                found (find_first-holds (user_is r.id) b.users r found),
        credit_fee-arrives paid credited m platform',
        total_balance-credit_fee paid credited m platform'
            ∙ ap (λ t. t +ℤ pos paid) (total_balance-credited found)
            ∙ omega int_laws,
      )

pub set_status-confirmed :
    (id : ℕ) (p : PixTransaction) (b : Bank)
    → find_pix id b ≡ some p
    → find_pix id (set_status id confirmed b) ≡ some (with_status confirmed p)
set_status-confirmed id p b h =
    find_first-update_self (pix_is id) (with_status confirmed) b.pix p h
      (find_first-holds (pix_is id) b.pix p h)

pub pix-credit_receiver : (p : PixTransaction) (b : Bank) → (credit_receiver p b).pix ≡ b.pix
unfolding credit_receiver credit_pix_receipt credit_fee
pix-credit_receiver p b = ground arith

pub confirmed_is_final :
    (id : ℕ) (q : PixTransaction) (b : Bank)
    → find_pix id b ≡ some q
    → is_confirmed q.status ≡ true
    → on_charge_paid id b ≡ (charge_already_confirmed, b)
unfolding on_charge_paid
confirmed_is_final id q b h st = ground (arith, h)

-- Paying a charge twice credits it once: after the event for a stored transaction, the same event
-- again answers that it was confirmed already and changes nothing.
on_charge_paid-once :
    (id : ℕ) (p : PixTransaction) (b : Bank)
    → find_pix id b ≡ some p
    → on_charge_paid id (on_charge_paid id b).1
      ≡ (charge_already_confirmed, (on_charge_paid id b).1)
unfolding on_charge_paid
on_charge_paid-once id p b h = elim (Bool-cases (is_confirmed p.status)) [
  | inl before ↦
      let e = confirmed_is_final id p b h before in
      subst (λ (o : ChargeAction × Bank). on_charge_paid id o.1 ≡ (charge_already_confirmed, o.1))
        (sym e) e
  | inr new ↦
      let b₁ = set_status id confirmed b in
      let b₂ = credit_receiver p b₁ in
      let e : on_charge_paid id b ≡ (charge_confirmed, b₂) = ground (arith, h) in
      subst (λ (o : ChargeAction × Bank). on_charge_paid id o.1 ≡ (charge_already_confirmed, o.1))
        (sym e)
        (confirmed_is_final id (with_status confirmed p) b₂
          (ap (λ l. find_first (pix_is id) l) (pix-credit_receiver p b₁)
            ∙ set_status-confirmed id p b h)
          refl)
]
