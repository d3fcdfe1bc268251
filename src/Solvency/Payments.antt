-- ===== src/Solvency/Payments.antt =====
-- `create_pix` (app/pix/service.py) keeps every balance at zero or above.
use payvorax.Base.{
  ℕ, ◌≡◌, refl, sym, subst, ap, ◌∙◌, inl, inr, true, false, none, some, arith, ◌==◌, Bool-cases,
  Option-cases,
}
use payvorax.Base.Int.{pos, ◌+ℤ◌, ◌-ℤ◌, ◌≤ℤ◌, ltb_ℤ}
use payvorax.Base.Text.{Text}
use payvorax.Base.Query.{All-find_first, find_first, All}
use payvorax.Bank.Money.{set_balance, find_user}
use payvorax.Bank.{
  Outcome, ok, raise, TransactionType, PixKeyType, User, PixTransaction, Bank, created, sent, cpf,
  cnpj, email, phone, random, scheduled, received,
}
use payvorax.Fees.{calculate_pix_fee}
use payvorax.Pix.Create.{
  pix_row, payment_of, add_dispatch, create_ledger_entry, enter_pending, gateway_replied, dispatch,
  store_pix, create_external, sent_side, create_immediate, create_new, create_pix, find_by_key,
}
use payvorax.Pix.Request.{PixCreateRequest, PaymentReply, Context, accepted, refused}
use payvorax.Pix.Transfer.{
  find_by_email, find_recipient_user, execute_internal_transfer, by_email, by_pix_email,
}
use payvorax.Solvency.{Solvent, set_balance-Solvent, add-not_negative, sub-not_negative}

module _ (b : Bank) (s : Solvent b) where
  find_by_email-Solvent :
      (key : Text) (r : User) → find_by_email key b.users ≡ some r → pos 0 ≤ℤ r.balance
  unfolding find_by_email
  find_by_email-Solvent key r h = elim (Option-cases (find_first (by_email key) b.users)) [
    | inl missing ↦
        All-find_first (λ (u : User). pos 0 ≤ℤ u.balance) (by_pix_email key) b.users r s
          (rw (missing, find_by_email) at h)
    | inr (u, found) ↦
        let same : u ≡ r = ground (arith, found) in
        All-find_first (λ (u : User). pos 0 ≤ℤ u.balance) (by_email key) b.users r s
          (found ∙ ap some same)
  ]

  pub recipient-Solvent :
      (key : Text) (type : PixKeyType) (r : User)
      → find_recipient_user key type b ≡ some r
      → pos 0 ≤ℤ r.balance
  unfolding find_recipient_user
  recipient-Solvent key cpf r h = All-find_first (λ (u : User). pos 0 ≤ℤ u.balance) _ b.users r s h
  recipient-Solvent key cnpj r h = All-find_first (λ (u : User). pos 0 ≤ℤ u.balance) _ b.users r s h
  recipient-Solvent key email r h = find_by_email-Solvent _ r h
  recipient-Solvent key random r h =
      All-find_first (λ (u : User). pos 0 ≤ℤ u.balance) _ b.users r s h
  recipient-Solvent key phone r h = cc

  pub transfer-Solvent :
      (c : Context) (u r : User) (amount : ℕ) (key : Text) (type : PixKeyType) (id : Text)
      (corr : ℕ)
      → pos 0 ≤ℤ r.balance
      → Solvent (execute_internal_transfer c u r amount key type id corr b).1
  unfolding execute_internal_transfer
  transfer-Solvent c u r amount key type id corr h = elim (Bool-cases (u.id == r.id)) [
    | inl same ↦ rw same s
    | inr apart ↦ elim (Bool-cases (ltb_ℤ u.balance (pos amount))) [
      | inl short ↦ rw (apart, short) s
      | inr covered ↦
          rw (apart, covered)
            (set_balance-Solvent r.id (r.balance +ℤ pos amount)
              (set_balance u.id (u.balance -ℤ pos amount) b) (add-not_negative r.balance amount h)
              (set_balance-Solvent u.id (u.balance -ℤ pos amount) b
                (sub-not_negative u.balance amount covered) s))
    ]
  ]

gateway_replied-users :
    (r : PaymentReply) (p : PixTransaction) (b : Bank) → (gateway_replied r p b).1.users ≡ b.users
unfolding gateway_replied enter_pending create_ledger_entry
gateway_replied-users (accepted none none) p b = ground arith
gateway_replied-users (accepted none (some id)) p b = ground arith
gateway_replied-users (accepted (some id) other) p b = ground arith
gateway_replied-users refused p b = refl

store_pix-users :
    (c : Context) (p : PixTransaction) (b : Bank) → (store_pix c p b).1.users ≡ b.users
unfolding store_pix dispatch enter_pending create_ledger_entry
store_pix-users c p b = elim (Option-cases c.gateway) [
  | inl missing ↦ ground (arith, missing)
  | inr (g, present) ↦
      ground
        (arith, present, gateway_replied-users (g (payment_of p)) p (add_dispatch (payment_of p) b))
]

create_external-users :
    (c : Context) (d : PixCreateRequest) (key : Text) (corr k : ℕ) (u : User) (b : Bank)
    → (create_external c d key corr u k b).1.users ≡ b.users
unfolding create_external
create_external-users c d key corr k u b = ground (
  arith,
  store_pix-users c
      (pix_row c d key corr k sent created (calculate_pix_fee u.cpf_cnpj d.value true false)) b,
)

pub same_users : (b b' : Bank) → b'.users ≡ b.users → Solvent b → Solvent b'
same_users b b' e s = subst (All (λ (u : User). pos 0 ≤ℤ u.balance)) (sym e) s

store_pix-Solvent :
    (c : Context) (p : PixTransaction) (b : Bank) → Solvent b → Solvent (store_pix c p b).1
store_pix-Solvent c p b s = same_users b (store_pix c p b).1 (store_pix-users c p b) s

create_external-Solvent :
    (c : Context) (d : PixCreateRequest) (key : Text) (corr k : ℕ) (u : User) (b : Bank)
    → Solvent b
    → Solvent (create_external c d key corr u k b).1
create_external-Solvent c d key corr k u b s =
    same_users b (create_external c d key corr u k b).1 (create_external-users c d key corr k u b) s

sent_side-bank : (o : Outcome (PixTransaction × PixTransaction)) → (sent_side o).1 ≡ o.1
sent_side-bank (ok (x, y), b) = refl
sent_side-bank (raise e, b) = refl

create_immediate-Solvent :
    (c : Context) (d : PixCreateRequest) (key : Text) (corr k : ℕ) (u : User) (b : Bank)
    → Solvent b
    → Solvent (create_immediate c d key corr k u b).1
unfolding create_immediate
create_immediate-Solvent c d key corr k u b s =
    elim (Option-cases (find_recipient_user d.pix_key d.key_type b)) [
      | inl outside ↦
          let e : create_immediate c d key corr k u b ≡ create_external c d key corr u k b =
            ground (arith, outside) in
          subst (λ (o : Outcome PixTransaction). Solvent o.1) (sym e)
            (create_external-Solvent c d key corr k u b s)
      | inr (r, inside) ↦
          let moved = execute_internal_transfer c u r d.value d.pix_key d.key_type key corr b in
          let e : create_immediate c d key corr k u b ≡ sent_side moved = ground (arith, inside) in
          subst (λ (o : Outcome PixTransaction). Solvent o.1) (sym e)
            (subst Solvent (sym (sent_side-bank moved)) (
              transfer-Solvent b s c u r d.value d.pix_key d.key_type key corr
                (recipient-Solvent b s d.pix_key d.key_type r inside)))
    ]

create_new-Solvent :
    (c : Context) (d : PixCreateRequest) (key : Text) (corr k : ℕ) (type : TransactionType)
    (b : Bank)
    → Solvent b
    → Solvent (create_new c d key corr k type b).1
unfolding create_new
create_new-Solvent c d key corr k received b s =
    store_pix-Solvent c (pix_row c d key corr k received created 0) b s
create_new-Solvent c d key corr k sent b s = elim (Option-cases d.scheduled_date) [
  | inr (at, later) ↦
      rw (later, create_new) (store_pix-Solvent c (pix_row c d key corr k sent scheduled 0) b s)
  | inl immediate ↦ elim (Option-cases (find_user k b)) [
    | inl missing ↦ rw (immediate, create_new, missing) s
    | inr (u, found) ↦
        rw (immediate, create_new, found) (create_immediate-Solvent c d key corr k u b s)
  ]
]

pub create_pix-Solvent :
    (c : Context) (d : PixCreateRequest) (key : Text) (corr k : ℕ) (type : TransactionType)
    (b : Bank)
    → Solvent b
    → Solvent (create_pix c d key corr k type b).1
unfolding create_pix
create_pix-Solvent c d key corr k type b s = elim (Option-cases (find_by_key key b)) [
  | inl new ↦ rw (new, create_pix) (create_new-Solvent c d key corr k type b s)
  | inr (old, stored) ↦ rw (stored, create_pix) s
]
