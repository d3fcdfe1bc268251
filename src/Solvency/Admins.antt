-- ===== src/Solvency/Admins.antt =====
-- The administrator's calls (app/web_routes.py) keep every balance at zero or above.
use payvorax.Solvency.{
  Solvent, set_balance-Solvent, set_matrix_balance-Solvent, add-not_negative, sub-not_negative,
}
use payvorax.Base.Query.{All, find_first, All-find_first}
use payvorax.Base.{
  ℕ, ◌≡◌, Bool, false, not, ◌||◌, Option, some, List, [], ◌∷◌, ◌==◌, if-holds, option-holds, inl,
  inr, none, arith, Bool-cases,
}
use payvorax.Base.Int.{pos, ◌+ℤ◌, ◌-ℤ◌, ◌≤ℤ◌, ltb_ℤ}
use payvorax.Base.Text.{Text, text_eq}
use payvorax.Admin.{
  keep_where, delete_user, inside_recipient, debit_matrix, payment_to, platform_replied,
  matrix_external, matrix_transfer, matrix_to_asaas, credit_owner, matrix_to_owner, looks_inside,
  balance_text, type_or_random, Destination, credit_customer, asaas_transfer, to_customer,
  to_platform, to_key, sent_out,
}
use payvorax.Bank.Money.{user_is, find_user}
use payvorax.Bank.{Outcome, PixKeyType, User, Payment, Bank, ok, raise, PixTransaction}
use payvorax.Matrix.{is_matrix, get_matrix_user}
use payvorax.Pix.Create.{add_dispatch}
use payvorax.Pix.Request.{PaymentReply, Context, accepted, refused}
use payvorax.Solvency.Services.{owner-Solvent}
use payvorax.Pix.Transfer.{execute_internal_transfer}
use payvorax.Solvency.Payments.{recipient-Solvent, transfer-Solvent}

keep_where-keeps {ℓ κ} :
    {A : Type ℓ} (P : A → Type κ) (q : A → Bool) (xs : List A) → All P xs → All P (keep_where q xs)
keep_where-keeps P q [] h = tt
keep_where-keeps P q (x ∷ xs) h =
    if-holds (All P) (q x) _ _ (λ _. (h.0, keep_where-keeps P q xs h.1))
      (λ _. keep_where-keeps P q xs h.1)

pub delete_user-Solvent :
    (admin_id k : ℕ) (b : Bank) → Solvent b → Solvent (delete_user admin_id k b).1
unfolding delete_user
delete_user-Solvent admin_id k b s =
    option-holds (λ (o : Outcome ℕ). Solvent o.1) (find_user k b) _ _ (λ _. s)
      (λ u _.
        if-holds (λ (o : Outcome ℕ). Solvent o.1) (u.is_admin || is_matrix u || u.id == admin_id) _
          _ (λ _. s)
          (λ _.
            keep_where-keeps (λ (x : User). pos 0 ≤ℤ x.balance) (λ x. not (user_is k x)) b.users s))

platform-not_negative :
    (b : Bank) (m : User) → Solvent b → get_matrix_user b ≡ some m → pos 0 ≤ℤ m.balance
platform-not_negative b m s found =
    All-find_first (λ (x : User). pos 0 ≤ℤ x.balance) is_matrix b.users m s found

debit_matrix-Solvent :
    (m : User) (amount : ℕ) (b : Bank)
    → ltb_ℤ m.balance (pos amount) ≡ false
    → Solvent b
    → Solvent (debit_matrix m amount b)
debit_matrix-Solvent m amount b enough s =
    set_matrix_balance-Solvent (m.balance -ℤ pos amount) b
      (sub-not_negative m.balance amount enough) s

credit_owner-Solvent : (k amount : ℕ) (b : Bank) → Solvent b → Solvent (credit_owner k amount b)
credit_owner-Solvent k amount b s =
    option-holds Solvent (find_user k b) _ _ (λ _. s)
      (λ u found.
        set_balance-Solvent k (u.balance +ℤ pos amount) b
          (add-not_negative u.balance amount (owner-Solvent k u b s found)) s)

pub matrix_to_asaas-Solvent :
    (amount : ℕ) (b : Bank) → Solvent b → Solvent (matrix_to_asaas amount b).1
unfolding matrix_to_asaas
matrix_to_asaas-Solvent amount b s =
    option-holds (λ (o : Outcome Unit). Solvent o.1) (get_matrix_user b) _ _ (λ _. s)
      (λ m _.
        if-holds (λ (o : Outcome Unit). Solvent o.1) (ltb_ℤ m.balance (pos amount)) _ _ (λ _. s)
          (λ enough. debit_matrix-Solvent m amount b enough s))

pub matrix_to_owner-Solvent :
    (admin_email : Text) (amount : ℕ) (b : Bank)
    → Solvent b
    → Solvent (matrix_to_owner admin_email amount b).1
unfolding matrix_to_owner
matrix_to_owner-Solvent admin_email amount b s =
    option-holds (λ (o : Outcome Unit). Solvent o.1) (get_matrix_user b) _ _ (λ _. s)
      (λ m _.
        if-holds (λ (o : Outcome Unit). Solvent o.1) (ltb_ℤ m.balance (pos amount)) _ _ (λ _. s)
          (λ enough.
            option-holds (λ (o : Outcome Unit). Solvent o.1)
              (find_first (λ (u : User). text_eq u.email admin_email) b.users) _ _ (λ _. s)
              (λ owner _.
                credit_owner-Solvent owner.id amount (debit_matrix m amount b)
                  (debit_matrix-Solvent m amount b enough s))))

replied-Solvent :
    (r : PaymentReply) (m : User) (x : Payment) (b : Bank)
    → ltb_ℤ m.balance (pos x.value) ≡ false
    → Solvent b
    → Solvent (platform_replied r m x b).1
replied-Solvent refused m x b enough s = s
replied-Solvent (accepted end_to_end_id payment_id) m x b enough s =
    debit_matrix-Solvent m x.value (add_dispatch x b) enough s

inside_recipient-not_negative :
    (key : Text) (t : Option PixKeyType) (b : Bank) (r : User)
    → Solvent b
    → inside_recipient key t b ≡ some r
    → pos 0 ≤ℤ r.balance
inside_recipient-not_negative key none b r s found = absurd (ground (arith, found))
inside_recipient-not_negative key (some t) b r s found = elim (Bool-cases (looks_inside (some t))) [
  | inl inside ↦ recipient-Solvent b s key t r (ground (arith, inside, found))
  | inr outside ↦ absurd (ground (arith, outside, found))
]

balance_text-Solvent :
    (o : Outcome (PixTransaction × PixTransaction)) → Solvent o.1 → Solvent (balance_text o).1
balance_text-Solvent (ok txs, b) s = s
balance_text-Solvent (raise e, b) s = s

pub matrix_transfer-Solvent :
    (c : Context) (pix_key : Text) (t : Option PixKeyType) (amount : ℕ) (key : Text) (corr : ℕ)
    (b : Bank)
    → Solvent b
    → Solvent (matrix_transfer c pix_key t amount key corr b).1
unfolding matrix_transfer matrix_external
matrix_transfer-Solvent c pix_key t amount key corr b s =
    option-holds (λ (o : Outcome Unit). Solvent o.1) (get_matrix_user b) _ _ (λ _. s)
      (λ m platform.
        if-holds (λ (o : Outcome Unit). Solvent o.1) (ltb_ℤ m.balance (pos amount)) _ _ (λ _. s)
          (λ enough.
            option-holds (λ (o : Outcome Unit). Solvent o.1) (inside_recipient pix_key t b) _ _
              (λ _.
                option-holds (λ (o : Outcome Unit). Solvent o.1) c.gateway _ _
                  (λ _. debit_matrix-Solvent m amount b enough s)
                  (λ g _.
                    replied-Solvent (g (payment_to pix_key t amount key)) m
                      (payment_to pix_key t amount key) b enough s))
              (λ recipient found.
                balance_text-Solvent
                  (execute_internal_transfer c m recipient amount pix_key (type_or_random t) key
                    corr b)
                  (transfer-Solvent b s c m recipient amount pix_key (type_or_random t) key corr
                    (inside_recipient-not_negative pix_key t b recipient s found)))))

sent_out-Solvent :
    (r : PaymentReply) (x : Payment) (b : Bank) → Solvent b → Solvent (sent_out r x b).1
sent_out-Solvent refused x b s = s
sent_out-Solvent (accepted end_to_end_id payment_id) x b s = s

pub asaas_transfer-Solvent :
    (c : Context) (to : Destination) (amount : ℕ) (key : Text) (b : Bank)
    → Solvent b
    → Solvent (asaas_transfer c to amount key b).1
unfolding asaas_transfer credit_customer
asaas_transfer-Solvent c (to_customer none) amount key b s = s
asaas_transfer-Solvent c (to_customer (some k)) amount key b s =
    option-holds (λ (o : Outcome Unit). Solvent o.1) (find_user k b) _ _ (λ _. s)
      (λ u found.
        if-holds (λ (o : Outcome Unit). Solvent o.1) (is_matrix u) _ _ (λ _. s)
          (λ _.
            set_balance-Solvent k (u.balance +ℤ pos amount) b
              (add-not_negative u.balance amount (owner-Solvent k u b s found)) s))
asaas_transfer-Solvent c to_platform amount key b s =
    option-holds (λ (o : Outcome Unit). Solvent o.1) (get_matrix_user b) _ _ (λ _. s) (λ m _. s)
asaas_transfer-Solvent c (to_key pix_key none) amount key b s = s
asaas_transfer-Solvent c (to_key pix_key (some t)) amount key b s =
    option-holds (λ (o : Outcome Unit). Solvent o.1) c.gateway _ _ (λ _. s)
      (λ g _. let x = payment_to pix_key (some t) amount key in sent_out-Solvent (g x) x b s)
