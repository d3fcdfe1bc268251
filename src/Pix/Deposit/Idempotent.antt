-- ===== src/Pix/Deposit/Idempotent.antt =====
-- `verify_static_deposit` credits every deposit once, however often it is called.
use payvorax.Pix.Deposit.{
  NamedCredit, any_row, is_processed, is_wanted, credit_deposit, verify_loop, verify_key,
  by_payment, verify_static_deposit, commit_rows, PixCredit, name_all, named,
}
use payvorax.Base.{
  ℕ, ◌≡◌, refl, Bool, true, List, [], ◌∷◌, arith, inl, inr, false, not, ◌&&◌, ◌||◌, Option, none,
  some, ◌++◌, ◌==◌, Bool-cases, if-holds, ◌-◌, Option-cases, sym, subst, ap, ◌∙◌, option-holds,
  length, ◌+◌, subst₂, ◌≢◌, ap₂,
}
use payvorax.Base.Text.{Text, codes, text_eq_refl}
use payvorax.Base.Query.{All, find_first, update_first}
use payvorax.Bank.{PixTransaction, Bank, User, ok}
use payvorax.Matrix.{credit_fee, is_matrix, get_matrix_user}
use payvorax.Pix.Receipt.{credit_pix_receipt, receipt_fee, raised_limit, credited_row}
use payvorax.Bank.Money.{find_user, user_is, with_balance}
use payvorax.Pix.Create.{has_key}
use payvorax.Pix.Lifecycle.{pix_is}
use payvorax.Base.Int.{pos, ◌+ℤ◌}
use payvorax.Base.Digits.{keep_digits}

or-keeps :
    (s s' t t' : Bool)
    → (s ≡ true → s' ≡ true)
    → (t ≡ true → t' ≡ true)
    → (s || t) ≡ true
    → (s' || t') ≡ true
or-keeps true s' t t' h k e = ground (arith, h refl)
or-keeps false s' t t' h k e = ground (arith, k e)

-- The rows of `ps` are among those of `qs`, for every test.
abbrev Keeps : List PixTransaction → List PixTransaction → Type 0
Keeps ps qs = (q : PixTransaction → Bool) → any_row q ps ≡ true → any_row q qs ≡ true

by_payment-Keeps :
    (o : Option (ℕ × Text)) (ps qs : List PixTransaction)
    → Keeps ps qs
    → by_payment o ps ≡ true
    → by_payment o qs ≡ true
by_payment-Keeps none ps qs keeps h = h
by_payment-Keeps (some (id, id_text)) ps qs keeps h =
    or-keeps (any_row (pix_is id) ps) (any_row (pix_is id) qs) _ _ (keeps (pix_is id))
      (keeps (has_key (codes "inbound-" ++ id_text))) h

is_processed-Keeps :
    (t : NamedCredit) (ps qs : List PixTransaction)
    → Keeps ps qs
    → is_processed t ps ≡ true
    → is_processed t qs ≡ true
unfolding is_processed
is_processed-Keeps t ps qs keeps =
    or-keeps _ _ (any_row (λ p. t.id == p.correlation_id) ps)
      (any_row (λ p. t.id == p.correlation_id) qs)
      (or-keeps (any_row (has_key (verify_key t)) ps) (any_row (has_key (verify_key t)) qs)
        (by_payment t.payment ps) (by_payment t.payment qs) (keeps (has_key (verify_key t)))
        (by_payment-Keeps t.payment ps qs keeps))
      (keeps (λ p. t.id == p.correlation_id))

-- Every deposit that is wanted has been processed.
abbrev AllProcessed : Text → List PixTransaction → List NamedCredit → Type 0
AllProcessed user_doc ps ts = All (λ t. is_wanted user_doc t ≡ true → is_processed t ps ≡ true) ts

-- A change of rows that leaves a test's answers and an attribute leaves a row that passes the test,
-- with the attribute.
find_first-survives {ℓ κ} :
    {A : Type ℓ} {B : Type κ} (m : A → B) (q p : A → Bool) (f : A → A) (xs : List A) (x : A)
    → ((y : A) → m (f y) ≡ m y)
    → ((y : A) → q (f y) ≡ q y)
    → find_first q xs ≡ some x
    → (z : A) × (find_first q (update_first p f xs) ≡ some z) × (m z ≡ m x)
find_first-survives m q p f [] x keep same h = (x, h, refl)
find_first-survives m q p f (y ∷ xs) x keep same h = elim (Bool-cases (p y)) [
  | inr other ↦ elim (Bool-cases (q y)) [
    | inl here ↦ let at : y ≡ x = ground (arith, here) in (y, ground (arith, other, here), ap m at)
    | inr there ↦
        let later = find_first-survives m q p f xs x keep same (ground (arith, there, h)) in
        (later.0, ground (arith, other, there, later.1), later.2)
  ]
  | inl changed ↦ elim (Bool-cases (q y)) [
    | inl here ↦
        let at : y ≡ x = ground (arith, here) in
        (f y, ground (arith, changed, same y, here), keep y ∙ ap m at)
    | inr there ↦ (x, ground (arith, changed, same y, there, h), refl)
  ]
]

abbrev document_of : User → Text
document_of u = u.cpf_cnpj

-- The user is there, with the same document.
abbrev HasDocument : ℕ → Text → Bank → Type 0
HasDocument k doc b = (v : User) × (find_user k b ≡ some v) × (v.cpf_cnpj ≡ doc)

credit_fee-HasDocument :
    (n k : ℕ) (u : User) (b : Bank)
    → find_user k b ≡ some u
    → HasDocument k u.cpf_cnpj (credit_fee n b)
unfolding credit_fee
credit_fee-HasDocument n k u b found =
    if-holds (HasDocument k u.cpf_cnpj) (n == 0) _ _ (λ _. (u, found, refl))
      (λ _.
        option-holds (HasDocument k u.cpf_cnpj) (get_matrix_user b) _ _ (λ _. (u, found, refl))
          (λ m _.
            find_first-survives document_of (user_is k) is_matrix
              (with_balance (m.balance +ℤ pos n)) b.users u (λ y. refl) (λ y. refl) found))

module _ (now : ℕ) (platform_key : Text) (k : ℕ) (user_doc : Text) where
  -- Then the loop credits none.
  processed_changes_nothing :
      (old : List PixTransaction) (ts : List NamedCredit) (b : Bank)
      → AllProcessed user_doc old ts
      → verify_loop now platform_key k user_doc old ts b ≡ b
  unfolding verify_loop
  processed_changes_nothing old [] b h = refl
  processed_changes_nothing old (t ∷ ts) b h =
      ground (arith, h.0, processed_changes_nothing old ts b h.1)

  credit_deposit-Keeps :
      (t : NamedCredit) (b : Bank) → Keeps b.pix (credit_deposit now platform_key k t b).pix
  unfolding credit_deposit credit_pix_receipt credit_fee
  credit_deposit-Keeps t b q h = ground (arith, h)

  verify_loop-Keeps :
      (old : List PixTransaction) (ts : List NamedCredit) (b : Bank)
      → Keeps b.pix (verify_loop now platform_key k user_doc old ts b).pix
  unfolding verify_loop
  verify_loop-Keeps old [] b q h = h
  verify_loop-Keeps old (t ∷ ts) b q h =
      if-holds (λ (x : Bank). any_row q x.pix ≡ true)
        (is_wanted user_doc t && not (is_processed t old)) _ _
        (λ _.
          verify_loop-Keeps old ts (credit_deposit now platform_key k t b) q
            (credit_deposit-Keeps t b q h))
        (λ _. verify_loop-Keeps old ts b q h)

  -- A credited deposit has been processed.
  credited_is_processed :
      (t : NamedCredit) (u : User) (b : Bank)
      → find_user k b ≡ some u
      → is_processed t (credit_deposit now platform_key k t b).pix ≡ true
  unfolding credit_deposit is_processed
  credited_is_processed t u b found = ground (arith, found, text_eq_refl (verify_key t))

  credit_deposit-HasDocument :
      (t : NamedCredit) (u : User) (b : Bank)
      → find_user k b ≡ some u
      → HasDocument k u.cpf_cnpj (credit_deposit now platform_key k t b)
  unfolding credit_deposit credit_pix_receipt
  credit_deposit-HasDocument t u b found =
      let fee = receipt_fee u t.value none in
      let row =
        credited_row (u.balance +ℤ pos (t.value - fee)) (raised_limit u.credit_limit t.value) in
      let credited : Bank = record b { users = update_first (user_is u.id) row b.users } in
      let (v, kept, doc) =
        find_first-survives document_of (user_is k) (user_is u.id) row b.users u (λ y. refl)
          (λ y. refl) found in
      let (w, after, doc') = credit_fee-HasDocument fee k v credited kept in
      (w, rw (found, credit_deposit) after, doc' ∙ doc)

  loop_processes_all :
      (old : List PixTransaction) (ts : List NamedCredit) (u : User) (b : Bank)
      → Keeps old b.pix
      → find_user k b ≡ some u
      → AllProcessed user_doc (verify_loop now platform_key k user_doc old ts b).pix ts
  unfolding verify_loop
  loop_processes_all old [] u b keeps found = tt
  loop_processes_all old (t ∷ ts) u b keeps found =
      let b₁ = credit_deposit now platform_key k t b in
      let u₁ = credit_deposit-HasDocument t u b found in
      if-holds (λ (x : Bank). AllProcessed user_doc x.pix (t ∷ ts))
        (is_wanted user_doc t && not (is_processed t old)) _ _
        (λ taken. (
          λ _.
              is_processed-Keeps t b₁.pix _ (verify_loop-Keeps old ts b₁)
                (credited_is_processed t u b found),
          loop_processes_all old ts u₁.0 b₁ (λ q h. credit_deposit-Keeps t b q (keeps q h)) u₁.1,
        ))
        (λ skipped. (
          λ wanted.
              is_processed-Keeps t old _ (λ q h. verify_loop-Keeps old ts b q (keeps q h))
                (ground (arith, wanted, skipped)),
          loop_processes_all old ts u b keeps found,
        ))

  verify_loop-HasDocument :
      (old : List PixTransaction) (ts : List NamedCredit) (u : User) (b : Bank)
      → find_user k b ≡ some u
      → HasDocument k u.cpf_cnpj (verify_loop now platform_key k user_doc old ts b)
  unfolding verify_loop
  verify_loop-HasDocument old [] u b found = (u, found, refl)
  verify_loop-HasDocument old (t ∷ ts) u b found =
      let b₁ = credit_deposit now platform_key k t b in
      let (v, found₁, doc₁) = credit_deposit-HasDocument t u b found in
      let (w, found₂, doc₂) = verify_loop-HasDocument old ts v b₁ found₁ in
      if-holds (HasDocument k u.cpf_cnpj) (is_wanted user_doc t && not (is_processed t old)) _ _
        (λ _. (w, found₂, doc₂ ∙ doc₁)) (λ _. verify_loop-HasDocument old ts u b found)

-- A committed state is the one that the loop has left.
committed : (b b' b'' : Bank) (n : ℕ) → commit_rows b b' ≡ (ok n, b'') → b' ≡ b''
committed b b' b'' n h = ground (arith, h)

-- A call in a state in which every wanted deposit is processed leaves it as it is.
verify-stays :
    (later : ℕ) (platform_key : Text) (fresh : ℕ → ℕ × Text) (ts : List PixCredit) (k : ℕ)
    (u : User) (b : Bank)
    → find_user k b ≡ some u
    → AllProcessed (keep_digits u.cpf_cnpj) b.pix (name_all fresh 0 ts)
    → (verify_static_deposit later platform_key fresh (some ts) k b).1 ≡ b
unfolding verify_static_deposit
verify-stays later platform_key fresh ts k u b found processed =
    let names = name_all fresh 0 ts in
    ground (
      arith,
      found,
      processed_changes_nothing later platform_key k (keep_digits u.cpf_cnpj) b.pix names b
          processed,
    )

-- Every entry of the gateway's answer has an id of its own.
abbrev pub AllNamed : List PixCredit → Type 0
AllNamed ts = All (λ t. t.id ≢ none) ts

named-given : (x y : ℕ × Text) (t : PixCredit) → t.id ≢ none → named x t ≡ named y t
named-given x y t h = elim (Option-cases t.id) [
  | inl missing ↦ absurd (h missing)
  | inr (given, e) ↦
      let id_of : ℕ × Text → Option (ℕ × Text) → ℕ × Text =
        λ z o. elim o [ none ↦ z | some w ↦ w ] in
      let same : id_of x t.id ≡ id_of y t.id = ap (id_of x) e ∙ sym (ap (id_of y) e) in
      ap
        (λ (z : ℕ × Text). record {
          id = z.0;
          id_text = z.1;
          sender_doc = t.sender_doc;
          value = t.value;
          payment = t.payment;
        })
        same
]

-- No identifier is made up for such an answer.
name_all-AllNamed :
    (fresh fresh' : ℕ → ℕ × Text) (i : ℕ) (ts : List PixCredit)
    → AllNamed ts
    → name_all fresh i ts ≡ name_all fresh' i ts
name_all-AllNamed fresh fresh' i [] h = refl
name_all-AllNamed fresh fresh' i (t ∷ ts) h =
    ap₂ (λ x xs. x ∷ xs) (named-given (fresh i) (fresh' i) t h.0)
      (name_all-AllNamed fresh fresh' (i + 1) ts h.1)

-- However often a user asks, with the same answer of the gateway, in which every entry has an id, every
-- deposit is credited at most once: after a call that has been committed, the next one finds nothing
-- to credit and changes nothing, whatever identifiers the two calls make up. (An entry with no id gets
-- a new one in each call.)
pub verify_static_deposit-idempotent :
    (now later : ℕ) (platform_key : Text) (fresh fresh' : ℕ → ℕ × Text) (ts : List PixCredit)
    (k n : ℕ) (b b' : Bank)
    → AllNamed ts
    → verify_static_deposit now platform_key fresh (some ts) k b ≡ (ok n, b')
    → (verify_static_deposit later platform_key fresh' (some ts) k b').1 ≡ b'
unfolding verify_static_deposit
verify_static_deposit-idempotent now later platform_key fresh fresh' ts k n b b' all_named done =
    elim (Option-cases (find_user k b)) [
      | inl missing ↦ absurd (ground (arith, done, missing))
      | inr (u, found) ↦
          let doc = keep_digits u.cpf_cnpj in
          let names = name_all fresh 0 ts in
          let after = verify_loop now platform_key k doc b.pix names b in
          let e : commit_rows b after ≡ (ok n, b') = elim (Bool-cases (length doc == 0)) [
            | inl none_known ↦ absurd (ground (arith, done, found, none_known))
            | inr known ↦ ground (arith, done, found, known)
          ] in
          let (v, found', same) =
            verify_loop-HasDocument now platform_key k doc b.pix names u b found in
          let stays = verify-stays later platform_key fresh' ts k v after found' (
            subst₂ (λ x l. AllProcessed (keep_digits x) after.pix l) (sym same)
              (name_all-AllNamed fresh fresh' 0 ts all_named)
              (loop_processes_all now platform_key k doc b.pix names u b (λ q h. h) found)) in
          subst
            (λ (x : Bank). (verify_static_deposit later platform_key fresh' (some ts) k x).1 ≡ x)
            (committed b after b' n e) stays
    ]
