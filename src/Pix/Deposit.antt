-- ===== src/Pix/Deposit.antt =====
-- `verify_static_deposit` (app/pix/router.py): the deposits that the gateway lists, credited where no
-- webhook has credited them.
pub mod Idempotent
use payvorax.Base.Digits.{keep_digits}
use payvorax.Base.{
  ℕ, ◌-◌, Bool, true, false, not, ◌&&◌, ◌||◌, Option, none, some, List, [], ◌∷◌, ◌++◌, leb, ◌==◌,
  if◌then◌else◌, length, take, drop, ◌+◌,
}
use payvorax.Base.Text.{contains, Text, codes, text_eq}
use payvorax.Bank.Money.{find_user}
use payvorax.Bank.{
  Outcome, user_not_found, gateway_unavailable, no_document, duplicate_row, ok, raise,
  PixTransaction, Bank, confirmed, received, random,
}
use payvorax.Pix.Create.{has_key, add_pix}
use payvorax.Pix.Lifecycle.{pix_is}
use payvorax.Pix.Receipt.{credit_pix_receipt}

-- An entry of `list_pix_credits`: its id, as an identifier and as text, if it has one, the sender's
-- document as it came, the value, and the id of the payment, if it has one.
pub record PixCredit : Type 0 where
  pub id : Option (ℕ × Text)
  pub sender_doc : Text
  pub value : ℕ
  pub payment : Option (ℕ × Text)

-- The entry with its `tx_id`.
pub record NamedCredit : Type 0 where
  pub id : ℕ
  pub id_text : Text
  pub sender_doc : Text
  pub value : ℕ
  pub payment : Option (ℕ × Text)

-- `tx.get("id") or str(uuid4())`
abbrev pub named : ℕ × Text → PixCredit → NamedCredit
named fresh t =
    let tx_id : ℕ × Text = elim t.id [ none ↦ fresh | some given ↦ given ] in
    record {
      id = tx_id.0;
      id_text = tx_id.1;
      sender_doc = t.sender_doc;
      value = t.value;
      payment = t.payment;
    }

-- The entries of one call; `fresh` gives the new identifier for each place.
abbrev pub name_all : (ℕ → ℕ × Text) → ℕ → List PixCredit → List NamedCredit
name_all fresh i [] = []
name_all fresh i (t ∷ ts) = named (fresh i) t ∷ name_all fresh (i + 1) ts

-- The six middle digits of a masked document, or a longer part, identify the sender too.
unfoldable pub sender_matches : Text → Text → Bool
sender_matches [] user_doc = false
sender_matches (c ∷ s) user_doc =
    let sender_doc = c ∷ s in
    if text_eq sender_doc user_doc
    then true
    else if length sender_doc == 6 && length user_doc == 11
    then text_eq (take 6 (drop 3 user_doc)) sender_doc
    else if leb 6 (length sender_doc)
    then contains sender_doc user_doc
    else false

abbrev pub any_row : (PixTransaction → Bool) → List PixTransaction → Bool
any_row q [] = false
any_row q (p ∷ ps) = q p || any_row q ps

-- f"deposit-verify-{tx_id}"
abbrev pub verify_key : NamedCredit → Text
verify_key t = codes "deposit-verify-" ++ t.id_text

abbrev pub by_payment : Option (ℕ × Text) → List PixTransaction → Bool
by_payment none ps = false
by_payment (some (id, id_text)) ps =
    any_row (pix_is id) ps || any_row (has_key (codes "inbound-" ++ id_text)) ps

-- The three checks for a deposit that is credited already.
unfoldable pub is_processed : NamedCredit → List PixTransaction → Bool
is_processed t ps =
    any_row (has_key (verify_key t)) ps
    || by_payment t.payment ps
    || any_row (λ p. t.id == p.correlation_id) ps

unfoldable pub is_wanted : Text → NamedCredit → Bool
is_wanted user_doc t = sender_matches (keep_digits t.sender_doc) user_doc && not (t.value == 0)

-- The row's `correlation_id` stays `NULL`, which is 0 here.
abbrev deposit_row : ℕ → Text → NamedCredit → ℕ → ℕ → ℕ → PixTransaction
deposit_row now platform_key t k net fee = record {
  id = t.id;
  value = net;
  pix_key = platform_key;
  key_type = random;
  type = received;
  status = confirmed;
  user_id = k;
  idempotency_key = verify_key t;
  created_at = now;
  correlation_id = 0;
  scheduled_date = none;
  fee_amount = some fee;
  payload_hash = none;
}

unfoldable pub credit_deposit : ℕ → Text → ℕ → NamedCredit → Bank → Bank
credit_deposit now platform_key k t b = elim (find_user k b) [
  | none ↦ b
  | some u ↦
      let paid = credit_pix_receipt u t.value none b in
      add_pix (deposit_row now platform_key t k paid.0.0 paid.0.1) paid.1
]

-- The loop. The session does not flush by itself, so the checks read the rows of before the call,
-- `old`.
unfoldable pub verify_loop :
    ℕ → Text → ℕ → Text → List PixTransaction → List NamedCredit → Bank → Bank
unfolding credit_deposit
verify_loop now platform_key k user_doc old [] b = b
verify_loop now platform_key k user_doc old (t ∷ ts) b =
    let skipped = verify_loop now platform_key k user_doc old ts b in
    let credited =
      verify_loop now platform_key k user_doc old ts (credit_deposit now platform_key k t b) in
    if is_wanted user_doc t && not (is_processed t old) then credited else skipped

-- The commit: ids and idempotency keys are unique in the table.
abbrev has_id_or_key : PixTransaction → PixTransaction → Bool
has_id_or_key q p = q.id == p.id || text_eq q.idempotency_key p.idempotency_key

abbrev pub rows_are_unique : List PixTransaction → Bool
rows_are_unique [] = true
rows_are_unique (p ∷ ps) = not (any_row (has_id_or_key p) ps) && rows_are_unique ps

abbrev pub commit_rows : Bank → Bank → Outcome ℕ
commit_rows b b' =
    if rows_are_unique b'.pix
    then (ok (length b'.pix - length b.pix), b')
    else (raise duplicate_row, b)

-- `verify_static_deposit` of user `k`, with the identifiers that it makes up in this call; the result is the number of deposits that were credited.
unfoldable pub verify_static_deposit :
    ℕ → Text → (ℕ → ℕ × Text) → Option (List PixCredit) → ℕ → Bank → Outcome ℕ
unfolding verify_loop
verify_static_deposit now platform_key fresh credits k b = elim (find_user k b) [
  | none ↦ (raise user_not_found, b)
  | some u ↦
      let user_doc = keep_digits u.cpf_cnpj in
      if length user_doc == 0 then (raise no_document, b) else elim credits [
        | none ↦ (raise gateway_unavailable, b)
        | some ts ↦
            commit_rows b (verify_loop now platform_key k user_doc b.pix (name_all fresh 0 ts) b)
      ]
]
