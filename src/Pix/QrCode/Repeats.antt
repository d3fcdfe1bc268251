-- ===== src/Pix/QrCode/Repeats.antt =====
-- `pay_pix_qrcode`: a code that has been paid is not paid again.
use payvorax.Pix.QrCode.{
  QrRequest, QrReply, QrContext, idempotency_key, Looked, is_open_charge,
  find_internal_qrcode_charge, charge_open, already_paid, not_internal,
}
use payvorax.Base.{
  ℕ, ◌+◌, ◌≡◌, sym, subst₂, ◌∙◌, inl, inr, true, false, Option, none, some, List, [], ◌∷◌, arith,
  ltb, ◌==◌, ==_iff, Bool-cases, Option-cases, if-holds, option-holds, ap, Bool, map, take,
}
use payvorax.Base.Int.{pos, ◌-ℤ◌, ltb_ℤ}
use payvorax.Base.Text.{Text, strip, text_eq, to_upper}
use payvorax.Base.Query.{find_first, find_first-holds}
use payvorax.Bank.Money.{user_is, find_user, get_available_balance}
use payvorax.Bank.{Outcome, result-holds, ok, raise, User, PixTransaction, Bank, sent}
use payvorax.Emv.{validate_pix_crc, crc16_ccitt, split_last}
use payvorax.Emv.TopLevel.{parse_emv_value}
use payvorax.Fees.{pix_maintenance_fee, calculate_pix_fee}
use payvorax.Pix.Create.{find_by_key, add_dispatch, create_ledger_entry}
use payvorax.Pix.QrCode.External.{
  client_sent, provisional_row, qr_payment, payment_value, accepted_row, qr_replied, qr_dispatch,
  qr_to_gateway, preflight_total, pay_external,
}
use payvorax.Pix.QrCode.Internal.{
  internal_row, settle_internal, debit_payer, pay_other, pay_internal,
}
use payvorax.Pix.QrCode.Open.{IsOpen, sent_is_not_open, find_internal_qrcode_charge-IsOpen}
use payvorax.Pix.QrCode.Pay.{same_payload, find_duplicate, pay_looked, pay_screened, pay_pix_qrcode}
use payvorax.Pix.Screen.{screen_antifraud}

-- A payment that has made a row: it is on its way or done, is `k`'s, carries the code's digest and
-- stands among the rows.
abbrev HasPaid : ℕ → ℕ → Option (Outcome PixTransaction) → Type 0
HasPaid k hash none = Unit
HasPaid k hash (some (raise e, b')) = Unit
HasPaid k hash (some (ok p, b')) = p.type ≡ sent → find_first (same_payload k hash) b'.pix ≡ some p

head-same_payload :
    (k hash : ℕ) (p : PixTransaction) (ps : List PixTransaction)
    → same_payload k hash p ≡ true
    → find_first (same_payload k hash) (p ∷ ps) ≡ some p
head-same_payload k hash p ps h = ground (arith, h)

module _ (c : QrContext) (d : QrRequest) (sender : User) where
  other-HasPaid :
      (charge : PixTransaction) (b : Bank)
      → HasPaid sender.id d.payload_hash (some (pay_other c d charge sender b))
  unfolding pay_other
  other-HasPaid charge b =
      let row = internal_row c d charge sender in
      let paid = settle_internal charge (debit_payer sender charge b) in
      let total = charge.value + pix_maintenance_fee in
      if-holds (λ o. HasPaid sender.id d.payload_hash (some o)) (ltb_ℤ sender.balance (pos total)) _
        _ (λ _. tt)
        (λ _.
          if-holds (λ o. HasPaid sender.id d.payload_hash (some o))
            (ltb_ℤ (sender.balance -ℤ pos total) (pos 0)) _ _ (λ _. tt)
            (λ _ _. head-same_payload sender.id d.payload_hash row paid.pix (ground arith)))

  replied-HasPaid :
      (r : QrReply) (emv_value : ℕ) (b : Bank)
      → HasPaid sender.id d.payload_hash
          (some (qr_replied r sender emv_value (provisional_row c d sender emv_value) b))
  unfolding qr_replied create_ledger_entry
  replied-HasPaid r emv_value b =
      let value = payment_value r emv_value in
      let fee = calculate_pix_fee sender.cpf_cnpj value true false in
      let row = accepted_row r value fee (provisional_row c d sender emv_value) in
      if-holds (λ o. HasPaid sender.id d.payload_hash (some o)) (value == 0) _ _ (λ _. tt)
        (λ _.
          result-holds (λ o. HasPaid sender.id d.payload_hash (some o))
            (get_available_balance sender.id b) _ _ (λ _ _. tt)
            (λ available _.
              if-holds (λ o. HasPaid sender.id d.payload_hash (some o))
                (ltb available (value + fee)) _ _ (λ _. tt)
                (λ _ _. head-same_payload sender.id d.payload_hash row b.pix (ground arith))))

  dispatched-HasPaid :
      (g : QrRequest → Text → Option QrReply) (emv_value : ℕ) (b : Bank)
      → HasPaid sender.id d.payload_hash (some (qr_dispatch g c d sender emv_value b))
  unfolding qr_dispatch
  dispatched-HasPaid g emv_value b =
      option-holds (λ o. HasPaid sender.id d.payload_hash (some o)) (g d (idempotency_key c d)) _ _
        (λ _. tt) (λ r _. replied-HasPaid r emv_value (add_dispatch (qr_payment c d) b))

  to_gateway-HasPaid :
      (emv_value : ℕ) (b : Bank)
      → HasPaid sender.id d.payload_hash (some (qr_to_gateway c d sender emv_value b))
  unfolding qr_to_gateway
  to_gateway-HasPaid emv_value b =
      option-holds (λ o. HasPaid sender.id d.payload_hash (some o)) c.pay_qr_code _ _ (λ _. tt)
        (λ g _.
          if-holds (λ o. HasPaid sender.id d.payload_hash (some o)) c.use_sandbox _ _ (λ _. tt)
            (λ _. dispatched-HasPaid g emv_value b))

  external-HasPaid :
      (emv_value : ℕ) (b : Bank)
      → HasPaid sender.id d.payload_hash (some (pay_external c d sender emv_value b))
  unfolding pay_external
  external-HasPaid emv_value b =
      result-holds (λ o. HasPaid sender.id d.payload_hash (some o))
        (get_available_balance sender.id b) _ _ (λ _ _. tt)
        (λ available _.
          if-holds (λ o. HasPaid sender.id d.payload_hash (some o))
            (ltb available (preflight_total sender emv_value)) _ _ (λ _. tt)
            (λ _. to_gateway-HasPaid emv_value b))

  internal-HasPaid :
      (charge : PixTransaction) (b : Bank)
      → is_open_charge charge ≡ true
      → HasPaid sender.id d.payload_hash (some (pay_internal c d charge sender b))
  unfolding pay_internal
  internal-HasPaid charge b h =
      option-holds (λ o. HasPaid sender.id d.payload_hash (some o)) (find_user charge.user_id b) _ _
        (λ _. tt)
        (λ receiver _.
          if-holds (λ o. HasPaid sender.id d.payload_hash (some o)) (charge.user_id == sender.id) _
            _ (λ _ out. absurd (sent_is_not_open charge out h)) (λ _. other-HasPaid charge b))

  looked-HasPaid :
      (fuel : ℕ) (found : Looked) (b : Bank)
      → IsOpen found
      → HasPaid sender.id d.payload_hash (pay_looked c d fuel sender found b)
  unfolding pay_looked
  looked-HasPaid fuel already_paid b h = tt
  looked-HasPaid fuel (charge_open charge) b h = internal-HasPaid charge b h
  looked-HasPaid fuel not_internal b h =
      option-holds (HasPaid sender.id d.payload_hash) (parse_emv_value c.float_of fuel d.payload) _
        _ (λ _. tt) (λ emv_value _. external-HasPaid emv_value b)

  screened-HasPaid :
      (fuel : ℕ) (b : Bank) → HasPaid sender.id d.payload_hash (pay_screened c d fuel sender b)
  unfolding pay_screened
  screened-HasPaid fuel b =
      let routed =
        looked-HasPaid fuel (find_internal_qrcode_charge d b) b
          (find_internal_qrcode_charge-IsOpen d b) in
      if-holds (HasPaid sender.id d.payload_hash) (client_sent d == 0) _ _ (λ _. routed)
        (λ _.
          option-holds (HasPaid sender.id d.payload_hash)
            (screen_antifraud c.now c.hour (client_sent d) sender.id b) _ _ (λ _. routed)
            (λ _ _. tt))

-- Where the user's own payment of the same code stands among the rows, the call finds a duplicate.
duplicate-found :
    (d : QrRequest) (key : Option Text) (k hash : ℕ) (p : PixTransaction) (b : Bank)
    → find_first (same_payload k hash) b.pix ≡ some p
    → (q : PixTransaction) × (find_duplicate
          (record d { header_key = key; payload_hash = hash })
          k
          b
        ≡ some q)
duplicate-found d none k hash p b h = (p, h)
duplicate-found d (some []) k hash p b h = (p, h)
duplicate-found d (some (x ∷ s)) k hash p b h = elim (Option-cases (find_by_key (x ∷ s) b)) [
  | inl missing ↦ (p, ground (arith, missing, h))
  | inr (q, found) ↦ (q, ground (arith, found))
]

module _ (c : QrContext) (d : QrRequest) (fuel k : ℕ) (p : PixTransaction) (b b' : Bank)
    (paid : pay_pix_qrcode c d fuel k b ≡ some (ok p, b')) where
  accepted_checksum : validate_pix_crc d.payload ≡ true
  unfolding pay_pix_qrcode
  accepted_checksum = elim (Bool-cases (validate_pix_crc d.payload)) [
    | inl valid ↦ valid
    | inr invalid ↦ absurd (ground (arith, paid, invalid))
  ]

  accepted_row_stands :
      find_duplicate d k b ≡ none
      → p.type ≡ sent
      → find_first (same_payload k d.payload_hash) b'.pix ≡ some p
  unfolding pay_pix_qrcode
  accepted_row_stands new out = elim (Option-cases (find_user k b)) [
    | inl missing ↦ absurd (ground (arith, paid, accepted_checksum, new, missing))
    | inr (sender, found) ↦
        let e : pay_pix_qrcode c d fuel k b ≡ pay_screened c d fuel sender b =
          ground (arith, accepted_checksum, new, found) in
        let same : k ≡ sender.id =
          (==_iff k sender.id).0 (find_first-holds (user_is k) b.users sender found) in
        subst₂ (λ j o. HasPaid j d.payload_hash o) (sym same) (sym e ∙ paid)
          (screened-HasPaid c d sender fuel b) out
  ]

same_checksum :
    (d' d : QrRequest)
    → strip d'.payload ≡ strip d.payload
    → validate_pix_crc d'.payload ≡ validate_pix_crc d.payload
unfolding validate_pix_crc
same_checksum d' d h =
    ap
      (λ s. elim (split_last s) as (λ _. Bool) [
        | none ↦ true
        | some (body, after) ↦ text_eq (map to_upper (take 4 after)) (crc16_ccitt body)
      ])
      h

-- Right after a payment of a code that has made an outbound row, the same user's payment of the same
-- code, with any idempotency key and in any later context, finds a row of an earlier payment
-- (`find_duplicate`), answers with it and changes nothing.
pub paid_code_is_not_paid_again :
    (c c' : QrContext) (d d' : QrRequest) (fuel fuel' k : ℕ) (p : PixTransaction) (b b' : Bank)
    → pay_pix_qrcode c d fuel k b ≡ some (ok p, b')
    → find_duplicate d k b ≡ none
    → p.type ≡ sent
    → strip d'.payload ≡ strip d.payload
    → d'.payload_hash ≡ d.payload_hash
    → (q : PixTransaction) × (find_duplicate d' k b' ≡ some q)
      × (pay_pix_qrcode c' d' fuel' k b' ≡ some (ok q, b'))
unfolding pay_pix_qrcode
paid_code_is_not_paid_again c c' d d' fuel fuel' k p b b' paid new out same same_hash =
    let there = accepted_row_stands c d fuel k p b b' paid new out in
    let there' = ap (λ h. find_first (same_payload k h) b'.pix) same_hash ∙ there in
    let again = duplicate-found d' d'.header_key k d'.payload_hash p b' there' in
    let valid = same_checksum d' d same ∙ accepted_checksum c d fuel k p b b' paid in
    (again.0, again.1, ground (arith, valid, again.1))
