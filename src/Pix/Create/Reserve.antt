-- ===== src/Pix/Create/Reserve.antt =====
-- An external transfer reserves its value and fee out of the available balance; the balance itself
-- is debited later, by the gateway's event.
use payvorax.Base.{
  ◌≡◌, Option, none, some, ◌∷◌, arith, ℕ, ◌+◌, ◌≤◌, refl, ◌⊎◌, true, false, inr, inl, ltb,
  Bool-cases, sym, subst,
}
use payvorax.Bank.{
  Error, gateway_refused, ok, raise, PixTransaction, Payment, Bank, processing, failed, sent,
  Outcome, User, fee_of, created, insufficient_funds, daily_limit,
}
use payvorax.Pix.Create.{
  pending_debit, create_ledger_entry, enter_pending, gateway_replied, dispatch, daily_send_limit,
  pix_row, payment_of, add_dispatch, store_pix, find_by_key, create_external, create_immediate,
  create_new, create_pix,
}
use payvorax.Pix.Request.{PaymentReply, accepted, refused, PixCreateRequest, Context}
use payvorax.Base.Int.{pos, ◌≤ℤ◌, pos_part, ◌-ℤ◌}
use payvorax.Base.Text.{Text}
use payvorax.Bank.Money.{pending_outbound, get_daily_sent_total, find_user, get_available_balance}
use payvorax.Fees.{calculate_pix_outbound_fee, calculate_pix_fee}
use payvorax.Pix.Transfer.{find_recipient_user}

-- The row `tx` was put on its way for the new row `p`.
pub record OnItsWay (p tx : PixTransaction) (b b' : Bank) : Type 0 where
  pub status : tx.status ≡ processing
  pub type : tx.type ≡ p.type
  pub user_id : tx.user_id ≡ p.user_id
  pub value : tx.value ≡ p.value
  pub fee_amount : tx.fee_amount ≡ p.fee_amount
  pub created_at : tx.created_at ≡ p.created_at
  pub idempotency_key : tx.idempotency_key ≡ p.idempotency_key
  pub users : b'.users ≡ b.users
  pub pix : b'.pix ≡ tx ∷ b.pix
  pub ledger : b'.ledger ≡ pending_debit tx ∷ b.ledger

-- A refusal leaves a row in the status `FAILED` and nothing else.
pub record Refused (p : PixTransaction) (b b' : Bank) : Type 0 where
  pub users : b'.users ≡ b.users
  pub pix : b'.pix ≡ record p { status = failed } ∷ b.pix
  pub ledger : b'.ledger ≡ b.ledger

module _ (p tx : PixTransaction) (b' : Bank) (outbound : p.type ≡ sent) where
  gateway_replied-OnItsWay :
      (r : PaymentReply) (b : Bank) → gateway_replied r p b ≡ (ok tx, b') → OnItsWay p tx b b'
  unfolding gateway_replied enter_pending create_ledger_entry
  gateway_replied-OnItsWay (accepted none none) b e = ground arith
  gateway_replied-OnItsWay (accepted none (some id)) b e = ground arith
  gateway_replied-OnItsWay (accepted (some id) other) b e = ground arith
  gateway_replied-OnItsWay refused b e = cc

  dispatch-OnItsWay :
      (g : Option (Payment → PaymentReply)) (b : Bank)
      → dispatch g p b ≡ (ok tx, b')
      → OnItsWay p tx b b'
  unfolding dispatch enter_pending create_ledger_entry
  dispatch-OnItsWay none b e = ground arith
  dispatch-OnItsWay (some g) b e =
      let w = gateway_replied-OnItsWay (g (payment_of p)) (add_dispatch (payment_of p) b) e in
      record {
        status = w.status;
        type = w.type;
        user_id = w.user_id;
        value = w.value;
        fee_amount = w.fee_amount;
        created_at = w.created_at;
        idempotency_key = w.idempotency_key;
        users = w.users;
        pix = w.pix;
        ledger = w.ledger;
      }

-- The id under which the gateway knows the transfer, as far as the row keeps it.
abbrev pub replied_reference : ℕ → PaymentReply → ℕ
replied_reference kept (accepted (some end_to_end_id) payment_id) = end_to_end_id
replied_reference kept (accepted none (some payment_id)) = payment_id
replied_reference kept (accepted none none) = kept
replied_reference kept refused = kept

abbrev pub gateway_reference : Option (Payment → PaymentReply) → PixTransaction → ℕ
gateway_reference none p = p.correlation_id
gateway_reference (some g) p = replied_reference p.correlation_id (g (payment_of p))

module _ (p tx : PixTransaction) (b' : Bank) where
  gateway_replied-reference :
      (r : PaymentReply) (b : Bank)
      → gateway_replied r p b ≡ (ok tx, b')
      → tx.correlation_id ≡ replied_reference p.correlation_id r
  unfolding gateway_replied enter_pending
  gateway_replied-reference (accepted none none) b e = ground arith
  gateway_replied-reference (accepted none (some id)) b e = ground arith
  gateway_replied-reference (accepted (some id) other) b e = ground arith
  gateway_replied-reference refused b e = cc

  dispatch-reference :
      (g : Option (Payment → PaymentReply)) (b : Bank)
      → dispatch g p b ≡ (ok tx, b')
      → tx.correlation_id ≡ gateway_reference g p
  unfolding dispatch enter_pending
  dispatch-reference none b e = ground arith
  dispatch-reference (some g) b e =
      gateway_replied-reference (g (payment_of p)) (add_dispatch (payment_of p) b) e

module _ (p : PixTransaction) (b' : Bank) (e : Error) where
  gateway_replied-Refused :
      (r : PaymentReply) (b : Bank)
      → gateway_replied r p b ≡ (raise e, b')
      → (e ≡ gateway_refused) × Refused p b b'
  unfolding gateway_replied enter_pending
  gateway_replied-Refused (accepted end_to_end_id payment_id) b h = ground arith
  gateway_replied-Refused refused b h = ground arith

  dispatch-Refused :
      (g : Option (Payment → PaymentReply)) (b : Bank)
      → dispatch g p b ≡ (raise e, b')
      → (e ≡ gateway_refused) × Refused p b b'
  unfolding dispatch enter_pending
  dispatch-Refused none b h = ground arith
  dispatch-Refused (some g) b h =
      let (why, w) = gateway_replied-Refused (g (payment_of p)) (add_dispatch (payment_of p) b) h in
      (why, record { users = w.users; pix = w.pix; ledger = w.ledger })

-- The fee of an external transfer, and the row that it stores.
outbound_fee : (s : User) (value : ℕ) → calculate_pix_fee s.cpf_cnpj value true false ≡ 400
unfolding calculate_pix_fee calculate_pix_outbound_fee
outbound_fee s value = refl

abbrev pub outbound_row : Context → PixCreateRequest → Text → ℕ → ℕ → PixTransaction
outbound_row c d key corr k = pix_row c d key corr k sent created 400

-- What an attempt at an external transfer of user `k` has done, by how it ended. `u` is the row of
-- the user before it.
abbrev pub Reserves :
    Context → PixCreateRequest → Text → ℕ → ℕ → User → Bank → Outcome PixTransaction → Type 0
Reserves c d key corr k u b (ok tx, b') =
    OnItsWay (outbound_row c d key corr k) tx b b'
    × (pos (pending_outbound k b + d.value + 400) ≤ℤ u.balance)
    × (pending_outbound k b' ≡ pending_outbound k b + d.value + 400)
    × (get_daily_sent_total c.now k b' ≡ get_daily_sent_total c.now k b + d.value + 400)
    × (get_daily_sent_total c.now k b' ≤ daily_send_limit)
    × (tx.correlation_id ≡ gateway_reference c.gateway (outbound_row c d key corr k))
Reserves c d key corr k u b (raise e, b') =
    (b' ≡ b) ⊎ (e ≡ gateway_refused) × Refused (outbound_row c d key corr k) b b'

module _ (k : ℕ) (p tx : PixTransaction) (b b' : Bank) where
  pending_outbound-OnItsWay :
      p.type ≡ sent
      → p.user_id ≡ k
      → OnItsWay p tx b b'
      → pending_outbound k b' ≡ pending_outbound k b + p.value + fee_of p
  unfolding pending_outbound
  pending_outbound-OnItsWay t own w = rw (w.pix, w.type, t, w.user_id, own, w.status) (ground arith)

  get_daily_sent_total-OnItsWay :
      p.type ≡ sent
      → p.user_id ≡ k
      → OnItsWay p tx b b'
      → get_daily_sent_total p.created_at k b'
        ≡ get_daily_sent_total p.created_at k b + p.value + fee_of p
  unfolding get_daily_sent_total
  get_daily_sent_total-OnItsWay t own w =
      rw (w.pix, w.type, t, w.user_id, own, w.status, w.created_at) (ground arith)

module _ (c : Context) (d : PixCreateRequest) (key : Text) (corr k : ℕ) (u : User) (b : Bank) where
  abbrev row : PixTransaction
  row = outbound_row c d key corr k

  stored-Reserves :
      (o : Outcome PixTransaction)
      → store_pix c row b ≡ o
      → pos (pending_outbound k b + d.value + 400) ≤ℤ u.balance
      → get_daily_sent_total c.now k b + d.value + 400 ≤ daily_send_limit
      → Reserves c d key corr k u b o
  unfolding store_pix
  stored-Reserves (ok tx, b') e covered within =
      let w = dispatch-OnItsWay row tx b' refl c.gateway b e in
      (
        w,
        covered,
        pending_outbound-OnItsWay k row tx b b' refl refl w,
        get_daily_sent_total-OnItsWay k row tx b b' refl refl w,
        omega (arith, get_daily_sent_total-OnItsWay k row tx b b' refl refl w),
        dispatch-reference row tx b' c.gateway b e,
      )
  stored-Reserves (raise x, b') e covered within = inr (dispatch-Refused row b' x c.gateway b e)

  covered_by_available :
      ltb (pos_part (u.balance -ℤ pos (pending_outbound k b))) (d.value + 400) ≡ false
      → pos (pending_outbound k b + d.value + 400) ≤ℤ u.balance
  unfolding ◌-ℤ◌
  covered_by_available h = ground arith

  pub create_external-Reserves :
      find_user k b ≡ some u → Reserves c d key corr k u b (create_external c d key corr u k b)
  unfolding create_external get_available_balance calculate_pix_fee calculate_pix_outbound_fee
  create_external-Reserves found =
      let short = ltb (pos_part (u.balance -ℤ pos (pending_outbound k b))) (d.value + 400) in
      let over = ltb daily_send_limit (get_daily_sent_total c.now k b + (d.value + 400)) in
      elim (Bool-cases short) [
        | inl refused_funds ↦
            let e : create_external c d key corr u k b ≡ (raise insufficient_funds, b) =
              ground arith in
            subst (Reserves c d key corr k u b) (sym e) (inl refl)
        | inr covered ↦ elim (Bool-cases over) [
          | inl refused_limit ↦
              let e : create_external c d key corr u k b ≡ (raise daily_limit, b) = ground arith in
              subst (Reserves c d key corr k u b) (sym e) (inl refl)
          | inr within ↦
              let e : create_external c d key corr u k b ≡ store_pix c row b = ground arith in
              subst (Reserves c d key corr k u b) (sym e) (
                stored-Reserves (store_pix c row b) refl (covered_by_available covered)
                  (ground arith))
        ]
      ]

  -- A payment by a user to a key that no account of the platform has, with no date and a fresh
  -- idempotency key. If it goes through, the row is stored with the status `PROCESSING` and a
  -- pending ledger entry over its value and fee; the user's balance covers all pending transfers
  -- together with this one, which now count its value and fee; the total sent today has grown by as
  -- much and is within the daily limit; and no user's row has changed. If it raises, nothing has
  -- changed, or the gateway has refused it and a row with the status `FAILED` is all that was added.
  pub create_pix-Reserves :
      find_by_key key b ≡ none
      → d.scheduled_date ≡ none
      → find_user k b ≡ some u
      → find_recipient_user d.pix_key d.key_type b ≡ none
      → Reserves c d key corr k u b (create_pix c d key corr k sent b)
  unfolding create_pix create_new create_immediate
  create_pix-Reserves fresh immediate found outside =
      let e : create_pix c d key corr k sent b ≡ create_external c d key corr u k b =
        ground arith in
      subst (Reserves c d key corr k u b) (sym e) (create_external-Reserves found)
