-- ===== src/Pix/Create/Replay.antt =====
-- An idempotency key is answered once: `create_pix` called again returns the stored row and changes
-- nothing.
use payvorax.Base.{ℕ, ◌≡◌, inl, inr, true, false, Option, none, some, arith, Option-cases}
use payvorax.Base.Text.{Text, text_eq_refl}
use payvorax.Bank.{
  ok, TransactionType, User, PixTransaction, Payment, Bank, created, processing, scheduled, sent,
  received,
}
use payvorax.Fees.{calculate_pix_fee}
use payvorax.Pix.Create.{
  has_key, find_by_key, pix_row, payment_of, add_pix, add_dispatch, create_ledger_entry,
  enter_pending, dispatched_row, gateway_replied, dispatch, store_pix, create_external, sent_side,
  create_immediate, create_new, create_pix,
}
use payvorax.Pix.Request.{PixCreateRequest, PaymentReply, Context, accepted, refused}
use payvorax.Pix.Transfer.{find_recipient_user, execute_internal_transfer}
use payvorax.Bank.Money.{find_user}

module _ (key : Text) (tx : PixTransaction) (b' : Bank) where
  enter_pending-found :
      (p : PixTransaction) (b : Bank)
      → find_by_key key b ≡ some p
      → enter_pending p b ≡ (ok tx, b')
      → find_by_key key b' ≡ some tx
  unfolding enter_pending create_ledger_entry
  enter_pending-found p b h e = ground arith

  added-found :
      (p : PixTransaction) (b : Bank)
      → has_key key p ≡ true
      → enter_pending p (add_pix p b) ≡ (ok tx, b')
      → find_by_key key b' ≡ some tx
  added-found p b h e = enter_pending-found p (add_pix p b) (rw h) e

  gateway_replied-found :
      (r : PaymentReply) (p : PixTransaction) (b : Bank)
      → has_key key p ≡ true
      → gateway_replied r p b ≡ (ok tx, b')
      → find_by_key key b' ≡ some tx
  unfolding gateway_replied
  gateway_replied-found (accepted none none) p b h e = added-found (dispatched_row none p) b h e
  gateway_replied-found (accepted none (some ref)) p b h e =
      added-found (dispatched_row (some ref) p) b h e
  gateway_replied-found (accepted (some ref) other) p b h e =
      added-found (dispatched_row (some ref) p) b h e
  gateway_replied-found refused p b h e = cc

  dispatch-found :
      (g : Option (Payment → PaymentReply)) (p : PixTransaction) (b : Bank)
      → has_key key p ≡ true
      → dispatch g p b ≡ (ok tx, b')
      → find_by_key key b' ≡ some tx
  unfolding dispatch
  dispatch-found none p b h e = added-found (record p { status = processing }) b h e
  dispatch-found (some g) p b h e =
      gateway_replied-found (g (payment_of p)) p (add_dispatch (payment_of p) b) h e

  store_pix-found :
      (c : Context) (p : PixTransaction) (b : Bank)
      → has_key key p ≡ true
      → store_pix c p b ≡ (ok tx, b')
      → find_by_key key b' ≡ some tx
  unfolding store_pix
  store_pix-found c p b h e = ground (arith, dispatch-found c.gateway p b h, added-found p b h)

  create_external-found :
      (c : Context) (d : PixCreateRequest) (corr : ℕ) (s : User) (k : ℕ) (b : Bank)
      → create_external c d key corr s k b ≡ (ok tx, b')
      → find_by_key key b' ≡ some tx
  unfolding create_external
  create_external-found c d corr s k b e = ground (
    arith,
    store_pix-found c
        (pix_row c d key corr k sent created (calculate_pix_fee s.cpf_cnpj d.value true false)) b
        (text_eq_refl key),
  )

  transfer-found :
      (c : Context) (d : PixCreateRequest) (corr : ℕ) (s r : User) (b : Bank)
      → sent_side (execute_internal_transfer c s r d.value d.pix_key d.key_type key corr b)
        ≡ (ok tx, b')
      → find_by_key key b' ≡ some tx
  unfolding execute_internal_transfer
  transfer-found c d corr s r b e = ground (arith, text_eq_refl key)

  create_immediate-found :
      (c : Context) (d : PixCreateRequest) (corr k : ℕ) (s : User) (b : Bank)
      → create_immediate c d key corr k s b ≡ (ok tx, b')
      → find_by_key key b' ≡ some tx
  unfolding create_immediate
  create_immediate-found c d corr k s b e =
      elim (Option-cases (find_recipient_user d.pix_key d.key_type b)) [
        | inl outside ↦ create_external-found c d corr s k b (rw (outside, create_immediate) at e)
        | inr (r, inside) ↦ transfer-found c d corr s r b (rw (inside, create_immediate) at e)
      ]

  create_new-found :
      (c : Context) (d : PixCreateRequest) (corr k : ℕ) (type : TransactionType) (b : Bank)
      → create_new c d key corr k type b ≡ (ok tx, b')
      → find_by_key key b' ≡ some tx
  unfolding create_new
  create_new-found c d corr k received b e =
      store_pix-found c (pix_row c d key corr k received created 0) b (text_eq_refl key) e
  create_new-found c d corr k sent b e = elim (Option-cases d.scheduled_date) [
    | inr (at, later) ↦
        store_pix-found c (pix_row c d key corr k sent scheduled 0) b (text_eq_refl key)
          (rw (later, create_new) at e)
    | inl immediate ↦ elim (Option-cases (find_user k b)) [
      | inl missing ↦ ground (arith, immediate, missing)
      | inr (s, found) ↦
          create_immediate-found c d corr k s b (rw (immediate, create_new, found) at e)
    ]
  ]

  pub create_pix-found :
      (c : Context) (d : PixCreateRequest) (corr k : ℕ) (type : TransactionType) (b : Bank)
      → create_pix c d key corr k type b ≡ (ok tx, b')
      → find_by_key key b' ≡ some tx
  unfolding create_pix
  create_pix-found c d corr k type b e = elim (Option-cases (find_by_key key b)) [
    | inl new ↦ create_new-found c d corr k type b (rw (new, create_pix) at e)
    | inr (old, stored) ↦ ground (arith, stored)
  ]

  -- After a call of `create_pix` that returned a transaction, a second call with the same idempotency
  -- key, whatever else it asks for and whatever its surroundings, returns the same transaction, leaves
  -- every table as it is, and sends the gateway nothing.
  pub create_pix-replay :
      (c c' : Context) (d d' : PixCreateRequest) (corr corr' k k' : ℕ)
      (type type' : TransactionType) (b : Bank)
      → create_pix c d key corr k type b ≡ (ok tx, b')
      → create_pix c' d' key corr' k' type' b' ≡ (ok tx, b')
  unfolding create_pix
  create_pix-replay c c' d d' corr corr' k k' type type' b e =
      rw (create_pix-found c d corr k type b e, create_pix)
