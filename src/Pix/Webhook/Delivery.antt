-- ===== src/Pix/Webhook/Delivery.antt =====
-- Deliveries of events: again, after a payment was created, and after a manual confirmation.
use payvorax.Pix.Webhook.Inert.{
  decision_of, on_event-pix, deliver_all, AtMostOne, decision-settled, unsettled, IsInert,
  deliver_all-IsInert, settled_row-IsInert,
}
use payvorax.Pix.Request.{accepted, PixCreateRequest, Context, PaymentReply}
use payvorax.Base.{
  ℕ, ◌≡◌, refl, ap, ◌∙◌, true, some, arith, ◌+◌, sym, inl, inr, false, none, ap₂, Option, ==-refl,
  ◌-◌, subst, subst₂, List, Bool-cases,
}
use payvorax.Base.Query.{find_first, All}
use payvorax.Bank.{PixTransaction, Bank, processing, confirmed, ok, User, sent, fee_of, Payment}
use payvorax.Pix.Lifecycle.{with_status, find_pix, set_status, confirm_pix}
use payvorax.Pix.Webhook.{
  TransferEvent, find_transfer, on_event, process_transfer_event, transfer_done, by_correlation,
  Action,
}
use payvorax.Pix.Webhook.Events.{
  is_settled, settled_is_final, Completed, set_status-row, transfer_done-Debited,
}
use payvorax.Base.Int.{pos, ◌+ℤ◌, ◌-ℤ◌, ◌≤ℤ◌}
use payvorax.Base.Text.{Text}
use payvorax.Bank.Money.{find_user, with_balance, user_is}
use payvorax.Matrix.{get_matrix_user, is_matrix}
use payvorax.Matrix.Credit.{IsCustomer}
use payvorax.Pix.Create.{find_by_key, create_pix, payment_of}
use payvorax.Pix.Transfer.{find_recipient_user}
use payvorax.Pix.Create.Reserve.{
  OnItsWay, outbound_row, Reserves, create_pix-Reserves, replied_reference,
}
use payvorax.Fees.{platform_pix_outbound_network_fee}

-- Where the id in an event finds a transaction, by the row's own id or by the id that the dispatch
-- stored, its own id finds the same row, and at most one row on its way carries the id: after an event for it, of either kind, any
-- sequence of further events for the same id changes nothing, whatever the first one did.
pub redelivery_changes_nothing :
    (ev : TransferEvent) (es : List (TransferEvent × ℕ)) (now gid : ℕ) (p : PixTransaction)
    (b : Bank)
    → find_transfer gid b ≡ some p
    → find_pix p.id b ≡ some p
    → AtMostOne gid b
    → deliver_all gid es (process_transfer_event ev now gid b).1
      ≡ (process_transfer_event ev now gid b).1
redelivery_changes_nothing ev es now gid p b found row single =
    let b₁ = (process_transfer_event ev now gid b).1 in
    deliver_all-IsInert gid es b₁ (elim (Bool-cases (is_settled p.status)) [
      | inl final ↦
          let same = settled_is_final ev now gid p b found final in
          subst (IsInert gid) (sym same) (λ ev' now'. settled_is_final ev' now' gid p b found final)
      | inr open_status ↦
          let st = unsettled p.status open_status in
          let e : process_transfer_event ev now gid b ≡ on_event ev now p b =
            unfold process_transfer_event in rw (found, process_transfer_event) refl in
          settled_row-IsInert gid p b found row single (decision_of now gid p b ev) b₁
            (decision-settled now gid p b ev)
            (ap (λ (o : Action × Bank). o.1.pix) e ∙ on_event-pix now gid p b ev st)
    ])

-- `confirm_pix` on a transaction on its way, which its own id finds and the id in the gateway's events
-- finds too, where at most one row on its way carries that id: the row is then `CONFIRMED`, and no sequence of the gateway's
-- events for that id changes anything any more, so that no balance is ever debited for it and its
-- ledger entries stay as they were.
pub confirmed_by_hand_is_never_debited :
    (es : List (TransferEvent × ℕ)) (gid : ℕ) (p : PixTransaction) (b : Bank)
    → find_transfer gid b ≡ some p
    → find_pix p.id b ≡ some p
    → AtMostOne gid b
    → p.status ≡ processing
    → let b' = deliver_all gid es (confirm_pix p.id b).1 in
      (find_pix p.id b' ≡ some (with_status confirmed p))
      × (b'.users ≡ b.users)
      × (b'.ledger ≡ b.ledger)
confirmed_by_hand_is_never_debited es gid p b found row single st =
    let b₁ = set_status p.id confirmed b in
    let e : (confirm_pix p.id b).1 ≡ b₁ = unfold confirm_pix in ground arith in
    let same : deliver_all gid es (confirm_pix p.id b).1 ≡ b₁ =
      ap (deliver_all gid es) e
      ∙ deliver_all-IsInert gid es b₁
          (settled_row-IsInert gid p b found row single confirmed b₁ refl refl) in
    (
      ap (λ x. find_pix p.id x) same ∙ set_status-row confirmed p b row,
      ap (λ (x : Bank). x.users) same,
      ap (λ (x : Bank). x.ledger) same,
    )

module _ (p tx : PixTransaction) (b b' : Bank) (w : OnItsWay p tx b b') where
  fee_on_way : fee_of tx ≡ fee_of p
  fee_on_way = ap (λ (f : Option ℕ). elim f [ none ↦ 0 | some x ↦ x ]) w.fee_amount

  amount_on_way : tx.value + fee_of tx ≡ p.value + fee_of p
  amount_on_way = ap₂ (λ x y. x + y) w.value fee_on_way

  row_on_way : find_pix tx.id b' ≡ some tx
  row_on_way = rw (w.pix, ==-refl tx.id)

  found_on_way :
      (payment_id : ℕ)
      → tx.correlation_id ≡ payment_id
      → p.type ≡ sent
      → find_pix payment_id b' ≡ none
      → find_transfer payment_id b' ≡ some tx
  unfolding find_transfer
  found_on_way payment_id known t missing =
      let head : by_correlation payment_id tx ≡ true =
        rw (known, w.type, t, w.status, ==-refl payment_id) refl in
      let first : find_first (by_correlation payment_id) b'.pix ≡ some tx = rw (w.pix, head) refl in
      ground (arith, missing, first)

-- An external payment from its request to the gateway's confirmation: with a fresh idempotency key and
-- no date, from a customer to a key that no account has, where the platform has an account. Where
-- `create_pix` has returned the row of such a payment, the gateway's reply having named the payment by
-- an id and given no `end_to_end_id`, and the gateway then reports the transfer of that id, which is no
-- row's own id, as done: the sender's balance falls by exactly the value and the fee of R$4.00, the
-- platform's rises by R$1.00, and the row is confirmed with no ledger entry of it pending.
pub created_then_done :
    (c : Context) (d : PixCreateRequest) (key : Text) (corr k now payment_id : ℕ) (u m : User)
    (g : Payment → PaymentReply) (b : Bank) (tx : PixTransaction) (b' : Bank)
    → find_by_key key b ≡ none
    → d.scheduled_date ≡ none
    → find_user k b ≡ some u
    → find_recipient_user d.pix_key d.key_type b ≡ none
    → get_matrix_user b ≡ some m
    → IsCustomer k b
    → c.gateway ≡ some g
    → g (payment_of (outbound_row c d key corr k)) ≡ accepted none (some payment_id)
    → create_pix c d key corr k sent b ≡ (ok tx, b')
    → find_pix payment_id b' ≡ none
    → let b'' = (process_transfer_event transfer_done now payment_id b').1 in
      Completed confirmed tx b''
      × (find_user k b'' ≡ some (with_balance (u.balance -ℤ pos (d.value + 400)) u))
      × (pos (d.value + 400) ≤ℤ u.balance)
      × (get_matrix_user b'' ≡ some (with_balance (m.balance +ℤ pos 100) m))
created_then_done c d key corr k now payment_id u m g b tx b' fresh immediate found outside platform
      apart gateway reply made no_row =
    let (w, covered, _, _, _, known) =
      subst (Reserves c d key corr k u b) made
        (create_pix-Reserves c d key corr k u b fresh immediate found outside) in
    let new = outbound_row c d key corr k in
    let amount = amount_on_way new tx b b' w in
    let row = row_on_way new tx b b' w in
    let id : tx.correlation_id ≡ payment_id =
      known ∙ rw gateway (ap (replied_reference new.correlation_id) reply) in
    let matched = found_on_way new tx b b' w payment_id id refl no_row in
    let (done, debited) =
      transfer_done-Debited now payment_id tx b' u m matched row w.status w.type
        (ap (λ i. find_user i b') w.user_id ∙ ap (λ us. find_first (user_is k) us) w.users ∙ found)
        (ap (λ us. find_first is_matrix us) w.users ∙ platform)
        (subst₂ (λ i us. All (λ (x : User). is_matrix x ≡ true → user_is i x ≡ false) us)
          (sym w.user_id) (sym w.users) apart)
        (omega (arith, amount, covered)) in
    let b'' = (process_transfer_event transfer_done now payment_id b').1 in
    (
      done,
      ap (λ i. find_user i b'') (sym w.user_id)
          ∙ debited.sender
          ∙ ap (λ n. some (with_balance (u.balance -ℤ pos n) u)) amount,
      omega (arith, covered),
      debited.platform
          ∙ ap
              (λ n.
                some (with_balance (m.balance +ℤ pos (n - platform_pix_outbound_network_fee)) m))
              (fee_on_way new tx b b' w),
    )
