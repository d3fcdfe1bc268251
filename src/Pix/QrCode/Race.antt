-- ===== src/Pix/QrCode/Race.antt =====
-- The polling of `pay_pix_qrcode` and the transfer events, on the same payment.
use payvorax.Pix.Webhook.{
  TransferEvent, credit_margin, process_transfer_event, Action, on_event, transfer_done,
  transfer_failed,
}
use payvorax.Base.{
  ℕ, ◌≡◌, refl, ap, ◌∙◌, Bool, true, false, some, List, [], ◌∷◌, arith, ltb, if◌then◌else◌,
  if-holds, option-holds, sym, inl, inr, ◌++◌, Bool-cases,
}
use payvorax.Bank.Money.{find_user}
use payvorax.Bank.{PixTransaction, Bank, fee_of, processing, failed, PixStatus, confirmed}
use payvorax.Pix.Lifecycle.{
  find_pix, settle_ledger_entries, reverse_ledger_entries, pix_is, with_status, set_status,
}
use payvorax.Pix.QrCode.External.{
  PollAnswer, debit_inline, poll_round, poll_confirmed, poll_failed, poll_other, poll_error,
  inline_confirmed,
}
use payvorax.Pix.Webhook.Debit.{pix-credit_fee}
use payvorax.Pix.Webhook.Events.{is_settled, settled_is_final}
use payvorax.Base.Query.{find_first, update_first, find_first-holds, find_first-update_self, All}
use payvorax.Pix.Webhook.Inert.{found_by_id, same_id, first_delivery, decision_of}

-- What may decide about a payment: an event of the gateway, or a round of the polling.
pub data Step : Type 0 where
  by_event : TransferEvent → Step
  by_poll : PollAnswer → Step

-- One step for the payment `id` of user `k`.
abbrev perform_step : ℕ → ℕ → ℕ → Step → Bank → Bank
perform_step now id k (by_event ev) b = (process_transfer_event ev now id b).1
perform_step now id k (by_poll a) b = poll_round now k id a b

abbrev pub perform_steps : ℕ → ℕ → ℕ → List Step → Bank → Bank
perform_steps now id k [] b = b
perform_steps now id k (s ∷ ss) b = perform_steps now id k ss (perform_step now id k s b)

abbrev decides : Step → Bool
decides (by_event ev) = true
decides (by_poll (poll_confirmed ref)) = true
decides (by_poll poll_failed) = true
decides (by_poll poll_other) = false
decides (by_poll poll_error) = false

-- Only the first deciding step is performed.
abbrev pub first_decision : ℕ → ℕ → ℕ → List Step → Bank → Bank
first_decision now id k [] b = b
first_decision now id k (s ∷ ss) b =
    let rest = first_decision now id k ss b in if decides s then perform_step now id k s b else rest

-- The status that a deciding step gives to the payment.
abbrev pub verdict : Step → PixStatus
verdict (by_event transfer_done) = confirmed
verdict (by_event transfer_failed) = failed
verdict (by_poll (poll_confirmed ref)) = confirmed
verdict (by_poll poll_failed) = failed
verdict (by_poll poll_other) = processing
verdict (by_poll poll_error) = processing

module _ (now id k : ℕ) where
  pub pix-debit_inline : (p : PixTransaction) (b : Bank) → (debit_inline k p b).pix ≡ b.pix
  unfolding debit_inline credit_margin
  pix-debit_inline p b =
      option-holds (λ (x : Bank). x.pix ≡ b.pix) (find_user k b) _ _ (λ _. refl)
        (λ u _.
          if-holds (λ (x : Bank). x.pix ≡ b.pix) (ltb 300 (fee_of p)) _ _
            (λ _. (pix-credit_fee _ _).0) (λ _. refl))

  settled_stays :
      (s : Step) (q : PixTransaction) (b : Bank)
      → find_pix id b ≡ some q
      → is_settled q.status ≡ true
      → perform_step now id k s b ≡ b
  unfolding poll_round
  settled_stays (by_event ev) q b found st =
      settled_is_final ev now id q b (found_by_id now id q b found) st
  settled_stays (by_poll (poll_confirmed ref)) q b found st = ground (arith, found, st)
  settled_stays (by_poll poll_failed) q b found st = ground (arith, found, st)
  settled_stays (by_poll poll_other) q b found st = refl
  settled_stays (by_poll poll_error) q b found st = refl

  undecided_stays : (s : Step) (b : Bank) → decides s ≡ false → perform_step now id k s b ≡ b
  unfolding poll_round
  undecided_stays (by_event ev) b h = absurd (cc h)
  undecided_stays (by_poll (poll_confirmed ref)) b h = absurd (cc h)
  undecided_stays (by_poll poll_failed) b h = absurd (cc h)
  undecided_stays (by_poll poll_other) b h = refl
  undecided_stays (by_poll poll_error) b h = refl

  settled_is_left :
      (ss : List Step) (q : PixTransaction) (b : Bank)
      → find_pix id b ≡ some q
      → is_settled q.status ≡ true
      → perform_steps now id k ss b ≡ b
  settled_is_left [] q b found st = refl
  settled_is_left (s ∷ ss) q b found st =
      ap (perform_steps now id k ss) (settled_stays s q b found st)
      ∙ settled_is_left ss q b found st

  event_verdict :
      (ev : TransferEvent) (p : PixTransaction) (b : Bank)
      → decision_of now id p b ev ≡ verdict (by_event ev)
  event_verdict transfer_done p b = refl
  event_verdict transfer_failed p b = refl

  verdict-settled :
      (s : Step) (q : PixTransaction)
      → decides s ≡ true
      → q.status ≡ verdict s
      → is_settled q.status ≡ true
  verdict-settled (by_event transfer_done) q h e = rw e refl
  verdict-settled (by_event transfer_failed) q h e = rw e refl
  verdict-settled (by_poll (poll_confirmed ref)) q h e = rw e refl
  verdict-settled (by_poll poll_failed) q h e = rw e refl
  verdict-settled (by_poll poll_other) q h e = absurd (cc h)
  verdict-settled (by_poll poll_error) q h e = absurd (cc h)

  -- What a deciding step leaves under the id: the row with the status that the step says.
  decided :
      (s : Step) (p : PixTransaction) (b : Bank)
      → find_pix id b ≡ some p
      → p.status ≡ processing
      → decides s ≡ true
      → (q : PixTransaction) × (find_pix id (perform_step now id k s b) ≡ some q)
        × (q.status ≡ verdict s)
  unfolding poll_round settle_ledger_entries reverse_ledger_entries
  decided (by_event ev) p b found st h =
      let e : process_transfer_event ev now id b ≡ on_event ev now p b =
        unfold process_transfer_event in
        rw (found_by_id now id p b found, process_transfer_event) refl in
      let same = same_id now id p b found in
      (
        with_status (decision_of now id p b ev) p,
        ap (λ (o : Action × Bank). find_pix id o.1) e
            ∙ ap (λ x. find_pix x (on_event ev now p b).1) same
            ∙ first_delivery now id p b ev (ap (λ x. find_pix x b) (sym same) ∙ found) st,
        event_verdict ev p b,
      )
  decided (by_poll (poll_confirmed ref)) p b found st h =
      let marked : Bank = record b {
        pix = update_first (pix_is id) (inline_confirmed ref) b.pix;
      } in
      let e : poll_round now k id (poll_confirmed ref) b
          ≡ settle_ledger_entries now id (debit_inline k p marked) =
        ground (arith, found, st) in
      (
        inline_confirmed ref p,
        ap (λ x. find_pix id x) e
            ∙ ap (λ l. find_first (pix_is id) l) (pix-debit_inline p marked)
            ∙ find_first-update_self (pix_is id) (inline_confirmed ref) b.pix p found
                (find_first-holds (pix_is id) b.pix p found),
        refl,
      )
  decided (by_poll poll_failed) p b found st h =
      let e : poll_round now k id poll_failed b
          ≡ reverse_ledger_entries now id (set_status id failed b) =
        ground (arith, found, st) in
      (
        with_status failed p,
        ap (λ x. find_pix id x) e
            ∙ find_first-update_self (pix_is id) (with_status failed) b.pix p found
                (find_first-holds (pix_is id) b.pix p found),
        refl,
      )
  decided (by_poll poll_other) p b found st h = absurd (cc h)
  decided (by_poll poll_error) p b found st h = absurd (cc h)

-- A payment on its way, and any sequence of events of the gateway and rounds of the polling for it:
-- the first of them that says whether it is done or has failed is carried out, and every other
-- changes nothing.
pub first_decision_counts :
    (now id k : ℕ) (p : PixTransaction) (b : Bank) (ss : List Step)
    → find_pix id b ≡ some p
    → p.status ≡ processing
    → perform_steps now id k ss b ≡ first_decision now id k ss b
first_decision_counts now id k p b [] found st = refl
first_decision_counts now id k p b (s ∷ ss) found st = elim (Bool-cases (decides s)) [
  | inl decisive ↦
      let after = decided now id k s p b found st decisive in
      rw decisive (
        settled_is_left now id k ss after.0 (perform_step now id k s b) after.1
          (verdict-settled now id k s after.0 decisive after.2))
  | inr undecided ↦ rw undecided (
      ap (perform_steps now id k ss) (undecided_stays now id k s b undecided)
      ∙ first_decision_counts now id k p b ss found st)
]

-- A payment on its way, after any sequence of events and rounds: the row has the status that the first
-- step gives which says whether the payment is done or has failed, confirmed or failed, whatever steps
-- came before it that say neither, and whatever steps follow.
pub payment_is_settled :
    (now id k : ℕ) (p : PixTransaction) (b : Bank) (before after : List Step) (s : Step)
    → find_pix id b ≡ some p
    → p.status ≡ processing
    → All (λ t. decides t ≡ false) before
    → decides s ≡ true
    → (q : PixTransaction) × (find_pix id (perform_steps now id k (before ++ s ∷ after) b) ≡ some q)
      × (q.status ≡ verdict s)
payment_is_settled now id k p b [] after s found st none_decides h =
    let (q, stored, e) = decided now id k s p b found st h in
    (
      q,
      ap (find_pix id) (
            settled_is_left now id k after q (perform_step now id k s b) stored
              (verdict-settled now id k s q h e))
          ∙ stored,
      e,
    )
payment_is_settled now id k p b (t ∷ before) after s found st none_decides h =
    let later = payment_is_settled now id k p b before after s found st none_decides.1 h in
    (
      later.0,
      ap (λ x. find_pix id (perform_steps now id k (before ++ s ∷ after) x))
            (undecided_stays now id k t b none_decides.0)
          ∙ later.1,
      later.2,
    )
