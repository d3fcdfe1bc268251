-- ===== src/Pix/Webhook/Inert.antt =====
-- What a transfer event does to the rows, and when further events for the same transfer do nothing.
use payvorax.Base.{
  ℕ, ◌≡◌, refl, ap, ◌∙◌, true, some, arith, ==_iff, if-holds, inl, inr, false, none, ◌≤◌, List, [],
  ◌∷◌, Option-cases,
}
use payvorax.Base.Query.{
  find_first, find_first-holds, update_first, sum_where, find_first-update_other, sum_where-update,
  All-map, find_first-none, sum_where-none,
}
use payvorax.Bank.{PixStatus, PixTransaction, Bank, is_sent, processing, confirmed, failed}
use payvorax.Pix.Lifecycle.{
  pix_is, with_status, find_pix, set_status, settle_ledger_entries, reverse_ledger_entries,
}
use payvorax.Pix.Webhook.{
  TransferEvent, find_transfer, debit_sender, complete_transfer, on_transfer_done,
  on_transfer_failed, on_event, process_transfer_event, transfer_done, transfer_failed,
  by_correlation,
}
use payvorax.Pix.Webhook.Debit.{pix-debit_sender}
use payvorax.Pix.Webhook.Events.{is_settled, settled_is_final, set_status-row}

module _ (now id : ℕ) (p : PixTransaction) (b : Bank) where
  pub found_by_id : find_pix id b ≡ some p → find_transfer id b ≡ some p
  unfolding find_transfer
  found_by_id h = ground (arith, h)

  complete-row :
      find_pix p.id b ≡ some p
      → find_pix p.id (complete_transfer now p b) ≡ some (with_status confirmed p)
  unfolding complete_transfer settle_ledger_entries
  complete-row h =
      if-holds (λ (x : Bank). find_pix p.id x ≡ some (with_status confirmed p)) (is_sent p.type)
        (debit_sender p (set_status p.id confirmed b)) (set_status p.id confirmed b)
        (λ _.
          ap (λ l. find_first (pix_is p.id) l) (pix-debit_sender p (set_status p.id confirmed b)).0
          ∙ set_status-row confirmed p b h)
        (λ _. set_status-row confirmed p b h)

  pub same_id : find_pix id b ≡ some p → id ≡ p.id
  same_id h = (==_iff id p.id).0 (find_first-holds (pix_is id) b.pix p h)

  -- The status to which an event moves a transfer that is on its way.
  abbrev pub decision_of : TransferEvent → PixStatus
  decision_of transfer_done = confirmed
  decision_of transfer_failed = failed

  pub decision-settled : (ev : TransferEvent) → is_settled (decision_of ev) ≡ true
  decision-settled transfer_done = refl
  decision-settled transfer_failed = refl

  pix-complete_transfer :
      (complete_transfer now p b).pix ≡ update_first (pix_is p.id) (with_status confirmed) b.pix
  unfolding complete_transfer settle_ledger_entries
  pix-complete_transfer =
      let marked = set_status p.id confirmed b in
      if-holds (λ (x : Bank). x.pix ≡ marked.pix) (is_sent p.type) _ _
        (λ _. (pix-debit_sender p marked).0) (λ _. refl)

  pub on_event-pix :
      (ev : TransferEvent)
      → p.status ≡ processing
      → (on_event ev now p b).1.pix
        ≡ update_first (pix_is p.id) (with_status (decision_of ev)) b.pix
  unfolding on_transfer_done on_transfer_failed reverse_ledger_entries
  on_event-pix transfer_done st = ground (arith, pix-complete_transfer)
  on_event-pix transfer_failed st = ground arith

  -- What the first delivery leaves under the id.
  pub first_delivery :
      (ev : TransferEvent)
      → find_pix p.id b ≡ some p
      → p.status ≡ processing
      → find_pix p.id (on_event ev now p b).1 ≡ some (with_status (decision_of ev) p)
  first_delivery ev h st =
      ap (λ l. find_first (pix_is p.id) l) (on_event-pix ev st)
      ∙ set_status-row (decision_of ev) p b h

pub unsettled : (st : PixStatus) → is_settled st ≡ false → st ≡ processing
unsettled st h = ground arith

-- Events for the transfer `gid`, one after the other.
abbrev pub deliver_all : ℕ → List (TransferEvent × ℕ) → Bank → Bank
deliver_all gid [] b = b
deliver_all gid ((ev, now) ∷ es) b = deliver_all gid es (process_transfer_event ev now gid b).1

-- At most one row on its way carries the gateway's id `gid`.
abbrev pub AtMostOne : ℕ → Bank → Type 0
AtMostOne gid b = sum_where (by_correlation gid) (λ _. 1) b.pix ≤ 1

-- Every event for `gid` leaves the data as they are.
abbrev pub IsInert : ℕ → Bank → Type 0
IsInert gid b = (ev : TransferEvent) (now : ℕ) → (process_transfer_event ev now gid b).1 ≡ b

pub deliver_all-IsInert :
    (gid : ℕ) (es : List (TransferEvent × ℕ)) (b : Bank) → IsInert gid b → deliver_all gid es b ≡ b
deliver_all-IsInert gid [] b inert = refl
deliver_all-IsInert gid ((ev, now) ∷ es) b inert =
    ap (deliver_all gid es) (inert ev now) ∙ deliver_all-IsInert gid es b inert

no_transfer-IsInert : (gid : ℕ) (b : Bank) → find_transfer gid b ≡ none → IsInert gid b
unfolding process_transfer_event
no_transfer-IsInert gid b missing ev now = rw (missing, process_transfer_event) refl

-- The row `p` that the id `gid` finds, by its own id or by the id that the gateway gave.
module _ (gid : ℕ) (p : PixTransaction) (b : Bank) (found : find_transfer gid b ≡ some p)
    (row : find_pix p.id b ≡ some p) (single : AtMostOne gid b) where
  by_gateway_id : find_pix gid b ≡ none → find_first (by_correlation gid) b.pix ≡ some p
  unfolding find_transfer
  by_gateway_id missing = ground (arith, found, missing)

  by_own_id : (q : PixTransaction) → find_pix gid b ≡ some q → q ≡ p
  unfolding find_transfer
  by_own_id q stored = ground (arith, found, stored)

  on_way_matched :
      (st : PixStatus) → is_settled st ≡ true → by_correlation gid (with_status st p) ≡ false
  on_way_matched st final = ground arith

  no_transfer_left :
      (st : PixStatus) (b' : Bank)
      → is_settled st ≡ true
      → b'.pix ≡ update_first (pix_is p.id) (with_status st) b.pix
      → find_pix gid b ≡ none
      → find_first (by_correlation gid) b.pix ≡ some p
      → find_transfer gid b' ≡ none
  unfolding find_transfer
  no_transfer_left st b' final changed missing matched =
      let on : by_correlation gid p ≡ true =
        find_first-holds (by_correlation gid) b.pix p matched in
      let off = on_way_matched st final in
      let f = with_status st in
      let own : find_pix gid b' ≡ none =
        ap (λ l. find_first (pix_is gid) l) changed
        ∙ find_first-update_other (pix_is p.id) (pix_is gid) f b.pix (λ x. refl)
            (All-map (λ x. pix_is gid x ≡ false) (λ x. pix_is p.id x ≡ true → pix_is gid x ≡ false)
              b.pix (λ x h _. h) (find_first-none (pix_is gid) b.pix missing))
        ∙ missing in
      let count : sum_where (by_correlation gid) (λ _. 1) (update_first (pix_is p.id) f b.pix) ≡ 0 =
        let moved = sum_where-update (by_correlation gid) (λ _. 1) (pix_is p.id) f b.pix p row in
        ground (arith, moved, on, off, single) in
      let other : find_first (by_correlation gid) b'.pix ≡ none =
        sum_where-none (by_correlation gid) b'.pix
          (ap (λ l. sum_where (by_correlation gid) (λ _. 1) l) changed ∙ count) in
      ground (arith, own, other)

  -- Once its row has a settled status, no event finds a transfer to change.
  pub settled_row-IsInert :
      (st : PixStatus) (b' : Bank)
      → is_settled st ≡ true
      → b'.pix ≡ update_first (pix_is p.id) (with_status st) b.pix
      → IsInert gid b'
  settled_row-IsInert st b' final changed = elim (Option-cases (find_pix gid b)) [
    | inr (q, stored) ↦
        let same : gid ≡ p.id = same_id 0 gid p b (stored ∙ ap some (by_own_id q stored)) in
        let after : find_pix gid b' ≡ some (with_status st p) =
          ap (λ i. find_pix i b') same
          ∙ ap (λ l. find_first (pix_is p.id) l) changed
          ∙ set_status-row st p b row in
        λ ev now.
          settled_is_final ev now gid (with_status st p) b'
            (found_by_id now gid (with_status st p) b' after) final
    | inl missing ↦
        let matched = by_gateway_id missing in
        no_transfer-IsInert gid b'
          (no_transfer_left st b' final changed missing (by_gateway_id missing))
  ]
