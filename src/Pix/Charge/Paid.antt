-- ===== src/Pix/Charge/Paid.antt =====
-- A charge is credited at most once by the four calls that credit it.
use payvorax.Pix.Receipt.Credits.{set_status-confirmed, pix-credit_receiver}
use payvorax.Base.{
  ℕ, ◌≡◌, sym, ap, ◌∙◌, ◌⊎◌, inl, inr, Option, none, some, List, [], ◌∷◌, arith, ==_iff, refl,
  subst, not, ◌&&◌, if-holds,
}
use payvorax.Base.Query.{find_first, find_first-holds, update_first}
use payvorax.Bank.{PixTransaction, Bank, created, confirmed, received, is_sent, is_created}
use payvorax.Pix.Charge.{
  ChargeGateway, settle_charge, process_pix_receipt, charge_answered, verify_pix_charge_payment,
  RemoteStatus, is_charge, sync_pix_charge_status, remote_pending, remote_confirmed, remote_expired,
  remote_cancelled, remote_other, says_confirmed, get_pix_transaction,
}
use payvorax.Pix.Lifecycle.{pix_is, with_status, find_pix, set_status, pix_of_user, get_pix}
use payvorax.Pix.Receipt.{on_charge_paid}

-- The ways: the webhook, a receipt that someone reports, and the owner who asks for the gateway's
-- answer or looks at the charge.
pub data ChargeCall : Type 0 where
  by_webhook by_receipt : ChargeCall
  by_verify by_look : Option ChargeGateway → ChargeCall

-- One call on charge `id` of user `k`.
abbrev perform_charge : ℕ → ℕ → ChargeCall → Bank → Bank
perform_charge id k by_webhook b = (on_charge_paid id b).1
perform_charge id k by_receipt b = (process_pix_receipt id b).1
perform_charge id k (by_verify g) b = (verify_pix_charge_payment g id k b).1
perform_charge id k (by_look g) b = (get_pix_transaction g id k b).1

abbrev pub perform_charges : ℕ → ℕ → List ChargeCall → Bank → Bank
perform_charges id k [] b = b
perform_charges id k (c ∷ cs) b = perform_charges id k cs (perform_charge id k c b)

-- The row that an id finds is the one that its owner finds.
get_pix-owner :
    (id : ℕ) (p : PixTransaction) (ps : List PixTransaction)
    → find_first (pix_is id) ps ≡ some p
    → find_first (pix_of_user id p.user_id) ps ≡ some p
get_pix-owner id p [] h = cc
get_pix-owner id p (q ∷ ps) h = ground (arith, get_pix-owner id p ps)

find_pix-settle_charge :
    (id : ℕ) (p : PixTransaction) (b : Bank)
    → find_pix id b ≡ some p
    → find_pix id (settle_charge p b) ≡ some (with_status confirmed p)
unfolding settle_charge
find_pix-settle_charge id p b h =
    let same : id ≡ p.id = (==_iff id p.id).0 (find_first-holds (pix_is id) b.pix p h) in
    ap (λ l. find_first (pix_is id) l) (pix-credit_receiver p (set_status p.id confirmed b))
    ∙ ap (λ i. find_pix id (set_status i confirmed b)) (sym same)
    ∙ set_status-confirmed id p b h

pub charge_answered-cases :
    (o : Option RemoteStatus) (p : PixTransaction) (b : Bank)
    → ((charge_answered o p b).1 ≡ b) ⊎ ((charge_answered o p b).1 ≡ settle_charge p b)
unfolding charge_answered
charge_answered-cases none p b = inl refl
charge_answered-cases (some remote_pending) p b = inl refl
charge_answered-cases (some remote_confirmed) p b = inr refl
charge_answered-cases (some remote_expired) p b = inl refl
charge_answered-cases (some remote_cancelled) p b = inl refl
charge_answered-cases (some remote_other) p b = inl refl

module _ (id k : ℕ) (p : PixTransaction) (b : Bank) (found : find_pix id b ≡ some p)
    (own : k ≡ p.user_id) where
  owned_row : get_pix id k b ≡ some p
  owned_row = ap (λ j. get_pix id j b) own ∙ get_pix-owner id p b.pix found

  confirmed_stays : (c : ChargeCall) → p.status ≡ confirmed → perform_charge id k c b ≡ b
  unfolding on_charge_paid process_pix_receipt verify_pix_charge_payment get_pix_transaction
  confirmed_stays by_webhook st = ground (arith, found)
  confirmed_stays by_receipt st = ground (arith, found)
  confirmed_stays (by_verify g) st = ground (arith, owned_row)
  confirmed_stays (by_look g) st = ground (arith, owned_row)

  created_moves :
      (c : ChargeCall)
      → p.status ≡ created
      → (perform_charge id k c b ≡ b) ⊎ (perform_charge id k c b ≡ settle_charge p b)
  unfolding on_charge_paid process_pix_receipt verify_pix_charge_payment charge_answered
      settle_charge get_pix_transaction
  created_moves by_webhook st =
      let same : id ≡ p.id = (==_iff id p.id).0 (find_first-holds (pix_is id) b.pix p found) in
      inr (ground (arith, found, same))
  created_moves by_receipt st = inr (ground (arith, found))
  created_moves (by_verify none) st = inl (ground (arith, owned_row))
  created_moves (by_verify (some g)) st =
      let answer = charge_answered (g.get_charge_status id) p b in
      let e : perform_charge id k (by_verify (some g)) b ≡ answer.1 = ground (arith, owned_row) in
      subst (λ (x : Bank). (x ≡ b) ⊎ (x ≡ settle_charge p b)) (sym e)
        (charge_answered-cases (g.get_charge_status id) p b)
  created_moves (by_look g) st =
      rw (owned_row, perform_charge, get_pix_transaction)
        (if-holds (λ (o : Option PixTransaction × Bank). (o.1 ≡ b) ⊎ (o.1 ≡ settle_charge p b))
          (not (is_sent p.type) && is_created p.status && says_confirmed g id) _ _ (λ _. inr refl)
          (λ _. inl refl))

-- Calls on a charge that is paid change nothing, whatever their order and number.
paid_charge_stays :
    (id k : ℕ) (p : PixTransaction) (b : Bank) (cs : List ChargeCall)
    → find_pix id b ≡ some p
    → k ≡ p.user_id
    → p.status ≡ confirmed
    → perform_charges id k cs b ≡ b
paid_charge_stays id k p b [] found own st = refl
paid_charge_stays id k p b (c ∷ cs) found own st =
    ap (perform_charges id k cs) (confirmed_stays id k p b found own c st)
    ∙ paid_charge_stays id k p b cs found own st

-- An open charge, after any calls of these four kinds, in any order and number: the webhook, a receipt
-- that someone reports, and its owner's verification and look (`on_charge_paid`,
-- `process_pix_receipt`, `verify_pix_charge_payment`, `get_pix_transaction`). Either nothing has
-- changed, or it has been confirmed and its owner credited, exactly once. `sync_pix_charge_status`,
-- which can open a confirmed charge again, is not among them.
pub charge_is_credited_at_most_once :
    (id : ℕ) (p : PixTransaction) (b : Bank) (cs : List ChargeCall)
    → find_pix id b ≡ some p
    → p.status ≡ created
    → (perform_charges id p.user_id cs b ≡ b)
      ⊎ (perform_charges id p.user_id cs b ≡ settle_charge p b)
charge_is_credited_at_most_once id p b [] found st = inl refl
charge_is_credited_at_most_once id p b (c ∷ cs) found st =
    elim (created_moves id p.user_id p b found refl c st) [
      | inl same ↦
          subst
            (λ (x : Bank).
              (perform_charges id p.user_id cs x ≡ b)
              ⊎ (perform_charges id p.user_id cs x ≡ settle_charge p b))
            (sym same) (charge_is_credited_at_most_once id p b cs found st)
      | inr paid ↦ inr (
          ap (perform_charges id p.user_id cs) paid
          ∙ paid_charge_stays id p.user_id (with_status confirmed p) (settle_charge p b) cs
              (find_pix-settle_charge id p b found) refl refl)
    ]

find_first-is_charge :
    (id : ℕ) (p : PixTransaction) (ps : List PixTransaction)
    → find_first (pix_is id) ps ≡ some p
    → p.type ≡ received
    → find_first (is_charge id) ps ≡ some p
find_first-is_charge id p [] h t = cc
find_first-is_charge id p (q ∷ ps) h t = ground (arith, find_first-is_charge id p ps)

update_first-is_charge :
    (id : ℕ) (f : PixTransaction → PixTransaction) (p : PixTransaction) (ps : List PixTransaction)
    → find_first (pix_is id) ps ≡ some p
    → p.type ≡ received
    → update_first (is_charge id) f ps ≡ update_first (pix_is id) f ps
update_first-is_charge id f p [] h t = refl
update_first-is_charge id f p (q ∷ ps) h t = ground (arith, update_first-is_charge id f p ps)

sync-set_status :
    (g : ChargeGateway) (id : ℕ) (p : PixTransaction) (b : Bank)
    → find_pix id b ≡ some p
    → p.type ≡ received
    → g.get_charge_status id ≡ some remote_confirmed
    → (sync_pix_charge_status (some g) id b).1 ≡ set_status id confirmed b
unfolding sync_pix_charge_status
sync-set_status g id p b found in_type answer =
    rw (find_first-is_charge id p b.pix found in_type, answer, sync_pix_charge_status)
      (ap (λ l. record b { pix = l })
        (update_first-is_charge id (with_status confirmed) p b.pix found in_type))

-- `sync_pix_charge_status` on an open charge that the gateway reports as paid: its status is
-- `CONFIRMED` and no account has changed, and then no call credits its owner any more.
synced_charge_is_never_credited :
    (g : ChargeGateway) (id : ℕ) (p : PixTransaction) (b : Bank) (cs : List ChargeCall)
    → find_pix id b ≡ some p
    → p.type ≡ received
    → g.get_charge_status id ≡ some remote_confirmed
    → (perform_charges id p.user_id cs (sync_pix_charge_status (some g) id b).1
        ≡ set_status id confirmed b)
synced_charge_is_never_credited g id p b cs found in_type answer =
    ap (perform_charges id p.user_id cs) (sync-set_status g id p b found in_type answer)
    ∙ paid_charge_stays id p.user_id (with_status confirmed p) (set_status id confirmed b) cs
        (set_status-confirmed id p b found) refl refl
