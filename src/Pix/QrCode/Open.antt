-- ===== src/Pix/QrCode/Open.antt =====
-- `_find_internal_qrcode_charge` yields open charges only.
use payvorax.Pix.QrCode.{
  QrRequest, Looked, is_open_charge, by_id, by_like, or_else, first_by_id, first_by_like,
  by_payload, by_domain, open_charge, paid_charge, looked, find_internal_qrcode_charge, charge_open,
  already_paid, not_internal,
}
use payvorax.Base.{
  ℕ, ◌≡◌, Bool, true, ◌&&◌, Option, none, some, List, [], ◌∷◌, arith, if-holds, take,
}
use payvorax.Base.Text.{contains, Text, codes, text_eq}
use payvorax.Base.Query.{find_first}
use payvorax.Bank.{PixTransaction, Bank, sent}

-- What the search for a charge yields is an open charge.
abbrev IsOpenRow : Option PixTransaction → Type 0
IsOpenRow none = Unit
IsOpenRow (some p) = is_open_charge p ≡ true

abbrev pub IsOpen : Looked → Type 0
IsOpen (charge_open p) = is_open_charge p ≡ true
IsOpen already_paid = Unit
IsOpen not_internal = Unit

pub sent_is_not_open : (p : PixTransaction) → p.type ≡ sent → is_open_charge p ≡ true → ⊥
sent_is_not_open p out h = ground (arith, out, h)

found-IsOpenRow :
    (q : PixTransaction → Bool) (ps : List PixTransaction)
    → IsOpenRow (find_first (λ p. q p && is_open_charge p) ps)
found-IsOpenRow q [] = tt
found-IsOpenRow q (p ∷ ps) =
    if-holds IsOpenRow (q p && is_open_charge p) _ _ (λ h. ground (arith, h))
      (λ _. found-IsOpenRow q ps)

or_else-IsOpenRow :
    (o r : Option PixTransaction) → IsOpenRow o → IsOpenRow r → IsOpenRow (or_else o r)
or_else-IsOpenRow (some p) r h k = h
or_else-IsOpenRow none r h k = k

by_id-IsOpenRow :
    (ids : List (ℕ × Text)) (ps : List PixTransaction)
    → IsOpenRow (first_by_id is_open_charge ids ps)
unfolding first_by_id
by_id-IsOpenRow [] ps = tt
by_id-IsOpenRow (id ∷ ids) ps =
    or_else-IsOpenRow (find_first (λ p. by_id id.0 p && is_open_charge p) ps)
      (first_by_id is_open_charge ids ps) (found-IsOpenRow (by_id id.0) ps) (by_id-IsOpenRow ids ps)

by_like-IsOpenRow :
    (ids : List (ℕ × Text)) (ps : List PixTransaction)
    → IsOpenRow (first_by_like is_open_charge ids ps)
unfolding first_by_like
by_like-IsOpenRow [] ps = tt
by_like-IsOpenRow (id ∷ ids) ps =
    or_else-IsOpenRow (find_first (λ p. by_like id.1 p && is_open_charge p) ps)
      (first_by_like is_open_charge ids ps) (found-IsOpenRow (by_like id.1) ps)
      (by_like-IsOpenRow ids ps)

by_payload-IsOpenRow : (s : Text) (ps : List PixTransaction) → IsOpenRow (by_payload s ps)
unfolding by_payload
by_payload-IsOpenRow [] ps = tt
by_payload-IsOpenRow (x ∷ s) ps = found-IsOpenRow (λ p. text_eq p.pix_key (take 200 (x ∷ s))) ps

open_charge-IsOpenRow : (d : QrRequest) (ps : List PixTransaction) → IsOpenRow (open_charge d ps)
unfolding open_charge by_domain
open_charge-IsOpenRow d ps = or_else-IsOpenRow _ _ (by_id-IsOpenRow d.uuids ps) (
    or_else-IsOpenRow _ _ (by_id-IsOpenRow d.asaas_ids ps) (
      or_else-IsOpenRow _ _ (by_payload-IsOpenRow d.payload ps) (
        if-holds IsOpenRow (contains (codes "asaas.com") d.payload) _ _
          (λ _. by_like-IsOpenRow d.uuids ps) (λ _. tt))))

looked-IsOpen : (o q : Option PixTransaction) → IsOpenRow o → IsOpen (looked o q)
looked-IsOpen (some p) q h = h
looked-IsOpen none (some p) h = tt
looked-IsOpen none none h = tt

pub find_internal_qrcode_charge-IsOpen :
    (d : QrRequest) (b : Bank) → IsOpen (find_internal_qrcode_charge d b)
unfolding find_internal_qrcode_charge
find_internal_qrcode_charge-IsOpen d b =
    looked-IsOpen (open_charge d b.pix) (paid_charge d b.pix) (open_charge-IsOpenRow d b.pix)
