-- ===== src/Pix/Lifecycle.antt =====
-- The status changes of app/pix/service.py and the ledger entries that go with them: `confirm_pix`,
-- `cancel_pix`, `get_pix`, `settle_ledger_entries`, `reverse_ledger_entries`, `deposit_funds`.
pub mod Status
use payvorax.Base.{ℕ, Bool, ◌&&◌, Option, none, some, List, [], ◌∷◌, ltb, ◌==◌, if◌then◌else◌}
use payvorax.Base.Int.{ℤ, pos, ◌+ℤ◌}
use payvorax.Base.Query.{find_first, update_first}
use payvorax.Bank.Money.{find_user, set_balance}
use payvorax.Bank.{
  Outcome, user_not_found, not_positive, above_limit, not_scheduled, ok, raise, PixStatus,
  LedgerEntryStatus, PixTransaction, LedgerEntry, Bank, is_confirmed, is_scheduled, is_pending,
  confirmed, canceled, settled, reversed,
}

abbrev pub pix_is : ℕ → PixTransaction → Bool
pix_is id p = id == p.id

abbrev pub with_status : PixStatus → PixTransaction → PixTransaction
with_status st p = record p { status = st }

abbrev pub find_pix : ℕ → Bank → Option PixTransaction
find_pix id b = find_first (pix_is id) b.pix

abbrev pub set_status : ℕ → PixStatus → Bank → Bank
set_status id st b = record b { pix = update_first (pix_is id) (with_status st) b.pix }

-- `confirm_pix`: nothing is asked but that the row exists.
unfoldable pub confirm_pix : ℕ → Bank → Outcome (Option PixTransaction)
confirm_pix id b = elim (find_pix id b) [
  | none ↦ (ok none, b)
  | some p ↦
      if is_confirmed p.status
      then (ok (some p), b)
      else (ok (some (with_status confirmed p)), set_status id confirmed b)
]

abbrev pub pix_of_user : ℕ → ℕ → PixTransaction → Bool
pix_of_user id user_id p = id == p.id && user_id == p.user_id

-- `get_pix`
abbrev pub get_pix : ℕ → ℕ → Bank → Option PixTransaction
get_pix id user_id b = find_first (pix_of_user id user_id) b.pix

-- `cancel_pix`
unfoldable pub cancel_pix : ℕ → ℕ → Bank → Outcome (Option PixTransaction)
cancel_pix id user_id b = elim (get_pix id user_id b) [
  | none ↦ (ok none, b)
  | some p ↦
      if is_scheduled p.status
      then (
        ok (some (with_status canceled p)),
        record b { pix = update_first (pix_of_user id user_id) (with_status canceled) b.pix },
      )
      else (raise not_scheduled, b)
]

abbrev pub awaits : ℕ → LedgerEntry → Bool
awaits tx_id e = tx_id == e.tx_id && is_pending e.status

abbrev pub closed : LedgerEntryStatus → ℕ → LedgerEntry → LedgerEntry
closed st now e = record e { status = st; settled_at = some now }

-- The loop of `settle_ledger_entries` and `reverse_ledger_entries`.
unfoldable pub close_entries : LedgerEntryStatus → ℕ → ℕ → List LedgerEntry → List LedgerEntry
close_entries st now tx_id [] = []
close_entries st now tx_id (e ∷ es) =
    (if awaits tx_id e then closed st now e else e) ∷ close_entries st now tx_id es

unfoldable pub settle_ledger_entries : ℕ → ℕ → Bank → Bank
settle_ledger_entries now tx_id b = record b { ledger = close_entries settled now tx_id b.ledger }

unfoldable pub reverse_ledger_entries : ℕ → ℕ → Bank → Bank
reverse_ledger_entries now tx_id b = record b { ledger = close_entries reversed now tx_id b.ledger }

-- `deposit_funds`, with its limit of R$1,000,000.00; the result is the new balance.
unfoldable pub deposit_funds : ℕ → ℕ → Bank → Outcome ℤ
deposit_funds user_id amount b =
    if amount == 0
    then (raise not_positive, b)
    else if ltb 100000000 amount
    then (raise above_limit, b)
    else elim (find_user user_id b) [
      | none ↦ (raise user_not_found, b)
      | some u ↦ (ok (u.balance +ℤ pos amount), set_balance user_id (u.balance +ℤ pos amount) b)
    ]
