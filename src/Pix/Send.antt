-- ===== src/Pix/Send.antt =====
-- `create_pix_transaction` (app/pix/router.py): the endpoint that sends a payment.
use payvorax.Base.Query.{find_first}
use payvorax.Base.{
  ℕ, Bool, true, false, not, ◌&&◌, Option, none, some, ltb, ◌==◌, if◌then◌else◌, length,
}
use payvorax.Base.Int.{pos, ltb_ℤ}
use payvorax.Base.Text.{Text}
use payvorax.Bank.{
  Outcome, inactive_account, ok, raise, PixKeyType, User, PixTransaction, Bank, is_sent,
  is_confirmed, is_created, sent, random,
}
use payvorax.Pix.Create.{create_pix}
use payvorax.Pix.Lifecycle.{confirm_pix}
use payvorax.Pix.Request.{PixCreateRequest, Context}
use payvorax.Pix.Screen.{screen_antifraud}

abbrev pub is_deposit_of : ℕ → PixTransaction → Bool
is_deposit_of k p = k == p.user_id && not (is_sent p.type) && is_confirmed p.status

-- A confirmed receipt, or a positive balance.
unfoldable pub account_is_active : User → Bank → Bool
account_is_active u b = elim (find_first (is_deposit_of u.id) b.pix) [
  | some p ↦ true
  | none ↦ ltb_ℤ (pos 0) u.balance
]

abbrev is_random : PixKeyType → Bool
is_random random = true
is_random _ = false

-- A code that is copied and pasted.
abbrev pub looks_like_code : PixCreateRequest → Bool
looks_like_code d = is_random d.key_type && ltb 36 (length d.pix_key)

abbrev confirmed_or : PixTransaction → Outcome (Option PixTransaction) → Outcome PixTransaction
confirmed_or p (ok (some q), b) = (ok q, b)
confirmed_or p (ok none, b) = (ok p, b)
confirmed_or p (raise e, b) = (raise e, b)

-- A new row that is `CREATED` and sent is confirmed at once.
abbrev pub auto_confirm : Outcome PixTransaction → Outcome PixTransaction
auto_confirm (raise e, b) = (raise e, b)
auto_confirm (ok p, b) =
    if is_created p.status && is_sent p.type then confirmed_or p (confirm_pix p.id b) else (ok p, b)

-- `create_pix_transaction` of the logged-in user `u`.
unfoldable pub create_pix_transaction :
    Context → ℕ → PixCreateRequest → Text → ℕ → User → Bank → Outcome PixTransaction
unfolding account_is_active
create_pix_transaction c hour d key correlation_id u b =
    if not (account_is_active u b) && not (looks_like_code d)
    then (raise inactive_account, b)
    else elim (screen_antifraud c.now hour d.value u.id b) [
      | some e ↦ (raise e, b)
      | none ↦ auto_confirm (create_pix c d key correlation_id u.id sent b)
    ]
