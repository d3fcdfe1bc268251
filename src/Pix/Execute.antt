-- ===== src/Pix/Execute.antt =====
-- `execute_pix_payment_real` (app/pix/service.py) and `execute_pix_payment_endpoint`
-- (app/pix/router.py): the dispatch of a transfer that is already stored.
pub mod Dispatches
use payvorax.Base.{ℕ, Bool, true, false, not, ◌&&◌, Option, none, some, ◌==◌, if◌then◌else◌}
use payvorax.Base.Text.{Text, codes}
use payvorax.Base.Query.{find_first, update_first}
use payvorax.Bank.{
  PixTransaction, PixKeyType, cpf, cnpj, email, phone, random, Bank, Result, ok, raise, is_sent,
  is_created, charge_not_found, invalid_charge_status, gateway_failed, processing, failed,
}
use payvorax.Gateway.Client.{Client, World}
use payvorax.Gateway.Transfers.{PaymentEnd, create_pix_payment, or_text}

-- The values of `PixKeyType`.
abbrev pub key_type_value : PixKeyType → Text
key_type_value cpf = codes "CPF"
key_type_value cnpj = codes "CNPJ"
key_type_value email = codes "EMAIL"
key_type_value phone = codes "TELEFONE"
key_type_value random = codes "ALEATORIA"

-- The row that the endpoint fetches: the user's own transfer.
abbrev pub is_own_transfer : ℕ → ℕ → PixTransaction → Bool
is_own_transfer id k t = id == t.id && k == t.user_id && is_sent t.type

abbrev pub with_dispatch : ℕ → PixTransaction → PixTransaction
with_dispatch correlation_id t = record t { status = processing; correlation_id = correlation_id }

abbrev pub with_failure : PixTransaction → PixTransaction
with_failure t = record t { status = failed }

-- What the answer of the gateway writes to the row: every exception marks it as failed.
abbrev pub dispatched : ℕ → ℕ → ℕ → Bank → PaymentEnd × World → Bool × Bank × World
dispatched correlation_id id k b (PaymentEnd.paid r, w) = (
  true,
  record b { pix = update_first (is_own_transfer id k) (with_dispatch correlation_id) b.pix },
  w,
)
dispatched correlation_id id k b (PaymentEnd.failed e, w) =
    (false, record b { pix = update_first (is_own_transfer id k) with_failure b.pix }, w)

-- `execute_pix_payment_real` for the row `t`, which is the user's transfer `id`.
unfoldable pub execute_pix_payment_real :
    Option Client → ℕ → Text → ℕ → ℕ → PixTransaction → Bank → World → Bool × Bank × World
unfolding create_pix_payment
execute_pix_payment_real none correlation_id description id k t b w = (false, b, w)
execute_pix_payment_real (some p) correlation_id description id k t b w =
    dispatched correlation_id id k b (
      create_pix_payment p t.value t.pix_key (key_type_value t.key_type)
        (or_text (some description) (codes "PIX transfer")) (some t.idempotency_key) w)

abbrev pub dispatch_answer : ℕ → Bool × Bank × World → Result ℕ × Bank × World
dispatch_answer id (true, b, w) = (ok id, b, w)
dispatch_answer id (false, b, w) = (raise gateway_failed, b, w)

-- `execute_pix_payment_endpoint`; the description is that of the row.
unfoldable pub execute_pix_payment :
    Option Client → ℕ → Text → ℕ → ℕ → Bank → World → Result ℕ × Bank × World
unfolding execute_pix_payment_real
execute_pix_payment g correlation_id description id k b w =
    elim (find_first (is_own_transfer id k) b.pix) [
      | none ↦ (raise charge_not_found, b, w)
      | some t ↦
          if not (is_created t.status)
          then (raise invalid_charge_status, b, w)
          else dispatch_answer id (execute_pix_payment_real g correlation_id description id k t b w)
    ]
