-- ===== src/Pix/Request.antt =====
-- What a Pix call is given: `PixCreateRequest` (app/pix/schemas.py), and what the call takes from
-- its surroundings: the clock, fresh identifiers, and the payment gateway.

use payvorax.Bank.{PixKeyType, Payment}
use payvorax.Base.{ℕ, Option}
use payvorax.Base.Text.{Text}

-- The fields of `PixCreateRequest` that the services read.
pub record PixCreateRequest : Type 0 where
  pub value : ℕ
  pub key_type : PixKeyType
  pub pix_key : Text
  pub scheduled_date : Option ℕ

-- The reply to `create_pix_payment`: its `end_to_end_id` and its `payment_id`, each if the reply has
-- one; or an exception.
pub data PaymentReply : Type 0 where
  accepted : Option ℕ → Option ℕ → PaymentReply
  refused : PaymentReply

-- `get_payment_gateway()` is `none` where no gateway is configured.
pub record Context : Type 0 where
  pub now : ℕ
  pub new_id : ℕ
  pub second_id : ℕ
  pub gateway : Option (Payment → PaymentReply)
