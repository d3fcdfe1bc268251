-- ===== src/Tests/Gateway.antt =====
-- Payments through the gateway's client, and the cycles of the audit.
use payvorax.Tests.Fixtures.{bank}
use payvorax.Bank.{PixTransaction, Bank, sent, created, phone}
use payvorax.Gateway.Breaker.{new_breaker}
use payvorax.Gateway.Client.{Client, World, Request, Body, Wire, received, refused, timed_out}
use payvorax.Gateway.Client.Attempts.{answered, is_documented}
use payvorax.Gateway.CodePage.{PageCharge, Libraries}
use payvorax.Gateway.PayCode.{CodeOrder, CodeReading, pay_qr_code}
use payvorax.Gateway.PayCode.Once.{reported, pay_qr_code-pays_once}
use payvorax.Pix.Execute.{execute_pix_payment}
use payvorax.Pix.Execute.Dispatches.{succeeded, execute_pix_payment-dispatches_once, IsDispatchOf}
use payvorax.Audit.Loop.{Tick, start, audit_loop}
use payvorax.Audit.Loop.Daily.{times_reconciled, audit_loop-reconciles_once}
use payvorax.Base.{◌+◌, ◌≡◌, refl, true, false, none, some, List, [], ◌∷◌, arith}
use payvorax.Base.Text.{codes}
use payvorax.Gateway.Client.Sent.{Added}
use payvorax.Gateway.PayCode.Keys.{Carries}

abbrev answer : Body
answer = record {
  is_empty = false;
  id = some (codes "pay_1");
  status = some (codes "AWAITING_TRANSFER_AUTHORIZATION");
  value = none;
  end_to_end_id = none;
  date_created = none;
  pix_value = some 2500;
  pix_receiver = some (codes "Loja");
}

-- The first request meets a timeout, the second one is not understood, the others are answered.
abbrev moody : List (Request × Wire) → Request → Wire
moody [] r = timed_out
moody (x ∷ []) r = refused 400 (some (codes "parse_error" ∷ []))
moody (x ∷ y ∷ xs) r = received answer

abbrev client : Client
client = record {
  totp_secret = none;
  operation_key = some (codes "key");
  send = moody;
  clock = λ n. 100 + n;
  totp = λ n s. none;
  from_iso = λ s. some 0;
}

client-documented :
    (sent : List (Request × Wire)) (q : Request) → is_documented client (client.send sent q) ≡ true
client-documented [] q = refl
client-documented (x ∷ []) q = refl
client-documented (x ∷ y ∷ xs) q = refl

abbrev world : World
world = record { sent = []; breaker = new_breaker 5 30; tries = 0 }

abbrev charge : PageCharge
charge = record {
  status = some (codes "ATIVA");
  copia_e_cola = some (codes "00020126580014br.gov.bcb.pix");
  chave = some (codes "loja@example.com");
  original = some (codes "25.00");
  modalidade = none;
}

abbrev libraries : Libraries
libraries = record {
  fetch = λ url.
      some (record { status = 200; text = codes "{}"; content_type = codes "application/json" });
  loads = λ s. some charge;
  b64_decode = λ s. none;
  float_of = λ s. some 2500;
  sha256 = λ s. s;
}

abbrev order : CodeOrder
order = record {
  payload = codes "000201";
  description = codes "";
  idempotency = some (codes "k-9");
  value = none;
}

-- A dynamic code with no amount.
abbrev reading : CodeReading
reading = record { key = none; amount = 0; payload_url = some (codes "https://psp.example/qr") }

pay_qr_code-pays_once_example :
    let o = pay_qr_code client libraries order reading world in
    Added (Carries (codes "k-9")) 9 world o.1 × (answered o.1 ≡ answered world + reported o.0)
pay_qr_code-pays_once_example =
    pay_qr_code-pays_once client libraries order b'k' (codes "-9") reading world refl
      client-documented

abbrev stored : PixTransaction
stored = record {
  id = 5;
  value = 2500;
  pix_key = codes "+5561999990000";
  key_type = phone;
  type = sent;
  status = created;
  user_id = 1;
  idempotency_key = codes "k-5";
  created_at = 10;
  correlation_id = 0;
  scheduled_date = none;
  fee_amount = some 400;
  payload_hash = none;
}

abbrev stored_bank : Bank
stored_bank = record bank { pix = stored ∷ [] }

execute_pix_payment-dispatches_once_example :
    let o = execute_pix_payment (some client) 77 (codes "") 5 1 stored_bank world in
    Added (IsDispatchOf stored) 3 world o.2
    × (answered o.2 ≡ answered world + succeeded o.0)
    × ((execute_pix_payment (some client) 78 (codes "") 5 1 o.1 o.2).2 ≡ o.2)
execute_pix_payment-dispatches_once_example =
    execute_pix_payment-dispatches_once client 77 78 (codes "") (codes "") 5 1 stored stored_bank
      world refl client-documented

-- A cycle at 03:00 whose audit fails, and one a minute later.
abbrev early : Tick
early = record { day = 3; hour = 3; minute = 0; asaas_balance = none; audit_fails = true }

abbrev late : Tick
late = record early { minute = 1; audit_fails = false }

abbrev next_day : Tick
next_day = record late { day = 4 }

audit_loop-reconciles_once_example :
    times_reconciled 3 (audit_loop (early ∷ late ∷ late ∷ next_day ∷ []) (start bank)).reconciled
    ≡ 1
audit_loop-reconciles_once_example =
    audit_loop-reconciles_once (early ∷ []) (late ∷ next_day ∷ []) late bank (ground arith) refl
      refl
