-- ===== src/Fees.antt =====
-- app/core/fees.py: what a client pays, in cents, and what the gateway costs.
pub mod Margin
use payvorax.Base.{ℕ, ◌+◌, not, Bool, true, false, if◌then◌else◌, length, ◌==◌}
use payvorax.Base.Int.{ℤ, pos, ◌-ℤ◌}
use payvorax.Base.Text.{Text}
use payvorax.Base.Digits.{keep_digits}

abbrev asaas_pix_outbound_cost : ℕ
asaas_pix_outbound_cost = 200

abbrev asaas_pix_inbound_net_cost : ℕ
asaas_pix_inbound_net_cost = 199

abbrev pix_network_fee : ℕ
pix_network_fee = 300

abbrev pub pix_maintenance_fee : ℕ
pix_maintenance_fee = 100

abbrev pix_inbound_network_fee : ℕ
pix_inbound_network_fee = 200

abbrev pix_sent_pf : ℕ
pix_sent_pf = pix_network_fee + pix_maintenance_fee

abbrev pix_recv_pf : ℕ
pix_recv_pf = 400

-- `is_pj`: a document of 14 digits.
unfoldable is_pj : Text → Bool
is_pj cpf_cnpj = length (keep_digits cpf_cnpj) == 14

unfoldable pub calculate_pix_outbound_fee : Text → ℕ → ℕ
calculate_pix_outbound_fee cpf_cnpj amount = pix_sent_pf

unfoldable pub calculate_pix_receive_fee : Text → ℕ → ℕ
calculate_pix_receive_fee cpf_cnpj amount = pix_recv_pf

-- `calculate_pix_fee(cpf_cnpj, amount, is_external=..., is_received=...)`
unfoldable pub calculate_pix_fee : Text → ℕ → Bool → Bool → ℕ
unfolding calculate_pix_outbound_fee calculate_pix_receive_fee
calculate_pix_fee cpf_cnpj amount is_external is_received =
    if not is_external
    then 0
    else if is_received
    then calculate_pix_receive_fee cpf_cnpj amount
    else calculate_pix_outbound_fee cpf_cnpj amount

abbrev pub platform_pix_outbound_network_fee : ℕ
platform_pix_outbound_network_fee = pix_network_fee

unfoldable pub calculate_pix_network_fee : Text → ℕ → Bool → Bool → ℕ
calculate_pix_network_fee cpf_cnpj amount is_external is_received =
    if not is_external
    then 0
    else if is_received
    then pix_inbound_network_fee
    else platform_pix_outbound_network_fee

-- `total - net`, which is signed.
unfoldable pub calculate_pix_service_fee : Text → ℕ → Bool → Bool → ℤ
unfolding calculate_pix_fee calculate_pix_network_fee
calculate_pix_service_fee cpf_cnpj amount is_external is_received =
    pos (calculate_pix_fee cpf_cnpj amount is_external is_received)
    -ℤ pos (calculate_pix_network_fee cpf_cnpj amount is_external is_received)

pub record FeeBreakdown : Type 0 where
  pub gateway_cost : ℕ
  pub platform_fee : ℕ
  pub network_fee : ℕ
  pub service_fee : ℤ
  pub net_margin : ℤ
  pub is_zero_cost : Bool

unfoldable pub fee_breakdown : Text → ℕ → Bool → Bool → FeeBreakdown
unfolding calculate_pix_outbound_fee calculate_pix_receive_fee
fee_breakdown cpf_cnpj amount is_external is_received =
    if not is_external
    then record {
      gateway_cost = 0;
      platform_fee = 0;
      network_fee = 0;
      service_fee = pos 0;
      net_margin = pos 0;
      is_zero_cost = true;
    }
    else if is_received
    then record {
      gateway_cost = asaas_pix_inbound_net_cost;
      platform_fee = calculate_pix_receive_fee cpf_cnpj amount;
      network_fee = pix_inbound_network_fee;
      service_fee = pos (calculate_pix_receive_fee cpf_cnpj amount) -ℤ pos pix_inbound_network_fee;
      net_margin =
          pos (calculate_pix_receive_fee cpf_cnpj amount) -ℤ pos asaas_pix_inbound_net_cost;
      is_zero_cost = asaas_pix_inbound_net_cost == 0;
    }
    else record {
      gateway_cost = asaas_pix_outbound_cost;
      platform_fee = calculate_pix_outbound_fee cpf_cnpj amount;
      network_fee = platform_pix_outbound_network_fee;
      service_fee =
          pos (calculate_pix_outbound_fee cpf_cnpj amount) -ℤ pos platform_pix_outbound_network_fee;
      net_margin = pos (calculate_pix_outbound_fee cpf_cnpj amount) -ℤ pos asaas_pix_outbound_cost;
      is_zero_cost = asaas_pix_outbound_cost == 0;
    }

unfoldable pub calculate_boleto_fee : Text → ℕ
calculate_boleto_fee cpf_cnpj = 400
