-- ===== src/Fees/Margin.antt =====
-- The parts of a fee agree with one another, and cover what the gateway costs.
use payvorax.Base.{ℕ, ◌≡◌, Bool, true, false, arith, if◌then◌else◌}
use payvorax.Base.Int.{pos, ◌+ℤ◌, ◌-ℤ◌, ◌≤ℤ◌}
use payvorax.Base.Text.{Text}
use payvorax.Fees.{
  fee_breakdown, calculate_pix_fee, calculate_pix_network_fee, calculate_pix_service_fee,
}

-- For every client, amount and direction: the previewed platform fee is the fee that is charged,
-- it is the network fee plus the service fee, it is the gateway's cost plus the margin, the service
-- fee is not negative, and the margin is at least R$2.00 on every external transfer and not negative
-- on any other.
fee_breakdown-consistent :
    (cpf_cnpj : Text) (amount : ℕ) (is_external is_received : Bool)
    → let f = fee_breakdown cpf_cnpj amount is_external is_received in
      (f.platform_fee ≡ calculate_pix_fee cpf_cnpj amount is_external is_received)
      × (f.network_fee ≡ calculate_pix_network_fee cpf_cnpj amount is_external is_received)
      × (f.service_fee ≡ calculate_pix_service_fee cpf_cnpj amount is_external is_received)
      × (pos f.platform_fee ≡ pos f.network_fee +ℤ f.service_fee)
      × (pos f.platform_fee ≡ pos f.gateway_cost +ℤ f.net_margin)
      × (pos 0 ≤ℤ f.service_fee)
      × ((if is_external then pos 200 else pos 0) ≤ℤ f.net_margin)
unfolding fee_breakdown calculate_pix_service_fee ◌+ℤ◌ ◌-ℤ◌
fee_breakdown-consistent cpf_cnpj amount true true = ground arith
fee_breakdown-consistent cpf_cnpj amount true false = ground arith
fee_breakdown-consistent cpf_cnpj amount false r = ground arith
