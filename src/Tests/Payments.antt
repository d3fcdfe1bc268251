-- ===== src/Tests/Payments.antt =====
-- Outbound payments, their events and internal transfers.
use payvorax.Pix.Request.{accepted}
use payvorax.Tests.Fixtures.{
  alice, bob, platform, bank, context, request, request_key, on_way, bank_on_way, poor_alice,
  bank_short, payment_made, platform_found, alice-IsCustomer, poor_alice-IsCustomer,
}
use payvorax.Base.{◌≡◌, refl, some, [], ◌∷◌, arith, none}
use payvorax.Base.Int.{pos, ◌+ℤ◌, ◌-ℤ◌, ◌≤ℤ◌}
use payvorax.Base.Text.{codes}
use payvorax.Bank.Money.{find_user, with_balance}
use payvorax.Bank.{ok, PixTransaction, Bank, confirmed, failed, sent, received, email}
use payvorax.Matrix.{is_matrix, get_matrix_user}
use payvorax.Pix.Create.{create_pix}
use payvorax.Pix.Create.Replay.{create_pix-replay}
use payvorax.Pix.Create.Reserve.{Reserves, create_pix-Reserves}
use payvorax.Pix.Lifecycle.{with_status}
use payvorax.Pix.Transfer.{find_recipient_user, execute_internal_transfer}
use payvorax.Pix.Transfer.Moves.{Transfers, execute_internal_transfer-Transfers}
use payvorax.Pix.Webhook.{find_transfer, process_transfer_event, transfer_done, transfer_failed}
use payvorax.Pix.Webhook.Debit.{Debited, Clamped}
use payvorax.Pix.Webhook.Delivery.{redelivery_changes_nothing, created_then_done}
use payvorax.Pix.Webhook.Inert.{deliver_all}
use payvorax.Pix.Webhook.Events.{
  Completed, transfer_failed-Completed, transfer_done-Debited, transfer_done-Clamped,
}

abbrev after_done : Bank
after_done = (process_transfer_event transfer_done 2000 70 bank_on_way).1

created_then_done_example :
    Completed confirmed on_way after_done
    × (find_user 1 after_done ≡ some (with_balance (pos 100000 -ℤ pos 10400) alice))
    × (pos 10400 ≤ℤ pos 100000)
    × (get_matrix_user after_done ≡ some (with_balance (pos 5000 +ℤ pos 100) platform))
created_then_done_example =
    created_then_done context request request_key 5 1 2000 70 alice platform
      (λ p. accepted none (some 70)) bank on_way bank_on_way refl refl refl
      (unfold find_recipient_user in refl) platform_found alice-IsCustomer refl refl payment_made
      refl

create_pix-replay_example :
    create_pix context (record request { value = 1 }) request_key 6 2 received bank_on_way
    ≡ (ok on_way, bank_on_way)
create_pix-replay_example =
    create_pix-replay request_key on_way bank_on_way context context request
      (record request { value = 1 }) 5 6 1 2 sent received bank payment_made

create_pix-Reserves_example :
    Reserves context request request_key 5 1 alice bank
      (create_pix context request request_key 5 1 sent bank)
create_pix-Reserves_example =
    create_pix-Reserves context request request_key 5 1 alice bank refl refl refl
      (unfold find_recipient_user in refl)

execute_internal_transfer-Transfers_example : Transfers alice bob 2500 bank (
    execute_internal_transfer context alice bob 2500
      (codes "bob@example.com")
      email
      request_key
      5
      bank)
execute_internal_transfer-Transfers_example =
    execute_internal_transfer-Transfers context alice bob 2500 (codes "bob@example.com") email
      request_key 5 bank refl refl

redelivery_changes_nothing_example :
    deliver_all 70 ((transfer_failed, 3000) ∷ (transfer_done, 4000) ∷ []) after_done ≡ after_done
redelivery_changes_nothing_example =
    redelivery_changes_nothing transfer_done ((transfer_failed, 3000) ∷ (transfer_done, 4000) ∷ [])
      2000 70 on_way bank_on_way (unfold find_transfer in refl) refl (omega arith)

transfer_done-Debited_example :
    Completed confirmed on_way after_done × Debited on_way alice platform bank_on_way after_done
transfer_done-Debited_example =
    transfer_done-Debited 2000 70 on_way bank_on_way alice platform (unfold find_transfer in refl)
      refl refl refl refl platform_found alice-IsCustomer (omega arith)

abbrev after_short : Bank
after_short = (process_transfer_event transfer_done 2000 70 bank_short).1

transfer_done-Clamped_example :
    Completed confirmed on_way after_short
    × Clamped on_way poor_alice platform bank_short after_short
transfer_done-Clamped_example =
    transfer_done-Clamped 2000 70 on_way bank_short poor_alice platform
      (unfold find_transfer in refl) refl refl refl refl (unfold is_matrix in refl)
      poor_alice-IsCustomer (omega arith)

abbrev after_failed : Bank
after_failed = (process_transfer_event transfer_failed 2000 7 bank_on_way).1

transfer_failed-Completed_example :
    Completed failed on_way after_failed × (after_failed.users ≡ bank_on_way.users)
transfer_failed-Completed_example =
    transfer_failed-Completed 2000 7 on_way bank_on_way (unfold find_transfer in refl) refl refl

abbrev failed_row : PixTransaction
failed_row = with_status failed on_way

abbrev bank_failed : Bank
bank_failed = record bank_on_way { pix = failed_row ∷ [] }
