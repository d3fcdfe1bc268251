-- ===== src/Tests/Accounts.antt =====
-- Cancellations, manual confirmations, subscriptions and cards.
use payvorax.Tests.Fixtures.{context, request, request_key, alice, bank, bank_on_way, on_way}
use payvorax.Base.{◌≡◌, refl, ◌⊎◌, some, List, [], ◌∷◌, arith}
use payvorax.Bank.{
  trial_already_used, raise, UserSubscription, Bank, confirmed, physical, virtual_temp, active,
  sent,
}
use payvorax.Cards.{new_card}
use payvorax.Pix.Lifecycle.{with_status, find_pix, confirm_pix, cancel_pix}
use payvorax.Pix.Lifecycle.Status.{Cancels, cancel_pix-Cancels}
use payvorax.Pix.Webhook.{transfer_done, find_transfer}
use payvorax.Pix.Webhook.Delivery.{confirmed_by_hand_is_never_debited}
use payvorax.Pix.Webhook.Inert.{deliver_all}
use payvorax.Subscription.{new_subscription, get_or_create, check_expiry, on_trial, activate_trial}
use payvorax.Subscription.Renewal.{Renews, Expires, Stays, check_expiry_cases}
use payvorax.Subscription.States.{Op, run, trial_only_once, pay_balance, cancel, look}
use payvorax.Base.Int.{pos}
use payvorax.Solvency.{Solvent}
use payvorax.Solvency.Run.{
  Call, perform_all, perform_all-Solvent, call_pix, call_event, call_deposit, call_audit,
}

cancel_pix-Cancels_example : Cancels 7 1 bank_on_way (cancel_pix 7 1 bank_on_way)
cancel_pix-Cancels_example = cancel_pix-Cancels 7 1 bank_on_way

abbrev confirmed_then_done : Bank
confirmed_then_done = deliver_all 70 ((transfer_done, 2000) ∷ []) (confirm_pix 7 bank_on_way).1

confirmed_by_hand_is_never_debited_example :
    (find_pix 7 confirmed_then_done ≡ some (with_status confirmed on_way))
    × (confirmed_then_done.users ≡ bank_on_way.users)
    × (confirmed_then_done.ledger ≡ bank_on_way.ledger)
confirmed_by_hand_is_never_debited_example =
    confirmed_by_hand_is_never_debited ((transfer_done, 2000) ∷ []) 70 on_way bank_on_way
      (unfold find_transfer in refl) refl (omega arith) refl

abbrev due : UserSubscription
due = record (new_subscription 1) { status = active; expires_at = some 500 }

abbrev bank_due : Bank
bank_due = record bank { subscriptions = due ∷ [] }

check_expiry_cases_example :
    Renews 1000 due alice bank_due (check_expiry 1000 due bank_due)
    ⊎ (Expires 1000 due alice bank_due (check_expiry 1000 due bank_due)
        ⊎ Stays 1000 due bank_due (check_expiry 1000 due bank_due))
check_expiry_cases_example = check_expiry_cases 1000 due alice bank_due refl refl

abbrev tried : UserSubscription
tried = on_trial 1000 (new_subscription 1)

abbrev bank_tried : Bank
bank_tried = record bank { subscriptions = tried ∷ [] }

abbrev later : List Op
later = look 90000 ∷ cancel ∷ pay_balance 99000 ∷ []

trial_only_once_example :
    activate_trial 9000 alice (run 1 later bank_tried)
    ≡ (raise trial_already_used, run 1 later bank_tried)
trial_only_once_example =
    trial_only_once 1000 9000 alice tried bank bank_tried later
      (unfold activate_trial get_or_create in refl)

abbrev bank_cards : Bank
bank_cards = record bank {
  cards = new_card 1000 20 1 physical ∷ new_card 1000 21 2 virtual_temp ∷ [];
}

abbrev day : List Call
day =
    call_pix context request request_key 5 1 sent
    ∷ call_event transfer_done 2000 7
    ∷ call_deposit 2 1000
    ∷ call_audit (some (pos 90000))
    ∷ []

perform_all-Solvent_example : Solvent (perform_all day bank)
perform_all-Solvent_example =
    perform_all-Solvent day bank (omega arith, (omega arith, (omega arith, tt)))
