-- ===== src/Pix/Execute/Dispatches.antt =====
-- A stored transfer is dispatched once.
use payvorax.Gateway.Transfers.{
  gateway_key_type, get_operation_key, PaymentEnd, create_pix_payment, or_text,
}
use payvorax.Gateway.Client.Sent.{Added, none-Added, request-Added}
use payvorax.Gateway.Client.{TransferBody, transfer, Client, World, Request, Wire}
use payvorax.Bank.{Bank, PixTransaction, Result, ok, raise, is_created, invalid_charge_status}
use payvorax.Gateway.Client.Attempts.{answered, is_documented}
use payvorax.Gateway.PayCode.Once.{reported, create-Balanced}
use payvorax.Pix.Execute.{
  is_own_transfer, with_dispatch, with_failure, dispatched, dispatch_answer, execute_pix_payment,
  key_type_value, execute_pix_payment_real,
}
use payvorax.Base.Query.{find_first, find_first-holds, find_first-update_self}
use payvorax.Base.{
  ℕ, ◌+◌, ◌≡◌, refl, false, Option, some, arith, ap, true, List, sym, subst, inl, inr, Bool-cases,
  take,
}
use payvorax.Base.Text.{Text, codes}

abbrev pub succeeded {ℓ} : {A : Type ℓ} → Result A → ℕ
succeeded (ok x) = 1
succeeded (raise e) = 0

-- The row is not open for a dispatch any more.
abbrev IsClosed : ℕ → ℕ → Bank → Type 0
IsClosed id k b =
    (t : PixTransaction) × (find_first (is_own_transfer id k) b.pix ≡ some t)
    × (is_created t.status ≡ false)

dispatched-IsClosed :
    (corr id k : ℕ) (t : PixTransaction) (b : Bank) (o : PaymentEnd × World)
    → find_first (is_own_transfer id k) b.pix ≡ some t
    → IsClosed id k (dispatch_answer id (dispatched corr id k b o)).1
dispatched-IsClosed corr id k t b (PaymentEnd.paid r, w) stored = (
  with_dispatch corr t,
  find_first-update_self (is_own_transfer id k) (with_dispatch corr) b.pix t stored
      (find_first-holds (is_own_transfer id k) b.pix t stored),
  refl,
)
dispatched-IsClosed corr id k t b (PaymentEnd.failed e, w) stored = (
  with_failure t,
  find_first-update_self (is_own_transfer id k) with_failure b.pix t stored
      (find_first-holds (is_own_transfer id k) b.pix t stored),
  refl,
)

dispatched-answered :
    (corr id k : ℕ) (b : Bank) (w : World) (o : PaymentEnd × World)
    → answered o.1 ≡ answered w + reported o.0
    → let x = dispatch_answer id (dispatched corr id k b o) in
      answered x.2 ≡ answered w + succeeded x.0
dispatched-answered corr id k b w (PaymentEnd.paid r, w') h = h
dispatched-answered corr id k b w (PaymentEnd.failed e, w') h = h

-- A request for the stored transfer `t`: its value, its key and its idempotency key.
abbrev pub IsDispatchOf : PixTransaction → Request → Type 0
IsDispatchOf t r =
    (body : TransferBody) × (r ≡ transfer body (some t.idempotency_key))
    × (body.value ≡ t.value)
    × (body.pix_key ≡ t.pix_key)

create-IsDispatchOf :
    (p : Client) (t : PixTransaction) (type description : Text) (w : World)
    → Added
        (IsDispatchOf t)
        3
        w
        (create_pix_payment p t.value t.pix_key type description (some t.idempotency_key) w).1
unfolding create_pix_payment
create-IsDispatchOf p t type description w =
    let body : TransferBody = record {
      value = t.value;
      pix_key = t.pix_key;
      pix_key_type = gateway_key_type type;
      description = take 140 description;
      operation_key = get_operation_key p w;
    } in
    request-Added (IsDispatchOf t) p (transfer body (some t.idempotency_key))
      (body, refl, refl, refl) w

dispatched-world :
    (corr id k : ℕ) (b : Bank) (o : PaymentEnd × World)
    → (dispatch_answer id (dispatched corr id k b o)).2 ≡ o.1
dispatched-world corr id k b (PaymentEnd.paid r, w) = refl
dispatched-world corr id k b (PaymentEnd.failed e, w) = refl

module _ (g : Option Client) (corr : ℕ) (description : Text) (id k : ℕ) where
  closed-refused :
      (b : Bank) (w : World)
      → IsClosed id k b
      → execute_pix_payment g corr description id k b w ≡ (raise invalid_charge_status, b, w)
  unfolding execute_pix_payment
  closed-refused b w (t, stored, closed) = ground (arith, stored, closed)

-- One call on a stored row, and what it leaves for the next.
module _ (p : Client)
    (documented : (sent : List (Request × Wire)) (q : Request)
      → is_documented p (p.send sent q) ≡ true)
    (corr again : ℕ) (description other : Text) (id k : ℕ) (t : PixTransaction) (b : Bank)
    (w : World) (stored : find_first (is_own_transfer id k) b.pix ≡ some t) where
  abbrev Dispatches : Result ℕ × Bank × World → Type 0
  Dispatches o =
      Added (IsDispatchOf t) 3 w o.2
      × (answered o.2 ≡ answered w + succeeded o.0)
      × ((execute_pix_payment (some p) again other id k o.1 o.2).2 ≡ o.2)

  row-Dispatches :
      Dispatches
        (dispatch_answer id (execute_pix_payment_real (some p) corr description id k t b w))
  unfolding execute_pix_payment_real
  row-Dispatches =
      let text = or_text (some description) (codes "PIX transfer") in
      let o =
        create_pix_payment p t.value t.pix_key (key_type_value t.key_type) text
          (some t.idempotency_key) w in
      (
        subst (Added (IsDispatchOf t) 3 w) (sym (dispatched-world corr id k b o))
            (create-IsDispatchOf p t (key_type_value t.key_type) text w),
        dispatched-answered corr id k b w o
            (create-Balanced p documented t.value t.pix_key _ _ _ w),
        ap (λ x. x.2)
            (closed-refused (some p) again other id k _ _
              (dispatched-IsClosed corr id k t b o stored)),
      )

  endpoint-Dispatches : Dispatches (execute_pix_payment (some p) corr description id k b w)
  unfolding execute_pix_payment
  endpoint-Dispatches = elim (Bool-cases (is_created t.status)) [
    | inr closed ↦
        let e : execute_pix_payment (some p) corr description id k b w
            ≡ (raise invalid_charge_status, b, w) =
          closed-refused (some p) corr description id k b w (t, stored, closed) in
        subst Dispatches (sym e) (
          none-Added (IsDispatchOf t) 3 w,
          ground arith,
          ap (λ x. x.2) (closed-refused (some p) again other id k b w (t, stored, closed)),
        )
    | inl fresh ↦
        let e : execute_pix_payment (some p) corr description id k b w
            ≡ dispatch_answer id (execute_pix_payment_real (some p) corr description id k t b w) =
          ground (arith, stored, fresh) in
        subst Dispatches (sym e) row-Dispatches
  ]

-- With a gateway that answers the way it documents (the date, if there is one, can be read, and there
-- is an amount), the endpoint that executes a stored transfer sends three requests at most, each of
-- them a transfer of the stored value to the stored key with the stored idempotency key; it succeeds
-- exactly if one of them got a positive answer, which never more than one does; and a second call for
-- the same transfer, whatever the first has met, a timeout included, sends nothing.
pub execute_pix_payment-dispatches_once :
    (p : Client) (corr again : ℕ) (description other : Text) (id k : ℕ) (t : PixTransaction)
    (b : Bank) (w : World)
    → find_first (is_own_transfer id k) b.pix ≡ some t
    → ((sent : List (Request × Wire)) (q : Request) → is_documented p (p.send sent q) ≡ true)
    → let o = execute_pix_payment (some p) corr description id k b w in
      Added (IsDispatchOf t) 3 w o.2
      × (answered o.2 ≡ answered w + succeeded o.0)
      × ((execute_pix_payment (some p) again other id k o.1 o.2).2 ≡ o.2)
execute_pix_payment-dispatches_once p corr again description other id k t b w stored documented =
    endpoint-Dispatches p documented corr again description other id k t b w stored
