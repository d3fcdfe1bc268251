-- ===== src/Emv/Payload.antt =====
-- The static payload of `build_pix_static_emv`, read back by `_walk_tlv`.
use payvorax.Base.{
  ℕ, ◌+◌, ◌<◌, ◌≤◌, ◌≡◌, refl, sym, ap, ◌∙◌, arith, length, List, [], ◌∷◌, ◌++◌, append_assoc,
  subst, some, take, length-take_le,
}
use payvorax.Base.Text.{Text, codes}
use payvorax.Base.Query.{All}
use payvorax.Emv.{
  tlv, encode, static_fields, format_cents, build_pix_static_emv, crc16_ccitt, remove_hyphens,
  merchant_account, additional_data, with_checksum, walk,
}
use payvorax.Emv.Walk.{IsField, walk-encode, padded_small}

encode-append : (fs gs : List (Text × Text)) → encode (fs ++ gs) ≡ encode fs ++ encode gs
unfolding encode
encode-append [] gs = refl
encode-append (f ∷ fs) gs =
    ap (λ t. tlv f.0 f.1 ++ t) (encode-append fs gs)
    ∙ sym (append_assoc (tlv f.0 f.1) (encode fs) (encode gs))

length-tlv :
    (value : Text) (a b : ℕ)
    → length value < 100
    → length (tlv (a ∷ b ∷ []) value) ≡ 4 + length value
length-tlv value a b h =
    omega (arith, ap (λ t. 2 + length (t ++ value)) (padded_small (length value) h))

-- The last field, the checksum over all that stands before its value.
abbrev pub checksum_field : List (Text × Text) → Text × Text
checksum_field fs = (codes "63", crc16_ccitt (encode fs ++ codes "6304"))

pub checksum_field-IsField : (fs : List (Text × Text)) → IsField (checksum_field fs)
unfolding crc16_ccitt
checksum_field-IsField fs = (refl, omega arith)

encode-checksum_field :
    (fs : List (Text × Text))
    → encode (checksum_field fs ∷ []) ≡ codes "6304" ++ crc16_ccitt (encode fs ++ codes "6304")
unfolding encode crc16_ccitt
encode-checksum_field fs = refl

pub All-append {ℓ} :
    {A : Type ℓ} (P : A → Type 0) (xs ys : List A) → All P xs → All P ys → All P (xs ++ ys)
All-append P [] ys h k = k
All-append P (x ∷ xs) ys h k = (h.0, All-append P xs ys h.1 k)

pub merchant_account_small : (key : Text) → length key ≤ 77 → length (merchant_account key) < 100
merchant_account_small key h = omega (arith, length-tlv key b'0' b'1' (omega (arith, h)))

pub additional_data_small : (key : Text) → length (additional_data key) < 100
additional_data_small key =
    let value = take 25 (remove_hyphens key) in
    let le = length-take_le 25 (remove_hyphens key) in
    omega (arith, le, length-tlv value b'0' b'5' (omega (arith, le)))

static_fields-IsField :
    (key amount : Text)
    → length key ≤ 77
    → length amount < 100
    → All IsField (static_fields key amount)
unfolding static_fields
static_fields-IsField key amount hk ha = (
  (refl, omega arith),
  (
    (refl, omega arith),
    (
      (refl, merchant_account_small key hk),
      (
        (refl, omega arith),
        (
          (refl, omega arith),
          (
            (refl, ha),
            (
              (refl, omega arith),
              ((refl, omega arith), ((refl, omega arith), ((refl, additional_data_small key), tt))),
            ),
          ),
        ),
      ),
    ),
  ),
)

length-static_fields :
    (key amount : Text) (f : Text × Text) → length (static_fields key amount ++ f ∷ []) ≡ 11
unfolding static_fields
length-static_fields key amount f = refl

pub with_checksum-encode :
    (fs : List (Text × Text)) → with_checksum fs ≡ encode (fs ++ checksum_field fs ∷ [])
unfolding with_checksum
with_checksum-encode fs =
    append_assoc (encode fs) (codes "6304") (crc16_ccitt (encode fs ++ codes "6304"))
    ∙ ap (λ t. encode fs ++ t) (sym (encode-checksum_field fs))
    ∙ sym (encode-append fs (checksum_field fs ∷ []))

-- A reader of the payload that `build_pix_static_emv` builds, for a key of up to 77 characters and an
-- amount whose text has fewer than 100, finds the ten fields that went in, and behind them the
-- checksum over all that stands before its value; twelve rounds are enough for it.
build_pix_static_emv-walk :
    (key : Text) (value : ℕ)
    → length key ≤ 77
    → length (format_cents value) < 100
    → walk 12 (build_pix_static_emv key value) 0
      ≡ some (
          static_fields key (format_cents value)
          ++ checksum_field (static_fields key (format_cents value)) ∷ [])
unfolding build_pix_static_emv
build_pix_static_emv-walk key value hk hv =
    let fs = static_fields key (format_cents value) in
    subst (λ t. walk 12 t 0 ≡ some (fs ++ checksum_field fs ∷ [])) (sym (with_checksum-encode fs))
      (walk-encode (fs ++ checksum_field fs ∷ []) 12
        (All-append IsField fs (checksum_field fs ∷ [])
          (static_fields-IsField key (format_cents value) hk hv) (checksum_field-IsField fs, tt))
        (omega (arith, length-static_fields key (format_cents value) (checksum_field fs))))
