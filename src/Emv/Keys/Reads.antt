-- ===== src/Emv/Keys/Reads.antt =====
-- What `parse_emv_pix_key` and `parse_emv_payload_url` (app/core/pix_emv.py) read in a code for
-- deposits.
use payvorax.Emv.Payload.{
  checksum_field, checksum_field-IsField, with_checksum-encode, All-append, merchant_account_small,
  additional_data_small,
}
use payvorax.Base.{
  ℕ, zero, suc, ◌≤◌, ◌≡◌, refl, sym, subst, inl, inr, Option, none, some, List, [], ◌∷◌, ◌++◌,
  arith, Option-cases, length, length-take_le, ap, ◌∙◌, Bool, false, append-nil, true, drop,
}
use payvorax.Base.Text.{Text, codes, text_eq}
use payvorax.Base.Query.{All}
use payvorax.Emv.{merchant_account, encode, walk_step, walk, int_of, tlv}
use payvorax.Emv.Keys.{
  deposit_fields, build_pix_static_emv_no_amount, read_block, scan, is_payload_url, key_kind,
  parse_emv_pix_key, parse_emv_payload_url, key_in_block, url_in_block, is_pix_block, answer_of,
}
use payvorax.Emv.Walk.{IsField, walk-encode, walk-cons}

-- The loop over fields that have been read already.
abbrev pick {ℓ} :
    {A : Type ℓ} → (List (Text × Text) → Option A) → ℕ → List (Text × Text) → Option (Option A)
pick read inner [] = some none
pick read inner (f ∷ fs) =
    let rest = pick read inner fs in
    elim (read_block read inner f.0 f.1) [
      | none ↦ none
      | some none ↦ rest
      | some (some answer) ↦ some (some answer)
    ]

walk-ended : (fuel n : ℕ) (s : Text) → walk_step s n ≡ none → walk (suc fuel) s n ≡ some []
unfolding walk
walk-ended fuel n s h = grind (arith, h)

walk-stuck_later :
    (fuel n next : ℕ) (s tag value : Text)
    → walk_step s n ≡ some (tag, value, next)
    → walk fuel s next ≡ none
    → walk (suc fuel) s n ≡ none
unfolding walk
walk-stuck_later fuel n next s tag value h k = grind (arith, h, k)

-- Two results of the same walk.
same_fields :
    (fuel n : ℕ) (s : Text) (fs gs : List (Text × Text))
    → walk fuel s n ≡ some fs
    → walk fuel s n ≡ some gs
    → fs ≡ gs
same_fields fuel n s fs gs h k =
    ap (λ (o : Option (List (Text × Text))). elim o [ none ↦ [] | some x ↦ x ]) (sym h ∙ k)

scan-ended :
    {A : Type 0} (read : List (Text × Text) → Option A) (inner fuel n : ℕ) (s : Text)
    → walk_step s n ≡ none
    → scan read inner (suc fuel) s n ≡ some none
unfolding scan
scan-ended read inner fuel n s h = grind (arith, h)

scan-next :
    {A : Type 0} (read : List (Text × Text) → Option A) (inner fuel n next : ℕ) (s tag value : Text)
    (gs : List (Text × Text))
    → walk_step s n ≡ some (tag, value, next)
    → scan read inner fuel s next ≡ pick read inner gs
    → scan read inner (suc fuel) s n ≡ pick read inner ((tag, value) ∷ gs)
unfolding scan
scan-next read inner fuel n next s tag value gs h k = grind (arith, h, k)

-- The loop on the fields that a walk yields.
scan-walk :
    {A : Type 0} (read : List (Text × Text) → Option A) (inner fuel : ℕ) (s : Text) (n : ℕ)
    (fs : List (Text × Text))
    → walk fuel s n ≡ some fs
    → scan read inner fuel s n ≡ pick read inner fs
unfolding walk
scan-walk read inner zero s n fs h = absurd (ground (arith, h))
scan-walk read inner (suc fuel) s n fs h = elim (Option-cases (walk_step s n)) [
  | inl ended ↦
      scan-ended read inner fuel n s ended
      ∙ ap (pick read inner) (same_fields (suc fuel) n s [] fs (walk-ended fuel n s ended) h)
  | inr ((tag, value, next), step) ↦ elim (Option-cases (walk fuel s next)) [
    | inl stuck ↦ absurd (grind (arith, walk-stuck_later fuel n next s tag value step stuck, h))
    | inr (gs, later) ↦
        scan-next read inner fuel n next s tag value gs step
          (scan-walk read inner fuel s next gs later)
        ∙ ap (pick read inner) (
            same_fields (suc fuel) n s ((tag, value) ∷ gs) fs
              (walk-cons s n next fuel tag value gs step later) h)
  ]
]

deposit_fields-IsField :
    (key merchant : Text) → length key ≤ 77 → All IsField (deposit_fields key merchant)
unfolding deposit_fields
deposit_fields-IsField key merchant h = (
  (refl, omega arith),
  (
    (refl, omega arith),
    (
      (refl, merchant_account_small key h),
      (
        (refl, omega arith),
        (
          (refl, omega arith),
          (
            (refl, omega arith),
            (
              (refl, omega (arith, length-take_le 25 merchant)),
              ((refl, omega arith), ((refl, additional_data_small key), tt)),
            ),
          ),
        ),
      ),
    ),
  ),
)

deposit-walk :
    (key merchant : Text)
    → length key ≤ 77
    → walk 11 (build_pix_static_emv_no_amount key merchant) 0
      ≡ some (deposit_fields key merchant ++ checksum_field (deposit_fields key merchant) ∷ [])
unfolding build_pix_static_emv_no_amount deposit_fields
deposit-walk key merchant h =
    let fs = deposit_fields key merchant in
    subst (λ t. walk 11 t 0 ≡ some (fs ++ checksum_field fs ∷ [])) (sym (with_checksum-encode fs))
      (walk-encode (fs ++ checksum_field fs ∷ []) 11
        (All-append IsField fs (checksum_field fs ∷ []) (deposit_fields-IsField key merchant h)
          (checksum_field-IsField fs, tt))
        (omega arith))

abbrev account_fields : Text → List (Text × Text)
account_fields key = (codes "00", codes "BR.GOV.BCB.PIX") ∷ (codes "01", key) ∷ []

merchant_account-walk :
    (key : Text) → length key ≤ 77 → walk 3 (merchant_account key) 0 ≡ some (account_fields key)
unfolding encode
merchant_account-walk key h =
    subst (λ t. walk 3 t 0 ≡ some (account_fields key))
      (ap (λ t. tlv (codes "00") (codes "BR.GOV.BCB.PIX") ++ t) (append-nil (tlv (codes "01") key)))
      (walk-encode (account_fields key) 3 ((refl, omega arith), ((refl, omega (arith, h)), tt))
        (omega arith))

slot-read_block :
    {A : Type 0} (read : List (Text × Text) → Option A) (value : Text) (sub : List (Text × Text))
    → walk 3 value 0 ≡ some sub
    → is_pix_block sub ≡ true
    → read_block read 3 (codes "26") value ≡ some (read sub)
unfolding read_block int_of
slot-read_block read value sub h pix = rw h (rw pix refl)

account_fields-Pix : (key : Text) → is_pix_block (account_fields key) ≡ true
unfolding text_eq
account_fields-Pix key = refl

-- A block that gives `o`, where those behind it give nothing.
pick-first :
    {A : Type 0} (read : List (Text × Text) → Option A) (tag value : Text) (fs : List (Text × Text))
    (o : Option A)
    → read_block read 3 tag value ≡ some o
    → pick read 3 fs ≡ some none
    → pick read 3 ((tag, value) ∷ fs) ≡ some o
pick-first read tag value fs none h k = grind (arith, h, k)
pick-first read tag value fs (some a) h k = grind (arith, h, k)

-- Of the fields of a code for deposits only the block of the key is read.
deposit-pick :
    {A : Type 0} (read : List (Text × Text) → Option A) (key merchant : Text)
    → length key ≤ 77
    → pick read 3 (deposit_fields key merchant ++ checksum_field (deposit_fields key merchant) ∷ [])
      ≡ some (read (account_fields key))
unfolding read_block int_of deposit_fields
deposit-pick read key merchant h =
    pick-first read (codes "26") (merchant_account key)
      (drop 3 (deposit_fields key merchant ++ checksum_field (deposit_fields key merchant) ∷ []))
      (read (account_fields key))
      (slot-read_block read (merchant_account key) (account_fields key)
        (merchant_account-walk key h) (account_fields-Pix key))
      refl

-- Only the block of the key is read in a code for deposits.
deposit-scan :
    {A : Type 0} (read : List (Text × Text) → Option A) (key merchant : Text)
    → length key ≤ 77
    → scan read 3 11 (build_pix_static_emv_no_amount key merchant) 0
      ≡ some (read (account_fields key))
deposit-scan read key merchant h =
    scan-walk read 3 11 (build_pix_static_emv_no_amount key merchant) 0 _
      (deposit-walk key merchant h)
    ∙ deposit-pick read key merchant h

-- A code for deposits with a key of up to 77 characters that is not empty and does not look like an
-- address is read back: `parse_emv_pix_key` gives the key and its kind, and `parse_emv_payload_url`
-- finds no address in it. Eleven rounds are enough for the code, and three for the block of the key.
pub deposit_code-read :
    (domain : Text → Bool) (key merchant : Text)
    → length key ≤ 77
    → text_eq key [] ≡ false
    → is_payload_url domain key ≡ false
    → (parse_emv_pix_key domain 3 11 (build_pix_static_emv_no_amount key merchant)
        ≡ some (some (key, key_kind key)))
      × (parse_emv_payload_url domain 3 11 (build_pix_static_emv_no_amount key merchant)
          ≡ some none)
unfolding parse_emv_pix_key parse_emv_payload_url key_in_block url_in_block text_eq
deposit_code-read domain key merchant h filled no_url = (
  ap answer_of (deposit-scan (key_in_block domain) key merchant h) ∙ rw filled (rw no_url refl),
  deposit-scan (url_in_block domain) key merchant h ∙ rw no_url refl,
)
