-- ===== src/Emv/Keys.antt =====
-- The readers of app/core/pix_emv.py for the key and the address in a code, `parse_emv_pix_key` and
-- `parse_emv_payload_url`, and the code for deposits, `build_pix_static_emv_no_amount`.
pub mod Reads
use payvorax.Base.{
  ℕ, zero, suc, Bool, true, false, not, ◌&&◌, ◌||◌, Option, none, some, List, [], ◌∷◌, ◌++◌, leb,
  ◌==◌, if◌then◌else◌, length, take, drop, map,
}
use payvorax.Base.Text.{contains, Text, codes, text_eq, strip, to_upper, is_digit, is_letter}
use payvorax.Emv.{
  walk_step, walk, int_of, number, minus, no_number, merchant_account, additional_data,
  with_checksum,
}
use payvorax.Emv.TopLevel.{get_field}

-- The fields of a code for deposits, which leaves the amount to the payer.
unfoldable pub deposit_fields : Text → Text → List (Text × Text)
deposit_fields pix_key merchant_name =
    (codes "00", codes "01")
    ∷ (codes "01", codes "12")
    ∷ (codes "26", merchant_account pix_key)
    ∷ (codes "52", codes "0000")
    ∷ (codes "53", codes "986")
    ∷ (codes "58", codes "BR")
    ∷ (codes "59", take 25 merchant_name)
    ∷ (codes "60", codes "BRASILIA")
    ∷ (codes "62", additional_data pix_key)
    ∷ []

-- `build_pix_static_emv_no_amount`
unfoldable pub build_pix_static_emv_no_amount : Text → Text → Text
unfolding with_checksum
build_pix_static_emv_no_amount pix_key merchant_name =
    with_checksum (deposit_fields pix_key merchant_name)

abbrev starts_with : Text → Text → Bool
starts_with s prefix = text_eq (take (length prefix) s) prefix

abbrev starts_with_letter : Text → Bool
starts_with_letter [] = false
starts_with_letter (c ∷ s) = is_letter c

-- `_is_payload_url`; `domain` stands for the match of `_PAYLOAD_URL_DOMAIN_RE`.
unfoldable pub is_payload_url : (Text → Bool) → Text → Bool
is_payload_url domain value =
    starts_with value (codes "https://")
    || starts_with value (codes "http://")
    || starts_with value (codes "pix://")
    || (contains (codes "/") value && starts_with_letter value && domain value)

-- `_normalise_payload_url`
unfoldable pub normalise_payload_url : Text → Text
normalise_payload_url value =
    let url = strip value in
    if starts_with url (codes "pix://")
    then codes "https://" ++ drop 6 url
    else if not (starts_with url (codes "http"))
    then codes "https://" ++ url
    else url

-- The slots 26 to 51 hold merchant accounts.
abbrev is_account_slot : Text → Bool
is_account_slot tag = elim (int_of tag) [
  | number n ↦ leb 26 n && leb n 51
  | minus n ↦ false
  | no_number ↦ false
]

-- `sub.get(tag, "")`
abbrev sub_field : Text → List (Text × Text) → Text
sub_field tag sub = elim (get_field tag sub) [ none ↦ [] | some value ↦ value ]

abbrev pub is_pix_block : List (Text × Text) → Bool
is_pix_block sub =
    let gui = map to_upper (sub_field (codes "00") sub) in
    contains (codes "BCB.PIX") gui || contains (codes "BR.GOV.BCB") gui

-- What the loop reads in a block: `read` is asked about the fields of a Pix block, and `some none`
-- goes on. The walk inside runs on the fuel `inner`; the outer `none` says that it has not stopped.
unfoldable pub read_block {ℓ} :
    {A : Type ℓ} → (List (Text × Text) → Option A) → ℕ → Text → Text → Option (Option A)
read_block read inner tag value =
    if is_account_slot tag
    then elim (walk inner value 0) [
      | none ↦ none
      | some sub ↦ if is_pix_block sub then some (read sub) else some none
    ]
    else some none

-- The loop over the blocks that both readers share, which ends with the first block that gives an
-- answer. The outer `none` says that it has not stopped within its fuel.
unfoldable pub scan {ℓ} :
    {A : Type ℓ} → (List (Text × Text) → Option A) → ℕ → ℕ → Text → ℕ → Option (Option A)
scan read inner zero s at = none
scan read inner (suc fuel) s at = elim (walk_step s at) [
  | none ↦ some none
  | some (tag, value, next) ↦
      let rest = scan read inner fuel s next in
      elim (read_block read inner tag value) [
        | none ↦ none
        | some none ↦ rest
        | some (some answer) ↦ some (some answer)
      ]
]

pub data KeyKind : Type 0 where
  email_key cnpj_key cpf_key phone_key evp_key : KeyKind

abbrev only_digits : Text → Bool
only_digits [] = true
only_digits (c ∷ s) = is_digit c && only_digits s

-- `re.match(r'^\d{n}$', key)`: the `$` also matches before a line feed at the end.
abbrev is_digits : ℕ → Text → Bool
is_digits n key =
    length (take n key) == n
    && only_digits (take n key)
    && (text_eq (drop n key) [] || text_eq (drop n key) (10 ∷ []))

abbrev pub key_kind : Text → KeyKind
key_kind key =
    if contains (codes "@") key
    then email_key
    else if is_digits 14 key
    then cnpj_key
    else if is_digits 11 key
    then cpf_key
    else if starts_with key (codes "+")
    then phone_key
    else evp_key

-- The body of the loop of `parse_emv_pix_key`: `some none` is its `return None, None`.
unfoldable pub key_in_block : (Text → Bool) → List (Text × Text) → Option (Option (Text × KeyKind))
key_in_block domain sub =
    let key = sub_field (codes "01") sub in
    if contains (codes "/") (sub_field (codes "25") sub)
    then some none
    else if text_eq key []
    then none
    else if is_payload_url domain key
    then some none
    else some (some (key, key_kind key))

abbrev pub answer_of {ℓ} : {A : Type ℓ} → Option (Option (Option A)) → Option (Option A)
answer_of none = none
answer_of (some none) = some none
answer_of (some (some answer)) = some answer

-- `parse_emv_pix_key`
unfoldable pub parse_emv_pix_key : (Text → Bool) → ℕ → ℕ → Text → Option (Option (Text × KeyKind))
unfolding scan
parse_emv_pix_key domain inner fuel emv = answer_of (scan (key_in_block domain) inner fuel emv 0)

-- The body of the loop of `parse_emv_payload_url`.
unfoldable pub url_in_block : (Text → Bool) → List (Text × Text) → Option Text
url_in_block domain sub =
    if contains (codes "/") (sub_field (codes "25") sub)
    then some (normalise_payload_url (sub_field (codes "25") sub))
    else if is_payload_url domain (sub_field (codes "01") sub)
    then some (normalise_payload_url (sub_field (codes "01") sub))
    else none

-- `parse_emv_payload_url`
unfoldable pub parse_emv_payload_url : (Text → Bool) → ℕ → ℕ → Text → Option (Option Text)
unfolding scan
parse_emv_payload_url domain inner fuel emv = scan (url_in_block domain) inner fuel emv 0
