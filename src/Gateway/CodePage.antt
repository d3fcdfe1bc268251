-- ===== src/Gateway/CodePage.antt =====
-- `AsaasAdapter.pay_qr_code` (app/adapters/asaas_adapter.py): the page behind a dynamic code. The
-- libraries that fetch and read it are parameters.
use payvorax.Gateway.Transfers.{
  Fault, gone, empty_page, invalid_page, unreachable_page, unreadable_answer, or_text,
}
use payvorax.Base.{
  ℕ, ◌-◌, ◌%◌, Bool, not, ◌&&◌, ◌||◌, Option, none, some, List, [], ◌∷◌, ◌++◌, map, ltb, leb, ◌==◌,
  if◌then◌else◌, length, take,
}
use payvorax.Base.Text.{Text, codes, text_eq, to_upper, to_lower, strip, contains}

-- The JSON of a dynamic code: `status`, `pixCopiaECola`, `chave`, `valor.original` and
-- `valor.modalidadeAlteracao`.
pub record PageCharge : Type 0 where
  pub status : Option Text
  pub copia_e_cola : Option Text
  pub chave : Option Text
  pub original : Option Text
  pub modalidade : Option Text

pub record Page : Type 0 where
  pub status : ℕ
  pub text : Text
  pub content_type : Text

-- The page at an address (`none` if it cannot be reached), `json.loads`, `base64.urlsafe_b64decode`,
-- `float` of a text in cents, and the hexadecimal SHA-256.
pub record Libraries : Type 0 where
  pub fetch : Text → Option Page
  pub loads : Text → Option PageCharge
  pub b64_decode : Text → Option Text
  pub float_of : Text → Option ℕ
  pub sha256 : Text → Text

-- `text.split(".")`
abbrev split_dots : Text → List Text
split_dots [] = [] ∷ []
split_dots (c ∷ s) =
    let rest = split_dots s in
    if c == b'.'
    then [] ∷ rest
    else elim rest [ [] ↦ (c ∷ []) ∷ [] | part ∷ parts ↦ (c ∷ part) ∷ parts ]

-- `"=" * pad`, where a pad of 4 is none.
abbrev padding : Text → Text
padding part = let pad = 4 - length part % 4 in if pad == 4 then [] else take pad (codes "====")

abbrev is_jws : Page → Text → Bool
is_jws page body =
    contains (codes "jose") (map to_lower page.content_type)
    || (not (text_eq (take 1 body) (codes "{")) && leb 3 (length (split_dots body)))

pub data Loaded : Type 0 where
  loaded : PageCharge → Loaded
  not_loaded : Fault → Loaded

-- The second part of a JWS, which has at least three.
abbrev jws_payload : List Text → Option Text
jws_payload (header ∷ payload ∷ signature ∷ parts) = some payload
jws_payload _ = none

-- A text that is not JSON raises the library's `ValueError`.
abbrev plain_data : Libraries → Text → Loaded
plain_data m text = elim (m.loads text) [ none ↦ not_loaded unreadable_answer | some d ↦ loaded d ]

abbrev jws_data : Libraries → Option Text → Loaded
jws_data m none = not_loaded invalid_page
jws_data m (some payload) = elim (m.b64_decode (payload ++ padding payload)) [
  | none ↦ not_loaded invalid_page
  | some text ↦ elim (m.loads text) [ none ↦ not_loaded invalid_page | some d ↦ loaded d ]
]

-- The page behind `payloadLocation`, plain JSON or signed.
unfoldable pub page_data : Libraries → Option Page → Loaded
page_data m none = not_loaded unreachable_page
page_data m (some page) =
    let body = strip page.text in
    if page.status == 404 || page.status == 410
    then not_loaded gone
    else if not (leb 200 page.status && ltb page.status 300)
    then not_loaded unreachable_page
    else if text_eq body []
    then not_loaded empty_page
    else if is_jws page body
    then jws_data m (jws_payload (split_dots body))
    else plain_data m page.text

-- The statuses of a charge that is not open any more.
unfoldable pub is_closed : Option Text → Bool
is_closed status =
    let s = map to_upper (or_text status []) in
    text_eq s (codes "EXPIRADA")
    || text_eq s (codes "REMOVIDA_PELO_USUARIO_RECEBEDOR")
    || text_eq s (codes "REMOVIDA_PELO_PSP")
    || text_eq s (codes "CONCLUIDA")
