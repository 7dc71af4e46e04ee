-- ===== src/Scitt/Headers.antt =====
-- verify/scitt/headers.go, verify/scitt/outgoing.go and the headers of verify/scitt/supplier.go: receipts and tokens
-- in HTTP headers. Base64 is a parameter. An http.Header is a map from names to values.
pub mod RoundTrip
mod Tests
use alibaba_ati_golang_sdk.Base.{
  ℕ, ◌+◌, ◌*◌, ◌/◌, Bool, not, ◌&&◌, [], Option, none, some, Bytes, leb, is_empty, codes, length,
  if◌then◌else◌, Result, ok, err, ◌>>=◌, ensure, require,
}
use alibaba_ati_golang_sdk.Base.Map.{Map, lookup, insert}
use alibaba_ati_golang_sdk.Failure.{Failure, transport, other}
use alibaba_ati_golang_sdk.Scitt.Errors.{base64_decode}
use alibaba_ati_golang_sdk.Scitt.Cose.{max_cose_input_size}

abbrev pub header_receipt : Bytes
header_receipt = codes "X-SCITT-Receipt"

abbrev pub header_status_token : Bytes
header_status_token = codes "X-ANS-Status-Token"

abbrev pub max_base64_header_size : ℕ
max_base64_header_size = (max_cose_input_size + 2) / 3 * 4

-- base64.StdEncoding
pub record Base64 : Type 0 where
  pub encode : Bytes → Bytes
  pub decode : Bytes → Option Bytes

pub record Headers : Type 0 where
  pub receipt : Bytes
  pub status_token : Bytes

unfoldable pub headers_is_empty : Headers → Bool
headers_is_empty h = is_empty h.receipt && is_empty h.status_token

unfoldable pub has_both : Headers → Bool
has_both h = not (is_empty h.receipt) && not (is_empty h.status_token)

pub record OutgoingHeaders : Type 0 where
  pub receipt_base64 : Bytes
  pub status_token_base64 : Bytes

unfoldable pub outgoing_is_empty : OutgoingHeaders → Bool
outgoing_is_empty h = is_empty h.receipt_base64 && is_empty h.status_token_base64

-- h.Get(name): "" where the header is missing.
abbrev pub value_of : Option Bytes → Bytes
value_of none = []
value_of (some v) = v

module _ (b : Base64) where
  unfoldable pub encode_if_non_empty : Bytes → Bytes
  encode_if_non_empty bytes = if is_empty bytes then [] else b.encode bytes

  abbrev set_unless_empty : Bytes → Bytes → Map Bytes → Map Bytes
  set_unless_empty name bytes h = if is_empty bytes then h else insert name (b.encode bytes) h

  unfoldable pub generate_headers : Bytes → Bytes → Map Bytes
  generate_headers receipt token =
      set_unless_empty header_status_token token (set_unless_empty header_receipt receipt [])

  -- The error names the header.
  unfoldable pub decode_header_value : Bytes → Bytes → Result Failure Bytes
  decode_header_value encoded name = do
    _ ← ensure (transport base64_decode name) (leb (length encoded) max_base64_header_size)
    require (transport base64_decode name) (b.decode encoded)

  abbrev decode_unless_empty : Bytes → Bytes → Result Failure Bytes
  decode_unless_empty encoded name =
      if is_empty encoded then ok [] else decode_header_value encoded name

  unfoldable pub extract_headers : Map Bytes → Result Failure Headers
  extract_headers h = do
    receipt ← decode_unless_empty (value_of (lookup header_receipt h)) header_receipt
    token ← decode_unless_empty (value_of (lookup header_status_token h)) header_status_token
    ok (record { receipt = receipt; status_token = token })

  abbrev raw_of : Bytes → Bytes → Result Failure Bytes
  raw_of encoded what = if is_empty encoded then ok [] else require (other what) (b.decode encoded)

  unfoldable pub to_http_headers : OutgoingHeaders → Result Failure (Map Bytes)
  to_http_headers h = do
    receipt ← raw_of h.receipt_base64 (codes "decode receipt base64")
    token ← raw_of h.status_token_base64 (codes "decode status token base64")
    ok (generate_headers receipt token)
