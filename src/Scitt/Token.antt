-- ===== src/Scitt/Token.antt =====
-- verify/scitt/status_token.go: decoding and verifying a status token.
pub mod Payload
pub mod Claims
mod Tests
use alibaba_ati_golang_sdk.Base.{
  ℕ, ◌+◌, ◌*◌, ◌/◌, Bool, true, false, not, List, [], ◌∷◌, Option, none, some, Bytes, leb, ltb,
  ◌==◌, if◌then◌else◌, bytes_eq, is_empty, codes, to_lower, cut_prefix, Result, ok, err, ◌>>=◌,
  ensure, require, map_err, length, drop,
}
use alibaba_ati_golang_sdk.Base.Hex.{decode}
use alibaba_ati_golang_sdk.Base.Int.{ℤ, pos, negsuc, int_eq, lt_int, add_nat64}
use alibaba_ati_golang_sdk.Scitt.Types.{
  CertEntry, StatusTokenPayload, VerifiedStatusToken, is_terminal,
}
use alibaba_ati_golang_sdk.Scitt.KeyStore.{TrustedKey}
use alibaba_ati_golang_sdk.Scitt.Errors.{
  LookupError, ScittError, TokenErrorType, token_error, key_error, cert_array, issuer_mismatch,
  token_expired, missing_field, payload_invalid, terminal_status, payload_empty,
}
use alibaba_ati_golang_sdk.Scitt.Cose.{
  Cbor, AnyMap, Signing, optional, parse_cose_sign1, verify_ecdsa,
}
use alibaba_ati_golang_sdk.Scitt.Receipt.{issuer_matches}

-- MaxClockSkew is ten minutes in nanoseconds.
abbrev pub max_clock_skew : ℕ
max_clock_skew = 600000000000

abbrev pub max_cert_array_len : ℕ
max_cert_array_len = 128

-- The zero value of [32]byte.
abbrev pub zero_fingerprint : Bytes
zero_fingerprint =
    0 ∷ 0 ∷ 0 ∷ 0 ∷ 0 ∷ 0 ∷ 0 ∷ 0 ∷ 0 ∷ 0 ∷ 0 ∷ 0 ∷ 0 ∷ 0 ∷ 0 ∷ 0 ∷ 0 ∷ 0 ∷ 0 ∷ 0 ∷ 0 ∷ 0 ∷ 0 ∷ 0
    ∷ 0 ∷ 0 ∷ 0 ∷ 0 ∷ 0 ∷ 0 ∷ 0 ∷ 0 ∷ []

abbrev or_else {ℓ} : {A : Type ℓ} → Option A → Option A → Option A
or_else (some a) o = some a
or_else none o = o

-- The getter that newPayloadFieldGetter returns.
unfoldable pub get_field : AnyMap → ℕ → Bytes → Option Bytes
get_field m int_key text_key =
    or_else (m.at_uint int_key) (or_else (m.at_int (pos int_key)) (m.at_text text_key))

-- A field keeps its zero value where its key is missing or its value does not decode.
abbrev pub value_or {ℓ} : {A : Type ℓ} → A → Option A → A
value_or d none = d
value_or d (some a) = a

abbrev sized_fingerprint : Option Bytes → Option Bytes
sized_fingerprint none = none
sized_fingerprint (some bytes) = if length bytes == 32 then some bytes else none

abbrev without_prefix : Bytes → Option Bytes → Bytes
without_prefix s none = s
without_prefix s (some _) = drop 7 s

unfoldable pub parse_hex_fingerprint : Bytes → Option Bytes
parse_hex_fingerprint s =
    sized_fingerprint (decode (without_prefix s (cut_prefix (to_lower s) (codes "sha256:"))))

abbrev pub hex_of_text : Option Bytes → Option Bytes
hex_of_text none = none
hex_of_text (some s) = parse_hex_fingerprint s

module _ (c : Cbor) where
  unfoldable pub decode_fingerprint_field : Bytes → Bytes
  decode_fingerprint_field raw =
      value_or zero_fingerprint
        (or_else (sized_fingerprint (c.byte_string raw)) (hex_of_text (c.text raw)))

  abbrev fingerprint_at : Option Bytes → Bytes
  fingerprint_at none = zero_fingerprint
  fingerprint_at (some raw) = decode_fingerprint_field raw

  -- decodeStringField and decodeInt64Field, of a field that may be missing.
  abbrev pub string_at : Option Bytes → Bytes
  string_at raw = value_or [] (optional c.text raw)

  abbrev pub int64_at : Option Bytes → ℤ
  int64_at raw = value_or (pos 0) (optional c.int64 raw)

  abbrev pub cert_entry : AnyMap → CertEntry
  cert_entry m = record {
    fingerprint = fingerprint_at (get_field m 1 (codes "fingerprint"));
    cert_type = string_at (get_field m 2 (codes "cert_type"));
  }

  -- The body of the loop of decodeCertArray, on the entries that follow.
  abbrev pub keep_entry : Option AnyMap → List CertEntry → List CertEntry
  keep_entry none rest = rest
  keep_entry (some m) rest =
      if bytes_eq (cert_entry m).fingerprint zero_fingerprint then rest else cert_entry m ∷ rest

  unfoldable pub decode_entries : List Bytes → List CertEntry
  decode_entries [] = []
  decode_entries (item ∷ items) = keep_entry (c.any_map item) (decode_entries items)

  unfoldable pub decode_cert_array : Bytes → Result ScittError (List CertEntry)
  decode_cert_array raw = do
    items ← require cert_array (c.raw_array raw)
    _ ← ensure (token_error payload_invalid) (leb (length items) max_cert_array_len)
    ok (decode_entries items)

  unfoldable pub cert_array_at : Option Bytes → Result ScittError (List CertEntry)
  cert_array_at none = ok []
  cert_array_at (some raw) = decode_cert_array raw

  unfoldable pub decode_payload_fields : AnyMap → Result ScittError StatusTokenPayload
  decode_payload_fields m = do
    identity ← cert_array_at (get_field m 6 (codes "valid_identity_certs"))
    server ← cert_array_at (get_field m 7 (codes "valid_server_certs"))
    ok (record {
      agent_id = string_at (get_field m 1 (codes "agent_id"));
      ati_name = string_at (get_field m 5 (codes "ans_name"));
      status = string_at (get_field m 2 (codes "status"));
      iat = int64_at (get_field m 3 (codes "iat"));
      exp = int64_at (get_field m 4 (codes "exp"));
      valid_identity_certs = identity;
      valid_server_certs = server;
      metadata_hashes = value_or [] (optional c.text_map (get_field m 8 (codes "metadata_hashes")));
    })

  unfoldable pub decode_status_payload : Bytes → Result ScittError StatusTokenPayload
  decode_status_payload bytes = do
    _ ← ensure (token_error payload_empty) (not (is_empty bytes))
    m ← require (token_error payload_empty) (c.any_map bytes)
    p ← decode_payload_fields m
    _ ← ensure (token_error missing_field) (not (is_empty p.agent_id))
    _ ← ensure (token_error missing_field) (not (is_empty p.status))
    _ ← ensure (token_error missing_field) (not (int_eq p.exp (pos 0)))
    _ ← ensure (token_error missing_field) (not (is_empty p.ati_name))
    ok p

-- The tolerance in seconds, of a duration in nanoseconds.
unfoldable pub skew_seconds : ℤ → ℕ
skew_seconds (negsuc n) = 0
skew_seconds (pos n) = (if ltb max_clock_skew n then max_clock_skew else n) / 1000000000

unfoldable pub is_expired : ℤ → ℤ → ℤ → Bool
is_expired clock_skew now exp = lt_int (add_nat64 exp (skew_seconds clock_skew)) now

-- VerifyStatusTokenAt; VerifyStatusToken calls it with the current time.
module _ {K : Type 0} (c : Cbor) (s : Signing K)
    (keys : Bytes → Result LookupError (TrustedKey K)) where
  unfoldable pub verify_status_token_at : ℤ → ℤ → Bytes → Result ScittError VerifiedStatusToken
  verify_status_token_at clock_skew now token = do
    cose ← parse_cose_sign1 c token
    key ← map_err key_error (keys cose.protected.kid)
    _ ← verify_ecdsa s key.key cose.protected_bytes cose.payload cose.signature cose.protected.kid
    _ ← issuer_matches cose.protected.kid cose.protected.cwt_iss key.name
    payload ← decode_status_payload c cose.payload
    _ ← ensure (token_error token_expired) (not (is_expired clock_skew now payload.exp))
    _ ← ensure (token_error terminal_status) (not (is_terminal payload.status))
    ok (record { payload = payload; key_id = cose.protected.kid })
