-- ===== src/Scitt/Token/Tests.antt =====
-- A status token that is accepted.
use alibaba_ati_golang_sdk.Base.{
  ◌+◌, ◌<◌, ◌≤◌, ◌≡◌, refl, [], ◌∷◌, ok, ensure, require, arith, bytes_eq,
}
use alibaba_ati_golang_sdk.Base.Int.{pos}
use alibaba_ati_golang_sdk.Scitt.Types.{is_terminal}
use alibaba_ati_golang_sdk.Scitt.Sample.{cbor, signing, keys, message, payload, token}
use alibaba_ati_golang_sdk.Scitt.Cose.{
  parse_cose_sign1, parse_protected_header, verify_ecdsa, compute_sig_structure_digest,
}
use alibaba_ati_golang_sdk.Scitt.Receipt.{issuer_matches}
use alibaba_ati_golang_sdk.Scitt.Token.{
  get_field, decode_fingerprint_field, decode_entries, decode_cert_array, cert_array_at,
  decode_payload_fields, decode_status_payload, is_expired, skew_seconds, verify_status_token_at,
}
use alibaba_ati_golang_sdk.Scitt.Token.Claims.{IsVerified, token-IsVerified, now-le-exp}

accepted : verify_status_token_at cbor signing keys (pos 0) (pos 5) message ≡ ok token
unfolding verify_status_token_at parse_cose_sign1 parse_protected_header verify_ecdsa
    compute_sig_structure_digest issuer_matches decode_status_payload decode_payload_fields
    cert_array_at decode_cert_array decode_entries decode_fingerprint_field get_field is_expired
    skew_seconds is_terminal ensure require bytes_eq
accepted = refl

token-IsVerified_example : IsVerified cbor signing keys (pos 0) (pos 5) message token
token-IsVerified_example = token-IsVerified cbor signing keys (pos 0) (pos 5) message token accepted

in_range : 9 + 600 < 9223372036854775808
in_range = omega arith

now-le-exp_example : 5 ≤ 9 + 600
now-le-exp_example = now-le-exp cbor signing keys (pos 0) 5 9 message token accepted refl in_range

decoded : decode_status_payload cbor (2 ∷ []) ≡ ok payload
unfolding decode_status_payload decode_payload_fields cert_array_at decode_cert_array decode_entries
    decode_fingerprint_field get_field ensure require bytes_eq
decoded = refl
