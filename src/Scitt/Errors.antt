-- ===== src/Scitt/Errors.antt =====
-- verify/scitt/errors.go: the errors of receipts and tokens by their types; the texts are left out.
use alibaba_ati_golang_sdk.Base.{Bytes}
use alibaba_ati_golang_sdk.Scitt.KeyStore.{KeyError}
use alibaba_ati_golang_sdk.Merkle.{MerkleError}

pub data CoseErrorType : Type 0 where
  oversized_input not_a_cose_sign1 cbor_decode invalid_array_length : CoseErrorType
  invalid_signature_length invalid_protected_header invalid_unprotected_header : CoseErrorType
  unsupported_algorithm missing_kid : CoseErrorType

pub data TokenErrorType : Type 0 where
  token_expired missing_field payload_invalid terminal_status payload_empty : TokenErrorType

pub data TransportErrorType : Type 0 where
  not_found agent_terminal not_supported http_error base64_decode : TransportErrorType

-- The error of a KeyLookup, which is an interface: one of a store of keys, a TransportError of a store that asks
-- the network, or any other.
pub data LookupError : Type 0 where
  store_failure : KeyError → LookupError
  transport_failure : TransportErrorType → Bytes → LookupError
  other_failure : Bytes → LookupError

-- An error of the key lookup is handed on as it is.
pub data ScittError : Type 0 where
  cose_error : CoseErrorType → ScittError
  signature_invalid issuer_mismatch : Bytes → ScittError
  key_error : LookupError → ScittError
  token_error : TokenErrorType → ScittError
  merkle_error : MerkleError → ScittError
  -- fmt.Errorf of decodeCertArray
  cert_array : ScittError
