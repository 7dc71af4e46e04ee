-- ===== src/Scitt/Cose.antt =====
-- verify/scitt/cose.go: the parts of a COSE_Sign1 message. The decoder of CBOR (fxamacker/cbor, with the limits
-- that newDecMode sets), its encoder, SHA-256 and ECDSA are parameters.
use alibaba_ati_golang_sdk.Base.{
  ℕ, ◌+◌, ◌*◌, Bool, List, [], ◌∷◌, Option, none, some, Bytes, leb, ◌==◌, not, is_empty,
  if◌then◌else◌, Result, ok, err, ◌>>=◌, ensure, require, length, take, drop,
}
use alibaba_ati_golang_sdk.Base.Int.{ℤ, pos, negsuc, int_eq}
use alibaba_ati_golang_sdk.Scitt.Errors.{
  ScittError, cose_error, signature_invalid, oversized_input, not_a_cose_sign1, cbor_decode,
  invalid_array_length, invalid_signature_length, invalid_protected_header, unsupported_algorithm,
  missing_kid,
}

-- map[interface{}]cbor.RawMessage, asked for a key as uint64, as int64 and as string.
pub record AnyMap : Type 0 where
  pub at_uint : ℕ → Option Bytes
  pub at_int : ℤ → Option Bytes
  pub at_text : Bytes → Option Bytes

-- dm.Unmarshal for each type into which the code decodes; none is its error. A raw message is its bytes.
pub record Cbor : Type 0 where
  pub raw : Bytes → Option Bytes
  pub raw_tag : Bytes → Option (ℕ × Bytes)
  pub raw_array : Bytes → Option (List Bytes)
  pub byte_string : Bytes → Option Bytes
  pub text : Bytes → Option Bytes
  pub int64 : Bytes → Option ℤ
  pub uint64 : Bytes → Option ℕ
  pub int_map : Bytes → Option (ℤ → Option Bytes)
  pub any_map : Bytes → Option AnyMap
  pub text_map : Bytes → Option (List (Bytes × Bytes))

-- cbor.Marshal of Sig_structure1 with an empty external part; sha256.Sum256; asn1.Marshal of the two numbers of
-- a signature; ecdsa.VerifyASN1.
pub record Signing (K : Type 0) : Type 0 where
  pub build_sig_structure : Bytes → Bytes → Option Bytes
  pub sha256 : Bytes → Bytes
  pub marshal_der : ℕ → ℕ → Option Bytes
  pub verify_asn1 : K → Bytes → Bytes → Bool

pub record ProtectedHeader : Type 0 where
  pub alg : ℤ
  pub kid : Bytes
  pub vds : Option ℤ
  pub content_type : Option Bytes
  pub cwt_iss : Option Bytes
  pub cwt_iat : Option ℤ

pub record ParsedCoseSign1 : Type 0 where
  pub protected_bytes : Bytes
  pub protected : ProtectedHeader
  pub unprotected : Bytes
  pub payload : Bytes
  pub signature : Bytes

abbrev pub max_cose_input_size : ℕ
max_cose_input_size = 1048576

-- -7
abbrev pub cose_alg_es256 : ℤ
cose_alg_es256 = negsuc 6

abbrev content_of_tag : Bytes → Option (ℕ × Bytes) → Bytes
content_of_tag raw none = raw
content_of_tag raw (some (number, content)) = if number == 18 then content else raw

-- A field that is left nil where its key is missing or its value does not decode.
abbrev pub optional {ℓ} : {A : Type ℓ} → (Bytes → Option A) → Option Bytes → Option A
optional f none = none
optional f (some raw) = f raw

-- The array of four raw messages.
pub record Elements : Type 0 where
  pub first : Bytes
  pub second : Bytes
  pub third : Bytes
  pub fourth : Bytes

abbrev pub four_elements : List Bytes → Result ScittError Elements
four_elements (a ∷ b ∷ c ∷ d ∷ []) = ok (record { first = a; second = b; third = c; fourth = d })
four_elements _ = err (cose_error invalid_array_length)

-- big.Int.SetBytes
abbrev pub from_bytes : ℕ → Bytes → ℕ
from_bytes acc [] = acc
from_bytes acc (b ∷ bs) = from_bytes (acc * 256 + b) bs

module _ (c : Cbor) where
  abbrev pub unwrap_tag18 : Bytes → Bytes
  unwrap_tag18 raw = content_of_tag raw (c.raw_tag raw)

  abbrev claims_of : Option (ℤ → Option Bytes) → Option Bytes × Option ℤ
  claims_of none = (none, none)
  claims_of (some m) = (optional c.text (m (pos 1)), optional c.int64 (m (pos 6)))

  abbrev pub parse_cwt_claims : Bytes → Option Bytes × Option ℤ
  parse_cwt_claims raw = claims_of (c.int_map raw)

  abbrev claims_at : Option Bytes → Option Bytes × Option ℤ
  claims_at none = (none, none)
  claims_at (some raw) = parse_cwt_claims raw

  unfoldable pub parse_protected_header : Bytes → Result ScittError ProtectedHeader
  parse_protected_header protected_bytes = do
    m ← require (cose_error invalid_protected_header) (c.int_map protected_bytes)
    alg_raw ← require (cose_error unsupported_algorithm) (m (pos 1))
    alg ← require (cose_error unsupported_algorithm) (c.int64 alg_raw)
    _ ← ensure (cose_error unsupported_algorithm) (int_eq alg cose_alg_es256)
    kid_raw ← require (cose_error missing_kid) (m (pos 4))
    kid ← require (cose_error missing_kid) (c.byte_string kid_raw)
    _ ← ensure (cose_error missing_kid) (length kid == 4)
    ok (record {
      alg = alg;
      kid = kid;
      vds = optional c.int64 (m (pos 395));
      content_type = optional c.text (m (pos 3));
      cwt_iss = (claims_at (m (pos 15))).0;
      cwt_iat = (claims_at (m (pos 15))).1;
    })

  unfoldable pub parse_cose_sign1 : Bytes → Result ScittError ParsedCoseSign1
  parse_cose_sign1 input = do
    _ ← ensure (cose_error oversized_input) (leb (length input) max_cose_input_size)
    outer ← require (cose_error cbor_decode) (c.raw input)
    elements ← require (cose_error not_a_cose_sign1) (c.raw_array (unwrap_tag18 outer))
    e ← four_elements elements
    protected_bytes ← require (cose_error invalid_protected_header) (c.byte_string e.first)
    header ← parse_protected_header protected_bytes
    payload ← require (cose_error not_a_cose_sign1) (c.byte_string e.third)
    _ ← ensure (cose_error not_a_cose_sign1) (not (is_empty payload))
    signature ← require (cose_error invalid_signature_length) (c.byte_string e.fourth)
    _ ← ensure (cose_error invalid_signature_length) (length signature == 64)
    ok (record {
      protected_bytes = protected_bytes;
      protected = header;
      unprotected = e.second;
      payload = payload;
      signature = signature;
    })

module _ {K : Type 0} (s : Signing K) where
  unfoldable pub compute_sig_structure_digest : Bytes → Bytes → Option Bytes
  compute_sig_structure_digest protected_bytes payload =
      elim (s.build_sig_structure protected_bytes payload) [
        | none ↦ none
        | some encoded ↦ some (s.sha256 encoded)
      ]

  -- verifyECDSA of status_token.go: the signature is two numbers of 32 bytes.
  unfoldable pub verify_ecdsa : K → Bytes → Bytes → Bytes → Bytes → Result ScittError (Unit {0})
  verify_ecdsa key protected_bytes payload sig kid = do
    digest ← require (signature_invalid kid) (compute_sig_structure_digest protected_bytes payload)
    der ←
        require (signature_invalid kid)
          (s.marshal_der (from_bytes 0 (take 32 sig)) (from_bytes 0 (drop 32 (take 64 sig))))
    ensure (signature_invalid kid) (s.verify_asn1 key digest der)
