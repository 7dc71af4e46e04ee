-- ===== src/Scitt/Sample.antt =====
-- A decoder and keys for which one message is both a receipt and a status token.
use alibaba_ati_golang_sdk.Base.{
  ℕ, true, List, [], ◌∷◌, Option, none, some, Bytes, ◌==◌, if◌then◌else◌, Result, ok, codes,
}
use alibaba_ati_golang_sdk.Base.Int.{ℤ, pos, negsuc}
use alibaba_ati_golang_sdk.Sample.{copies}
use alibaba_ati_golang_sdk.Scitt.Errors.{LookupError}
use alibaba_ati_golang_sdk.Scitt.Types.{StatusTokenPayload, VerifiedStatusToken}
use alibaba_ati_golang_sdk.Scitt.KeyStore.{TrustedKey}
use alibaba_ati_golang_sdk.Scitt.Cose.{Cbor, Signing, AnyMap}
use alibaba_ati_golang_sdk.Scitt.Receipt.{VerifiedReceipt}

abbrev content : Bytes → Option Bytes
content [] = none
content (n ∷ bytes) = if n == 0 then some bytes else none

abbrev number : Bytes → Option ℕ
number [] = none
number (n ∷ bytes) = some n

abbrev signed : Bytes → Option ℤ
signed [] = none
signed (n ∷ bytes) = some (if n == 7 then negsuc 6 else pos n)

abbrev kid : Bytes
kid = 1 ∷ 2 ∷ 3 ∷ 4 ∷ []

-- The protected header, and the proof: a tree of one leaf.
abbrev labels : ℤ → Option Bytes
labels (pos n) =
    if n == 1
    then some (7 ∷ [])
    else if n == 4
    then some (0 ∷ kid)
    else if n == 395
    then some (1 ∷ [])
    else if n == 396
    then some (6 ∷ [])
    else none
labels (negsuc n) = if n == 0 then some (1 ∷ []) else if n == 1 then some (0 ∷ []) else none

abbrev fields : ℕ → Option Bytes
fields n =
    if n == 1
    then some (codes "id")
    else if n == 2
    then some (codes "ACTIVE")
    else if n == 4
    then some (9 ∷ [])
    else if n == 5
    then some (codes "ati://v1.0.0.a.b")
    else if n == 7
    then some (9 ∷ [])
    else none

abbrev certificate : ℕ → Option Bytes
certificate n = if n == 1 then some (0 ∷ copies 32) else none

abbrev keyed : (ℕ → Option Bytes) → AnyMap
keyed f = record { at_uint = f; at_int = λ n. none; at_text = λ s. none }

abbrev map_at : Bytes → Option AnyMap
map_at [] = none
map_at (n ∷ bytes) = some (keyed (if n == 2 then fields else certificate))

abbrev array_at : Bytes → Option (List Bytes)
array_at [] = none
array_at (n ∷ bytes) = some (
    if n == 8 then (0 ∷ 1 ∷ []) ∷ (5 ∷ []) ∷ (0 ∷ 2 ∷ []) ∷ (0 ∷ copies 64) ∷ [] else (9 ∷ []) ∷ [])

abbrev pub cbor : Cbor
cbor = record {
  raw = λ b. some b;
  raw_tag = λ b. none;
  raw_array = array_at;
  byte_string = content;
  text = λ b. some b;
  int64 = signed;
  uint64 = number;
  int_map = λ b. some labels;
  any_map = map_at;
  text_map = λ b. none;
}

abbrev pub signing : Signing ℕ
signing = record {
  build_sig_structure = λ p b. some b;
  sha256 = λ b. b;
  marshal_der = λ r s. some [];
  verify_asn1 = λ k d s. true;
}

abbrev pub keys : Bytes → Result LookupError (TrustedKey ℕ)
keys k = ok (record { name = codes "tl"; kid = kid; key = 0 })

abbrev pub message : Bytes
message = 8 ∷ []

abbrev pub payload : StatusTokenPayload
payload = record {
  agent_id = codes "id";
  ati_name = codes "ati://v1.0.0.a.b";
  status = codes "ACTIVE";
  iat = pos 0;
  exp = pos 9;
  valid_identity_certs = [];
  valid_server_certs = record { fingerprint = copies 32; cert_type = [] } ∷ [];
  metadata_hashes = [];
}

abbrev pub token : VerifiedStatusToken
token = record { payload = payload; key_id = kid }

abbrev pub leaf : Bytes → Bytes
leaf b = b

abbrev pub node : Bytes → Bytes → Bytes
node a b = a

abbrev pub receipt : VerifiedReceipt
receipt = record {
  tree_size = 1;
  leaf_index = 0;
  root_hash = 2 ∷ [];
  event_bytes = 2 ∷ [];
  key_id = kid;
  iss = none;
  iat = none;
}
