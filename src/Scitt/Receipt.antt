-- ===== src/Scitt/Receipt.antt =====
-- verify/scitt/receipt.go: the verification of a receipt.
pub mod Claims
mod Tests
use alibaba_ati_golang_sdk.Base.{
  ℕ, List, [], ◌∷◌, Option, none, some, Bytes, ◌==◌, bytes_eq, Result, ok, err, ◌>>=◌, ensure,
  require, map_err, length,
}
use alibaba_ati_golang_sdk.Base.Int.{ℤ, pos, negsuc, int_eq}
use alibaba_ati_golang_sdk.Merkle.{walk_inclusion_path}
use alibaba_ati_golang_sdk.Scitt.KeyStore.{TrustedKey}
use alibaba_ati_golang_sdk.Scitt.Errors.{
  LookupError, ScittError, CoseErrorType, cose_error, key_error, merkle_error, issuer_mismatch,
  invalid_protected_header, invalid_unprotected_header,
}
use alibaba_ati_golang_sdk.Scitt.Cose.{
  Cbor, Signing, ParsedCoseSign1, parse_cose_sign1, verify_ecdsa,
}

pub record VerifiedReceipt : Type 0 where
  pub tree_size : ℕ
  pub leaf_index : ℕ
  pub root_hash : Bytes
  pub event_bytes : Bytes
  pub key_id : Bytes
  pub iss : Option Bytes
  pub iat : Option ℤ

-- The proof of the unprotected header.
pub record Vdp : Type 0 where
  pub tree_size : ℕ
  pub leaf_index : ℕ
  pub path : List Bytes

unfoldable pub validate_vds : Option ℤ → Result ScittError (Unit {0})
validate_vds none = err (cose_error invalid_protected_header)
validate_vds (some vds) = ensure (cose_error invalid_protected_header) (int_eq vds (pos 1))

-- Whether the issuer that a message claims, if any, is the name of the key; `kid` is for the error.
unfoldable pub issuer_matches : Bytes → Option Bytes → Bytes → Result ScittError (Unit {0})
issuer_matches kid none name = ok tt
issuer_matches kid (some iss) name = ensure (issuer_mismatch kid) (bytes_eq iss name)

unfoldable pub verify_issuer_binding :
    {K : Type 0} → Option Bytes → TrustedKey K → Result ScittError (Unit {0})
verify_issuer_binding iss key = issuer_matches key.kid iss key.name

-- Every error of extractVDP has one type.
abbrev bad_vdp : ScittError
bad_vdp = cose_error invalid_unprotected_header

module _ (c : Cbor) where
  unfoldable pub decode_hashes : List Bytes → Result ScittError (List Bytes)
  decode_hashes [] = ok []
  decode_hashes (raw ∷ raws) = do
    h ← require bad_vdp (c.byte_string raw)
    _ ← ensure bad_vdp (length h == 32)
    hs ← decode_hashes raws
    ok (h ∷ hs)

  unfoldable pub vdp_path : Option Bytes → Result ScittError (List Bytes)
  vdp_path none = ok []
  vdp_path (some raw) = do raws ← require bad_vdp (c.raw_array raw); decode_hashes raws

  unfoldable pub extract_vdp : Bytes → Result ScittError Vdp
  extract_vdp unprotected = do
    m ← require bad_vdp (c.int_map unprotected)
    raw ← require bad_vdp (m (pos 396))
    vdp ← require bad_vdp (c.int_map raw)
    size_raw ← require bad_vdp (vdp (negsuc 0))
    tree_size ← require bad_vdp (c.uint64 size_raw)
    index_raw ← require bad_vdp (vdp (negsuc 1))
    leaf_index ← require bad_vdp (c.uint64 index_raw)
    path ← vdp_path (vdp (negsuc 2))
    ok (record { tree_size = tree_size; leaf_index = leaf_index; path = path })

-- `leaf` and `node` are the two hashes of the Merkle tree; `keys` is the method Get of the KeyLookup.
module _ {K : Type 0} (c : Cbor) (s : Signing K) (leaf : Bytes → Bytes)
    (node : Bytes → Bytes → Bytes) (keys : Bytes → Result LookupError (TrustedKey K)) where
  unfoldable pub verify_inclusion_proof : ParsedCoseSign1 → Result ScittError (Vdp × Bytes)
  verify_inclusion_proof parsed = do
    vdp ← extract_vdp c parsed.unprotected
    root ←
        map_err merkle_error
          (walk_inclusion_path node leaf parsed.payload vdp.leaf_index vdp.tree_size vdp.path)
    ok (vdp, root)

  unfoldable pub verify_receipt : Bytes → Result ScittError VerifiedReceipt
  verify_receipt receipt = do
    parsed ← parse_cose_sign1 c receipt
    _ ← validate_vds parsed.protected.vds
    key ← map_err key_error (keys parsed.protected.kid)
    _ ←
        verify_ecdsa s key.key parsed.protected_bytes parsed.payload parsed.signature
          parsed.protected.kid
    _ ← verify_issuer_binding parsed.protected.cwt_iss key
    proof ← verify_inclusion_proof parsed
    ok (record {
      tree_size = proof.0.tree_size;
      leaf_index = proof.0.leaf_index;
      root_hash = proof.1;
      event_bytes = parsed.payload;
      key_id = parsed.protected.kid;
      iss = parsed.protected.cwt_iss;
      iat = parsed.protected.cwt_iat;
    })
