-- ===== src/Scitt/Receipt/Claims.antt =====
-- verify/scitt/receipt.go: what a verified receipt is.
use mathlib.Core.Path.{subst}
use mathlib.Core.Bool.{false≢true}
use alibaba_ati_golang_sdk.Base.{
  ◌≡◌, refl, ap, false, List, [], ◌∷◌, Option, none, some, Bytes, ==_iff, length, All, arith,
  Result, ok, bind_ok, ensure_then, require_then, ok_eq, map_err_ok, ensure_ok,
}
use alibaba_ati_golang_sdk.Base.Int.{ℤ, pos, negsuc}
use alibaba_ati_golang_sdk.Merkle.{walk_inclusion_path}
use alibaba_ati_golang_sdk.Scitt.KeyStore.{TrustedKey}
use alibaba_ati_golang_sdk.Scitt.Errors.{LookupError, cose_error, invalid_protected_header}
use alibaba_ati_golang_sdk.Scitt.Cose.{Cbor, Signing, ParsedCoseSign1, parse_cose_sign1}
use alibaba_ati_golang_sdk.Scitt.Signed.{IsSigned, steps-IsSigned}
use alibaba_ati_golang_sdk.Scitt.Receipt.{
  VerifiedReceipt, Vdp, validate_vds, verify_issuer_binding, decode_hashes, vdp_path, extract_vdp,
  verify_inclusion_proof, verify_receipt,
}

abbrev pub IsHash : Bytes → Type 0
IsHash h = length h ≡ 32

-- A receipt that a trusted key signed, for a tree of RFC 9162, whose path leads from the event to the root.
pub record IsVerified {K : Type 0} (c : Cbor) (s : Signing K) (leaf : Bytes → Bytes)
    (node : Bytes → Bytes → Bytes) (keys : Bytes → Result LookupError (TrustedKey K))
    (receipt : Bytes) (r : VerifiedReceipt) : Type 0 where
  pub message : ParsedCoseSign1
  pub path : List Bytes
  pub parsed : parse_cose_sign1 c receipt ≡ ok message
  pub signed : IsSigned s keys message
  pub event : r.event_bytes ≡ message.payload
  pub vds : message.protected.vds ≡ some (pos 1)
  pub hashes : All IsHash path
  pub walked :
      walk_inclusion_path node leaf r.event_bytes r.leaf_index r.tree_size path ≡ ok r.root_hash

vds_one : (vds : Option ℤ) (u : Unit {0}) → validate_vds vds ≡ ok u → vds ≡ some (pos 1)
unfolding validate_vds
vds_one none u h = ground arith
vds_one (some (pos n)) u h =
    ap (λ n. some (pos n)) ((==_iff n 1).0 (ensure_ok (cose_error invalid_protected_header) _ u h))
vds_one (some (negsuc n)) u h =
    absurd (false≢true (ensure_ok (cose_error invalid_protected_header) false u h))

module _ (c : Cbor) where
  hashes-IsHash : (raws hs : List Bytes) → decode_hashes c raws ≡ ok hs → All IsHash hs
  unfolding decode_hashes
  hashes-IsHash [] hs h = subst (All IsHash) (ok_eq [] hs h) tt
  hashes-IsHash (raw ∷ raws) hs h =
      let (x, r, h) = require_then _ _ _ hs h in
      let (l, h) = ensure_then _ _ _ hs h in
      let (xs, d, h) = bind_ok _ _ hs h in
      subst (All IsHash) (ok_eq (x ∷ xs) hs h) ((==_iff (length x) 32).0 l, hashes-IsHash raws xs d)

  path-IsHash : (raw : Option Bytes) (hs : List Bytes) → vdp_path c raw ≡ ok hs → All IsHash hs
  unfolding vdp_path
  path-IsHash none hs h = subst (All IsHash) (ok_eq [] hs h) tt
  path-IsHash (some raw) hs h =
      let (raws, r, h) = require_then _ _ _ hs h in hashes-IsHash raws hs h

  vdp-IsHash :
      (unprotected : Bytes) (v : Vdp) → extract_vdp c unprotected ≡ ok v → All IsHash v.path
  unfolding extract_vdp
  vdp-IsHash unprotected v h =
      let (m, a, h) = require_then _ _ _ v h in
      let (raw, b, h) = require_then _ _ _ v h in
      let (vdp, d, h) = require_then _ _ _ v h in
      let (size_raw, e, h) = require_then _ _ _ v h in
      let (size, f, h) = require_then _ _ _ v h in
      let (index_raw, g, h) = require_then _ _ _ v h in
      let (index, i, h) = require_then _ _ _ v h in
      let (path, p, h) = bind_ok _ _ v h in
      subst (λ v. All IsHash v.path) (ok_eq _ v h) (path-IsHash _ path p)

module _ {K : Type 0} (c : Cbor) (s : Signing K) (leaf : Bytes → Bytes)
    (node : Bytes → Bytes → Bytes) (keys : Bytes → Result LookupError (TrustedKey K)) where
  proof_walked :
      (m : ParsedCoseSign1) (v : Vdp) (root : Bytes)
      → verify_inclusion_proof c s leaf node keys m ≡ ok (v, root)
      → All IsHash v.path
        × (walk_inclusion_path node leaf m.payload v.leaf_index v.tree_size v.path ≡ ok root)
  unfolding verify_inclusion_proof
  proof_walked m v root h =
      let (w, e, h) = bind_ok _ _ (v, root) h in
      let (x, k, h) = bind_ok _ _ (v, root) h in
      subst
        (λ p.
          All IsHash p.0.path
          × (walk_inclusion_path node leaf m.payload p.0.leaf_index p.0.tree_size p.0.path
              ≡ ok p.1))
        (ok_eq (w, x) (v, root) h) (vdp-IsHash c m.unprotected w e, map_err_ok _ _ x k)

  -- A receipt is accepted only if a trusted key signed it, the issuer that it claims, if any, is the name of the key, it is for a tree of
  -- RFC 9162, and a path of hashes of 32 bytes leads from the signed event to the root that is returned.
  pub receipt-IsVerified :
      (receipt : Bytes) (r : VerifiedReceipt)
      → verify_receipt c s leaf node keys receipt ≡ ok r
      → IsVerified c s leaf node keys receipt r
  unfolding verify_receipt verify_issuer_binding
  receipt-IsVerified receipt r h =
      let (m, p, h) = bind_ok _ _ r h in
      let (u, v, h) = bind_ok _ _ r h in
      let (key, k, h) = bind_ok _ _ r h in
      let (x, e, h) = bind_ok _ _ r h in
      let (y, i, h) = bind_ok _ _ r h in
      let (proof, q, h) = bind_ok _ _ r h in
      let (hashes, walked) = proof_walked m proof.0 proof.1 q in
      subst (IsVerified c s leaf node keys receipt) (ok_eq _ r h) (record {
        message = m;
        path = proof.0.path;
        parsed = p;
        signed = steps-IsSigned s keys m key key.kid x y (map_err_ok _ _ key k) e i;
        event = refl;
        vds = vds_one m.protected.vds u v;
        hashes = hashes;
        walked = walked;
      })
