-- ===== src/Scitt/Receipt/Tests.antt =====
-- A receipt that is accepted.
use alibaba_ati_golang_sdk.Base.{◌≡◌, refl, ok, ensure, require}
use alibaba_ati_golang_sdk.Merkle.{walk_inclusion_path, walk, strip}
use alibaba_ati_golang_sdk.Scitt.Sample.{cbor, signing, keys, message, receipt, leaf, node}
use alibaba_ati_golang_sdk.Scitt.Cose.{
  parse_cose_sign1, parse_protected_header, verify_ecdsa, compute_sig_structure_digest,
}
use alibaba_ati_golang_sdk.Scitt.Receipt.{
  validate_vds, issuer_matches, verify_issuer_binding, decode_hashes, vdp_path, extract_vdp,
  verify_inclusion_proof, verify_receipt,
}
use alibaba_ati_golang_sdk.Scitt.Receipt.Claims.{IsVerified, receipt-IsVerified}

accepted : verify_receipt cbor signing leaf node keys message ≡ ok receipt
unfolding verify_receipt parse_cose_sign1 parse_protected_header verify_ecdsa
    compute_sig_structure_digest validate_vds verify_issuer_binding issuer_matches
    verify_inclusion_proof extract_vdp vdp_path decode_hashes walk_inclusion_path walk strip ensure
    require
accepted = refl

receipt-IsVerified_example : IsVerified cbor signing leaf node keys message receipt
receipt-IsVerified_example = receipt-IsVerified cbor signing leaf node keys message receipt accepted
