-- ===== src/Gold/Tests.antt =====
-- A response that Gold proves, and a session that is revoked.
use alibaba_ati_golang_sdk.Base.{
  ◌≤◌, ◌↔◌, Some, ℕ, ◌≡◌, refl, true, false, [], ◌∷◌, List, Option, none, some, arith, Bytes, ok,
  err, codes, to_lower, bytes_eq, cut_prefix, contains_byte, ensure, require, length,
}
use alibaba_ati_golang_sdk.Base.Hex.{encode, decode}
use alibaba_ati_golang_sdk.Base.Int.{pos}
use alibaba_ati_golang_sdk.Base.Map.{Map, lookup}
use alibaba_ati_golang_sdk.Models.TlLog.{TlResponse, MerkleProof, is_terminal}
use alibaba_ati_golang_sdk.Merkle.{walk}
use alibaba_ati_golang_sdk.Cert.{
  parse_cert_fingerprint, fingerprint_string, matches, matches_any, matches_with_renewal,
}
use alibaba_ati_golang_sdk.Failure.{other}
use alibaba_ati_golang_sdk.TlProof.{verify_inclusion_proof, check_fields, decode_path}
use alibaba_ati_golang_sdk.Sample.{copies, host, cert, payload, response}
use alibaba_ati_golang_sdk.Seal.{
  SealCodec, kind_ecdsa, seal_algorithm_family, verify_seal_digest, compute_seal_digest, seal_key,
  verify_seal_signature, verify_seal_signature_with_key_store, to_upper,
}
use alibaba_ati_golang_sdk.Gold.{
  GoldConfig, match_fingerprint, check_response, find_response, gold_checks, verify_gold,
}
use alibaba_ati_golang_sdk.Gold.Claims.{NoNil, GoldProven, gold-GoldProven}
use alibaba_ati_golang_sdk.Gold.Sessions.{Answers, monitor_loop, IsRevoked, length-monitor_loop}

abbrev codec : SealCodec ℕ
codec = record {
  kind = λ k. kind_ecdsa;
  parse_public_key_pem = λ s. none;
  verify_asn1 = λ k d s. true;
  verify_pkcs1v15 = λ k d s. false;
  verify_numbers = λ k d r s. false;
  base64 = λ s. some s;
  base64_raw_url = λ s. some s;
  marshal_text = λ s. some s;
  marshal_payload = λ p. some [];
  marshal_evidence_ref = λ e. some [];
  canonicalize_fields = λ fs. some [];
  canonicalize = λ s. some s;
  sha256 = λ s. s;
}

abbrev left_node : Bytes → Bytes → Bytes
left_node a b = a

abbrev share : ℕ → ℕ → ℕ
share a b = 0

abbrev proof : MerkleProof
proof = record {
  leaf_hash = encode (copies 32);
  root_hash = encode (copies 32);
  root_signature = [];
  tree_size = pos 2;
  tree_version = pos 0;
  leaf_index = pos 0;
  path = encode (copies 32) ∷ [];
}

abbrev sealed : TlResponse
sealed = record response {
  merkle_proof = proof;
  seal = record response.seal { key_id = codes "k"; signature = 1 ∷ [] };
}

abbrev store : Map (Option ℕ)
store = (codes "k", some 5) ∷ []

store-NoNil : NoNil store
unfolding lookup
store-NoNil kid h = ground arith

abbrev config : GoldConfig ℕ
config = record {
  tl_base_url = [];
  tl_public_key = none;
  tl_key_store = some store;
  producer_keys = none;
  lookup_ati_discovery = λ f. ok (record { found = true; ids = codes "id" ∷ [] });
  fetch_tl_response = λ url. ok sealed;
}

connected : (verify_gold codec left_node share host cert config).connected ≡ true
unfolding verify_gold gold_checks find_response check_response verify_seal_signature_with_key_store
    verify_seal_signature seal_key compute_seal_digest verify_seal_digest seal_algorithm_family
    verify_inclusion_proof check_fields decode_path walk match_fingerprint matches_with_renewal
    matches matches_any fingerprint_string parse_cert_fingerprint encode decode cut_prefix to_lower
    to_upper contains_byte bytes_eq lookup is_terminal ensure require
connected = refl

gold-GoldProven_example :
    GoldProven codec left_node share host cert config store
      (verify_gold codec left_node share host cert config).status
gold-GoldProven_example =
    gold-GoldProven codec left_node share host cert config store store-NoNil refl connected

-- Nothing is answered at the first tick.
abbrev ticks : List Answers
ticks =
    (record { lookup_ati_discovery = λ f. err (other []); fetch_tl_response = λ u. err (other []) })
    ∷ (record {
      lookup_ati_discovery = λ f. ok (record { found = true; ids = codes "id" ∷ [] });
      fetch_tl_response =
          λ u. ok (record response { payload = record payload { agent_status = codes "REVOKED" } });
    })
    ∷ []

length-monitor_loop_example :
    (length (monitor_loop true host ticks) ≤ 1)
    × ((length (monitor_loop true host ticks) ≡ 1) ↔ ((true ≡ true) × Some (IsRevoked host) ticks))
length-monitor_loop_example = length-monitor_loop true host ticks
