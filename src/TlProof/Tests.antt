-- ===== src/TlProof/Tests.antt =====
-- The proof of the only leaf of a tree.
use alibaba_ati_golang_sdk.Base.{ℕ, zero, suc, ◌≡◌, ◌↔◌, [], ◌∷◌, ok, Bytes}
use alibaba_ati_golang_sdk.Base.Hex.{encode}
use alibaba_ati_golang_sdk.Base.Int.{pos}
use alibaba_ati_golang_sdk.Models.TlLog.{MerkleProof}
use alibaba_ati_golang_sdk.TlProof.{verify_inclusion_proof}
use alibaba_ati_golang_sdk.TlProof.Claims.{Accepted, inclusion_iff}

abbrev copies : ℕ → Bytes
copies zero = []
copies (suc n) = 171 ∷ copies n

-- A hash that keeps the left child.
abbrev left_node : Bytes → Bytes → Bytes
left_node l r = l

abbrev proof : MerkleProof
proof = record {
  leaf_hash = encode (copies 32);
  root_hash = encode (copies 32);
  root_signature = [];
  tree_size = pos 2;
  tree_version = pos 0;
  leaf_index = pos 0;
  path = encode (copies 32) ∷ [];
}

inclusion_iff_example : (verify_inclusion_proof left_node proof ≡ ok tt) ↔ Accepted left_node proof
inclusion_iff_example = inclusion_iff left_node proof
