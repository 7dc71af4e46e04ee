-- ===== src/TlProof.antt =====
-- verify/merkle.go: the inclusion proof in a response of the transparency log. The hash of a node is a parameter.
pub mod Claims
mod Tests
use alibaba_ati_golang_sdk.Base.{
  ℕ, ◌+◌, ◌-◌, ◌≡◌, Bool, true, false, not, ◌||◌, List, [], ◌∷◌, Option, none, some, Bytes, ◌==◌,
  if◌then◌else◌, Result, ok, err, ◌>>=◌, length, bytes_eq, is_empty,
}
use alibaba_ati_golang_sdk.Base.Hex.{decode}
use alibaba_ati_golang_sdk.Base.Int.{ℤ, pos, pos_part, lt_int, le_int}
use alibaba_ati_golang_sdk.Models.TlLog.{MerkleProof}
use alibaba_ati_golang_sdk.Merkle.{MerkleError, walk, excess, insufficient}

pub data ProofError : Type 0 where
  no_root no_size index_range no_leaf : ProofError
  bad_root bad_leaf bad_path : ProofError
  root_size leaf_size path_size : ProofError
  excess_path insufficient_path root_mismatch : ProofError

abbrev pub sized : ProofError → ProofError → Option Bytes → Result ProofError Bytes
sized bad size none = err bad
sized bad size (some h) = if not (length h == 32) then err size else ok h

abbrev pub path_cons :
    Result ProofError Bytes → Result ProofError (List Bytes) → Result ProofError (List Bytes)
path_cons (err e) rest = err e
path_cons (ok h) (err e) = err e
path_cons (ok h) (ok hs) = ok (h ∷ hs)

-- The loop that decodes the audit path.
unfoldable pub decode_path : List Bytes → Result ProofError (List Bytes)
decode_path [] = ok []
decode_path (p ∷ ps) = path_cons (sized bad_path path_size (decode p)) (decode_path ps)

-- The tests before anything is decoded.
unfoldable pub check_fields : MerkleProof → Result ProofError (Unit {0})
check_fields p =
    if is_empty p.root_hash
    then err no_root
    else if le_int p.tree_size (pos 0)
    then err no_size
    else if lt_int p.leaf_index (pos 0) || le_int p.tree_size p.leaf_index
    then err index_range
    else if is_empty p.leaf_hash
    then err no_leaf
    else ok tt

-- What the walk ends with; its loop is that of verify/scitt/merkle.go.
abbrev pub compare_root : Bytes → Result MerkleError Bytes → Result ProofError (Unit {0})
compare_root root (err excess) = err excess_path
compare_root root (err e) = err insufficient_path
compare_root root (ok computed) = if not (bytes_eq computed root) then err root_mismatch else ok tt

module _ (node : Bytes → Bytes → Bytes) where
  unfoldable pub verify_inclusion_proof : MerkleProof → Result ProofError (Unit {0})
  unfolding check_fields
  verify_inclusion_proof p = do
    _ ← check_fields p
    root ← sized bad_root root_size (decode p.root_hash)
    leaf ← sized bad_leaf leaf_size (decode p.leaf_hash)
    path ← decode_path p.path
    compare_root root (walk node (pos_part p.leaf_index) (pos_part p.tree_size - 1) leaf path)
