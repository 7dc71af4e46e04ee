-- ===== src/TlProof/Claims.antt =====
-- When the proof of a response is accepted.
use alibaba_ati_golang_sdk.Base.{
  ℕ, ◌-◌, ◌<◌, ◌≡◌, refl, ap, false, ◌||◌, List, [], ◌∷◌, Option, none, some, Bytes, ==_iff, Result,
  ok, err, length, bytes_eq_iff, bytes_eq_refl, is_empty, arith, Result-cases, inl, inr, ◌↔◌,
}
use alibaba_ati_golang_sdk.Base.Hex.{decode}
use alibaba_ati_golang_sdk.Base.Int.{ℤ, pos, negsuc, lt_int, le_int}
use alibaba_ati_golang_sdk.Models.TlLog.{MerkleProof}
use alibaba_ati_golang_sdk.Merkle.{
  MerkleError, walk, zero_size, index_range, path_too_long, excess, insufficient, root_mismatch,
}
use alibaba_ati_golang_sdk.TlProof.{
  ProofError, sized, path_cons, decode_path, check_fields, compare_root, verify_inclusion_proof,
  bad_root, root_size, bad_leaf, leaf_size, bad_path, path_size,
}

-- The text is the hexadecimal of 32 bytes.
abbrev pub Decodes : Bytes → Bytes → Type 0
Decodes text h = (decode text ≡ some h) × (length h ≡ 32)

abbrev pub AllDecode : List Bytes → List Bytes → Type 0
AllDecode [] [] = Unit
AllDecode [] (h ∷ hs) = ⊥
AllDecode (p ∷ ps) [] = ⊥
AllDecode (p ∷ ps) (h ∷ hs) = Decodes p h × AllDecode ps hs

sized_eq :
    (bad size : ProofError) (d : Option Bytes) (h : Bytes)
    → sized bad size d ≡ ok h
    → (d ≡ some h) × (length h ≡ 32)
sized_eq bad size none h e = ground arith
sized_eq bad size (some x) h e = ground (arith, ==_iff (length x) 32)

cons_eq :
    (a : Result ProofError Bytes) (b : Result ProofError (List Bytes)) (x : Bytes) (xs : List Bytes)
    → path_cons a b ≡ ok (x ∷ xs)
    → (a ≡ ok x) × (b ≡ ok xs)
cons_eq (err e) b x xs h = ground arith
cons_eq (ok a) (err e) x xs h = ground arith
cons_eq (ok a) (ok b) x xs h = ground arith

cons-ne-nil :
    (a : Result ProofError Bytes) (b : Result ProofError (List Bytes)) → path_cons a b ≡ ok [] → ⊥
cons-ne-nil (err e) b h = ground arith
cons-ne-nil (ok a) (err e) h = ground arith
cons-ne-nil (ok a) (ok b) h = ground arith

path_decoded : (ps hs : List Bytes) → decode_path ps ≡ ok hs → AllDecode ps hs
unfolding decode_path
path_decoded [] [] h = tt
path_decoded [] (x ∷ hs) h = ground arith
path_decoded (p ∷ ps) [] h = cons-ne-nil _ _ h
path_decoded (p ∷ ps) (x ∷ hs) h =
    let (a, b) = cons_eq (sized bad_path path_size (decode p)) (decode_path ps) x hs h in
    (sized_eq bad_path path_size (decode p) x a, path_decoded ps hs b)

sized_ok : (bad size : ProofError) (t h : Bytes) → Decodes t h → sized bad size (decode t) ≡ ok h
sized_ok bad size t h (d, l) = rw (d, (==_iff (length h) 32).1 l) refl

path_ok : (ps hs : List Bytes) → AllDecode ps hs → decode_path ps ≡ ok hs
unfolding decode_path
path_ok [] [] d = refl
path_ok [] (h ∷ hs) d = elim d [ ]
path_ok (p ∷ ps) [] d = elim d [ ]
path_ok (p ∷ ps) (h ∷ hs) d = rw (sized_ok bad_path path_size p h d.0, path_ok ps hs d.1) refl

int_range :
    (i s : ℤ)
    → le_int s (pos 0) ≡ false
    → (lt_int i (pos 0) || le_int s i) ≡ false
    → (m : ℕ) × (n : ℕ) × (i ≡ pos m) × (s ≡ pos n) × (m < n)
int_range (pos m) (pos n) h k = (m, n, refl, refl, ground arith)
int_range (pos m) (negsuc n) h k = ground arith
int_range (negsuc m) (pos n) h k = ground arith
int_range (negsuc m) (negsuc n) h k = ground arith

fields_checked :
    (p : MerkleProof)
    → check_fields p ≡ ok tt
    → (m : ℕ) × (n : ℕ) × (p.leaf_index ≡ pos m) × (p.tree_size ≡ pos n) × (m < n)
unfolding check_fields
fields_checked p h = int_range p.leaf_index p.tree_size (ground arith) (ground arith)

some_text : (t h : Bytes) → Decodes t h → is_empty t ≡ false
unfolding decode
some_text [] h (d, l) = let k : h ≡ [] = ground arith in absurd (omega (arith, l, ap length k))
some_text (c ∷ cs) h d = refl

fields_ok :
    (p : MerkleProof) (m n : ℕ) (root leaf : Bytes)
    → p.leaf_index ≡ pos m
    → p.tree_size ≡ pos n
    → m < n
    → Decodes p.root_hash root
    → Decodes p.leaf_hash leaf
    → check_fields p ≡ ok tt
unfolding check_fields
fields_ok p m n root leaf i s b r l =
    rw (some_text p.root_hash root r, some_text p.leaf_hash leaf l, i, s) (ground arith)

root_compared :
    (root : Bytes) (r : Result MerkleError Bytes) → compare_root root r ≡ ok tt → r ≡ ok root
root_compared root (ok c) h = ground (arith, bytes_eq_iff c root)
root_compared root (err zero_size) h = ground arith
root_compared root (err index_range) h = ground arith
root_compared root (err path_too_long) h = ground arith
root_compared root (err excess) h = ground arith
root_compared root (err insufficient) h = ground arith
root_compared root (err root_mismatch) h = ground arith

module _ (node : Bytes → Bytes → Bytes) where
  -- The proof has hexadecimal digests of 32 bytes, an index below the size, and a path that the walk takes from
  -- the leaf to the root.
  pub record Accepted (p : MerkleProof) : Type 0 where
    pub index : ℕ
    pub size : ℕ
    pub root : Bytes
    pub leaf : Bytes
    pub path : List Bytes
    pub is_index : p.leaf_index ≡ pos index
    pub is_size : p.tree_size ≡ pos size
    pub in_range : index < size
    pub is_root : Decodes p.root_hash root
    pub is_leaf : Decodes p.leaf_hash leaf
    pub is_path : AllDecode p.path path
    pub walked : walk node index (size - 1) leaf path ≡ ok root

  inclusion_sound : (p : MerkleProof) → verify_inclusion_proof node p ≡ ok tt → Accepted p
  unfolding verify_inclusion_proof
  inclusion_sound p h = elim (Result-cases (check_fields p)) [
    | inr (x, e) ↦
        let k : Path (Result ProofError (Unit {0})) (err x) (ok tt) = rw e at h in ground arith
    | inl (u, e) ↦ elim (Result-cases (sized bad_root root_size (decode p.root_hash))) [
      | inr (x, f) ↦
          let k : Path (Result ProofError (Unit {0})) (err x) (ok tt) = rw (e, f) at h in
          ground arith
      | inl (root, f) ↦ elim (Result-cases (sized bad_leaf leaf_size (decode p.leaf_hash))) [
        | inr (x, g) ↦
            let k : Path (Result ProofError (Unit {0})) (err x) (ok tt) = rw (e, f, g) at h in
            ground arith
        | inl (leaf, g) ↦ elim (Result-cases (decode_path p.path)) [
          | inr (x, j) ↦
              let k : Path (Result ProofError (Unit {0})) (err x) (ok tt) = rw (e, f, g, j) at h in
              ground arith
          | inl (path, j) ↦
              let (m, n, a, b, d) = fields_checked p e in
              let w = root_compared root _ (rw (e, f, g, j) at h) in
              record {
                index = m;
                size = n;
                root = root;
                leaf = leaf;
                path = path;
                is_index = a;
                is_size = b;
                in_range = d;
                is_root = sized_eq bad_root root_size (decode p.root_hash) root f;
                is_leaf = sized_eq bad_leaf leaf_size (decode p.leaf_hash) leaf g;
                is_path = path_decoded p.path path j;
                walked = rw (a, b) at w;
              }
        ]
      ]
    ]
  ]

  inclusion_complete : (p : MerkleProof) → Accepted p → verify_inclusion_proof node p ≡ ok tt
  unfolding verify_inclusion_proof
  inclusion_complete p a =
      rw
        (
          fields_ok p a.index a.size a.root a.leaf a.is_index a.is_size a.in_range a.is_root
              a.is_leaf,
          sized_ok bad_root root_size p.root_hash a.root a.is_root,
          sized_ok bad_leaf leaf_size p.leaf_hash a.leaf a.is_leaf,
          path_ok p.path a.path a.is_path,
          a.is_index,
          a.is_size,
          a.walked,
          bytes_eq_refl a.root,
        )
        refl

  -- The proof of a response is accepted exactly when its index is below its size, its hashes are the hexadecimal
  -- of 32 bytes each, and the walk of RFC 9162 along its path takes its leaf hash to its root hash.
  pub inclusion_iff : (p : MerkleProof) → (verify_inclusion_proof node p ≡ ok tt) ↔ Accepted p
  inclusion_iff p = (inclusion_sound p, inclusion_complete p)
