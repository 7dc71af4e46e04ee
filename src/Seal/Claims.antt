-- ===== src/Seal/Claims.antt =====
-- What a verified seal is.
use alibaba_ati_golang_sdk.Base.{
  none, [], ◌∷◌, codes, require_ok, ok_eq, ◌≡◌, refl, sym, ◌⊎◌, inl, inr, true, Option, some, Bytes,
  Result, ok, err, bind_ok, ensure_then, require_then, Bool-cases, arith,
}
use alibaba_ati_golang_sdk.Base.Map.{Map, lookup}
use alibaba_ati_golang_sdk.Models.TlLog.{TlResponse}
use alibaba_ati_golang_sdk.Trust.{AnsError}
use alibaba_ati_golang_sdk.Seal.{
  raw_or_marshal, hash_of, KeyKind, kind_ecdsa, kind_rsa, kind_other, SealCodec, allows_ecdsa,
  allows_rsa, seal_algorithm_family, seal_error, verify_kind, verify_seal_digest,
  compute_seal_digest, verify_seal_signature, verify_seal_signature_with_key_store, seal_key,
}

-- The key accepts the signature, and the algorithm that the seal declares, if any, is one for the key.
abbrev pub Accepts : {K : Type 0} → SealCodec K → K → Bytes → Bytes → Bytes → Type 0
Accepts x key algorithm digest sig =
    ((x.kind key ≡ kind_ecdsa)
      × (allows_ecdsa (seal_algorithm_family algorithm) ≡ true)
      × (x.verify_asn1 key digest sig ≡ true))
    ⊎ ((x.kind key ≡ kind_rsa)
        × (allows_rsa (seal_algorithm_family algorithm) ≡ true)
        × (x.verify_pkcs1v15 key digest sig ≡ true))

-- The raw JSON of a sealed field, or the one that is made of its value where there is none.
abbrev pub IsField : {A : Type 0} → (A → Option Bytes) → Option Bytes → A → Bytes → Type 0
IsField marshal raw value text = (raw ≡ some text) ⊎ ((raw ≡ none) × (marshal value ≡ some text))

-- The hash of the canonical form of the four sealed fields.
pub record IsSealDigest {K : Type 0} (x : SealCodec K) (r : TlResponse) (digest : Bytes)
    : Type 0 where
  pub status : Bytes
  pub schema : Bytes
  pub payload : Bytes
  pub evidence : Bytes
  pub canonical : Bytes
  pub is_status : IsField x.marshal_text r.raw_status r.status status
  pub is_schema : IsField x.marshal_text r.raw_schema_version r.schema_version schema
  pub is_payload : IsField x.marshal_payload r.raw_payload r.payload payload
  pub is_evidence : IsField x.marshal_evidence_ref r.raw_evidence_ref r.evidence_ref evidence
  pub canonicalized :
      x.canonicalize_fields (
        (codes "status", status)
        ∷ (codes "schemaVersion", schema)
        ∷ (codes "payload", payload)
        ∷ (codes "evidenceRef", evidence)
        ∷ [])
      ≡ some canonical
  pub hashed : digest ≡ x.sha256 canonical

pub record IsSealed {K : Type 0} (x : SealCodec K) (r : TlResponse) (key : K) : Type 0 where
  pub digest : Bytes
  pub signature : Bytes
  pub digested : IsSealDigest x r digest
  pub decoded : x.base64 r.seal.signature ≡ some signature
  pub accepted : Accepts x key r.seal.signature_algorithm digest signature

-- The trusted key, or the one of the seal where there is none.
abbrev pub IsUsed : {K : Type 0} → SealCodec K → TlResponse → Option K → K → Type 0
IsUsed x r trusted key =
    (trusted ≡ some key)
    ⊎ ((trusted ≡ none) × (x.parse_public_key_pem r.seal.public_key ≡ some key))

no_ok : (e : AnsError) (u : Unit {0}) → Path (Result AnsError (Unit {0})) (err e) (ok u) → ⊥
no_ok e u h = ground arith

module _ {K : Type 0} (x : SealCodec K) where
  kind-Accepts :
      (k : KeyKind) (key : K) (algorithm digest sig : Bytes) (u : Unit {0})
      → x.kind key ≡ k
      → verify_kind x k key (seal_algorithm_family algorithm) digest sig ≡ ok u
      → Accepts x key algorithm digest sig
  kind-Accepts kind_other key algorithm digest sig u e h = absurd (no_ok seal_error u h)
  kind-Accepts kind_ecdsa key algorithm digest sig u e h =
      elim (Bool-cases (allows_ecdsa (seal_algorithm_family algorithm))) [
        | inr a ↦ absurd (no_ok seal_error u (rw a at h))
        | inl a ↦ elim (Bool-cases (x.verify_asn1 key digest sig)) [
          | inr v ↦ absurd (no_ok seal_error u (rw (a, v) at h))
          | inl v ↦ inl (e, a, v)
        ]
      ]
  kind-Accepts kind_rsa key algorithm digest sig u e h =
      elim (Bool-cases (allows_rsa (seal_algorithm_family algorithm))) [
        | inr a ↦ absurd (no_ok seal_error u (rw a at h))
        | inl a ↦ elim (Bool-cases (x.verify_pkcs1v15 key digest sig)) [
          | inr v ↦ absurd (no_ok seal_error u (rw (a, v) at h))
          | inl v ↦ inr (e, a, v)
        ]
      ]

  given-IsField :
      {A : Type 0} (marshal : A → Option Bytes) (raw : Option Bytes) (value : A) (text : Bytes)
      → raw_or_marshal x raw marshal value ≡ some text
      → IsField marshal raw value text
  given-IsField marshal none value text h = inr (refl, h)
  given-IsField marshal (some raw) value text h = inl h

  hashed_lem :
      (o : Option Bytes) (digest : Bytes)
      → hash_of x o ≡ ok digest
      → (canonical : Bytes) × (o ≡ some canonical) × (digest ≡ x.sha256 canonical)
  hashed_lem none digest h = ground arith
  hashed_lem (some c) digest h = (c, refl, sym (ok_eq (x.sha256 c) digest h))

  computed-IsSealDigest :
      (r : TlResponse) (digest : Bytes)
      → compute_seal_digest x r ≡ ok digest
      → IsSealDigest x r digest
  unfolding compute_seal_digest
  computed-IsSealDigest r digest h =
      let (status, s, h) = require_then _ _ _ digest h in
      let (schema, v, h) = require_then _ _ _ digest h in
      let (payload, p, h) = require_then _ _ _ digest h in
      let (evidence, e, h) = require_then _ _ _ digest h in
      let (canonical, c, d) = hashed_lem _ digest h in
      record {
        status = status;
        schema = schema;
        payload = payload;
        evidence = evidence;
        canonical = canonical;
        is_status = given-IsField x.marshal_text r.raw_status r.status status s;
        is_schema = given-IsField x.marshal_text r.raw_schema_version r.schema_version schema v;
        is_payload = given-IsField x.marshal_payload r.raw_payload r.payload payload p;
        is_evidence =
            given-IsField x.marshal_evidence_ref r.raw_evidence_ref r.evidence_ref evidence e;
        canonicalized = c;
        hashed = d;
      }

  key-IsUsed :
      (r : TlResponse) (trusted : Option K) (key : K)
      → seal_key x trusted r.seal.public_key ≡ ok key
      → IsUsed x r trusted key
  unfolding seal_key
  key-IsUsed r (some k) key h = inl (ground arith)
  key-IsUsed r none key h = let (n, h) = ensure_then _ _ _ key h in inr (refl, require_ok _ _ key h)

  signature-IsSealed :
      (r : TlResponse) (trusted : Option K) (u : Unit {0})
      → verify_seal_signature x r trusted ≡ ok u
      → (key : K) × IsUsed x r trusted key × IsSealed x r key
  unfolding verify_seal_signature verify_seal_digest
  signature-IsSealed r trusted u h =
      let (a, h) = ensure_then _ _ _ u h in
      let (b, h) = ensure_then _ _ _ u h in
      let (key, k, h) = bind_ok _ _ u h in
      let (digest, d, h) = bind_ok _ _ u h in
      let (sig, s, h) = require_then _ _ _ u h in
      (
        key,
        key-IsUsed r trusted key k,
        record {
          digest = digest;
          signature = sig;
          digested = computed-IsSealDigest r digest d;
          decoded = s;
          accepted = kind-Accepts (x.kind key) key r.seal.signature_algorithm digest sig u refl h;
        },
      )

  -- With a store of keys, a seal is accepted only if the store has an entry under the seal's key ID, and the key of
  -- the entry, or the key that the seal carries where the entry is nil, accepts the signature over the four
  -- sealed fields; and the algorithm that the seal declares, if it does, is one for a key of that kind.
  pub store-IsSealed :
      (r : TlResponse) (store : Option (Map (Option K))) (u : Unit {0})
      → verify_seal_signature_with_key_store x r store ≡ ok u
      → (keys : Map (Option K)) × (trusted : Option K) × (key : K) × (store ≡ some keys)
        × (lookup r.seal.key_id keys ≡ some trusted)
        × IsUsed x r trusted key
        × IsSealed x r key
  unfolding verify_seal_signature_with_key_store
  store-IsSealed r store u h =
      let (keys, s, h) = require_then _ _ _ u h in
      let (b, h) = ensure_then _ _ _ u h in
      let (trusted, k, h) = require_then _ _ _ u h in
      let (key, e, i) = signature-IsSealed r trusted u h in (keys, trusted, key, s, k, e, i)
