-- ===== src/Gold/Response.antt =====
-- The checks of verify/gold.go on the response of the log, each by what it asks.
use alibaba_ati_golang_sdk.Base.{
  ℕ, ◌≡◌, refl, ap, ◌∙◌, ◌⊎◌, inl, inr, Bool, true, false, not, ◌||◌, List, [], ◌∷◌, ◌++◌, Option,
  some, Bytes, Result, ok, is_empty, codes, if◌then◌else◌, bind_ok, ensure_then, require_then,
  ensure_ok, map_err_ok, ok_eq, arith,
}
use alibaba_ati_golang_sdk.Models.Fqdn.{Fqdn}
use alibaba_ati_golang_sdk.Models.TlLog.{TlResponse}
use alibaba_ati_golang_sdk.Cert.{CertFingerprint, CertIdentity, is_blank, parse_cert_fingerprint}
use alibaba_ati_golang_sdk.Cert.Fingerprint.{matches_with_renewal_iff}
use alibaba_ati_golang_sdk.Trust.{AnsError}
use alibaba_ati_golang_sdk.Seal.{
  SealCodec, compute_producer_digest, check_producer, verify_producer_signature,
}
use alibaba_ati_golang_sdk.Gold.{
  Discovery, GoldConfig, match_fingerprint, find_response, first_id, default_tl_base_url,
}

-- The current fingerprint is given, and it or the previous one is the certificate's.
abbrev pub IsRenewal : CertFingerprint → Bytes → Bytes → Type 0
IsRenewal f current previous =
    (is_blank current ≡ false)
    × ((parse_cert_fingerprint current ≡ ok f) ⊎ (parse_cert_fingerprint previous ≡ ok f))

-- The certificate is the identity certificate or the server certificate of the record.
abbrev pub FitsRecord : TlResponse → CertIdentity → Type 0
FitsRecord r cert =
    IsRenewal cert.fingerprint r.payload.certificates.identity_cert_fingerprint
      r.payload.certificates.previous_identity_cert_fingerprint
    ⊎ IsRenewal cert.fingerprint r.payload.certificates.server_cert_fingerprint
        r.payload.certificates.previous_server_cert_fingerprint

or_cases : (a b : Bool) → (a || b) ≡ true → (a ≡ true) ⊎ (b ≡ true)
or_cases a b h = ground arith

pub match-FitsRecord :
    (r : TlResponse) (cert : CertIdentity) → match_fingerprint r cert ≡ true → FitsRecord r cert
unfolding match_fingerprint
match-FitsRecord r cert h = elim (or_cases _ _ h) [
  | inl e ↦ inl ((matches_with_renewal_iff cert.fingerprint _ _).0 e)
  | inr e ↦ inr ((matches_with_renewal_iff cert.fingerprint _ _).0 e)
]

-- The key that the lookup has for the submitter accepts the signature over the canonical form of the payload.
pub record IsProduced {K : Type 0} (x : SealCodec K) (r : TlResponse) (keys : Bytes → Option K)
    : Type 0 where
  pub key : K
  pub json : Bytes
  pub canonical : Bytes
  pub signature : Bytes
  pub known : keys r.evidence_ref.submitter_id ≡ some key
  pub marshalled : x.marshal_payload r.payload ≡ some json
  pub canonicalized : x.canonicalize json ≡ some canonical
  pub decoded : x.base64 r.evidence_ref.evidence_hash ≡ some signature
  pub verified : x.verify_asn1 key (x.sha256 canonical) signature ≡ true

module _ {K : Type 0} (x : SealCodec K) where
  digest_lem :
      (r : TlResponse) (digest : Bytes)
      → compute_producer_digest x r.payload ≡ ok digest
      → (json : Bytes) × (canonical : Bytes) × (x.marshal_payload r.payload ≡ some json)
        × (x.canonicalize json ≡ some canonical)
        × (x.sha256 canonical ≡ digest)
  unfolding compute_producer_digest
  digest_lem r digest h =
      let (json, j, h) = require_then _ _ _ digest h in
      let (canonical, c, h) = require_then _ _ _ digest h in
      (json, canonical, j, c, ok_eq _ digest h)

  check-IsProduced :
      (r : TlResponse) (keys : Bytes → Option K) (u : Unit {0})
      → check_producer x r keys ≡ ok u
      → IsProduced x r keys
  unfolding check_producer
  check-IsProduced r keys u h =
      let (a, h) = ensure_then _ _ _ u h in
      let (key, k, h) = require_then _ _ _ u h in
      let (digest, d, h) = bind_ok _ _ u h in
      let (sig, s, h) = require_then _ _ _ u h in
      let (json, canonical, j, c, e) = digest_lem r digest d in
      record {
        key = key;
        json = json;
        canonical = canonical;
        signature = sig;
        known = k;
        marshalled = j;
        canonicalized = c;
        decoded = s;
        verified = ap (λ d. x.verify_asn1 key d sig) e ∙ ensure_ok _ _ u h;
      }

  required_check :
      (required : Bool) (a b : Result AnsError (Unit {0})) (u : Unit {0})
      → required ≡ true
      → (if not required then a else b) ≡ ok u
      → b ≡ ok u
  required_check true a b u e h = h
  required_check false a b u e h = ground arith

  pub signed-IsProduced :
      (r : TlResponse) (keys : Bytes → Option K) (u : Unit {0})
      → verify_producer_signature x r keys ≡ ok u
      → r.evidence_ref.signature_required ≡ true
      → IsProduced x r keys
  unfolding verify_producer_signature
  signed-IsProduced r keys u h e =
      check-IsProduced r keys u (required_check r.evidence_ref.signature_required _ _ u e h)

-- The log answered with the response for the first ID that DNS has for the domain name.
pub record IsFound {K : Type 0} (fqdn : Fqdn) (cfg : GoldConfig K) (r : TlResponse) : Type 0 where
  pub discovery : Discovery
  pub id : Bytes
  pub ids : List Bytes
  pub base : Bytes
  pub discovered : cfg.lookup_ati_discovery fqdn ≡ ok discovery
  pub is_found : discovery.found ≡ true
  pub first : discovery.ids ≡ id ∷ ids
  pub is_base :
      (cfg.tl_base_url ≡ base)
      ⊎ ((cfg.tl_base_url ≡ []) × (base ≡ codes "https://ati-tl.cnnic.cn/ati/api/v1"))
  pub fetched :
      cfg.fetch_tl_response (base ++ (codes "/tl/agents/" ++ (id ++ codes "/logs/latest"))) ≡ ok r

first_lem :
    (ids : List Bytes) (id : Bytes)
    → first_id ids ≡ some id
    → (rest : List Bytes) × (ids ≡ id ∷ rest)
first_lem [] id h = ground arith
first_lem (i ∷ ids) id h = (ids, ground arith)

base_lem :
    (s d : Bytes)
    → (s ≡ (if is_empty s then d else s)) ⊎ ((s ≡ []) × ((if is_empty s then d else s) ≡ d))
base_lem [] d = inr (refl, refl)
base_lem (x ∷ s) d = inl refl

module _ {K : Type 0} (x : SealCodec K) (node : Bytes → Bytes → Bytes) (share : ℕ → ℕ → ℕ) where
  pub find_response-IsFound :
      (fqdn : Fqdn) (cfg : GoldConfig K) (r : TlResponse)
      → find_response x node share fqdn cfg ≡ ok r
      → IsFound fqdn cfg r
  unfolding find_response
  find_response-IsFound fqdn cfg r h =
      let (d, e, h) = bind_ok _ _ r h in
      let (f, h) = ensure_then _ _ _ r h in
      let (id, i, h) = require_then _ _ _ r h in
      let (n, h) = ensure_then _ _ _ r h in
      let (ids, q) = first_lem d.ids id i in
      record {
        discovery = d;
        id = id;
        ids = ids;
        base = if is_empty cfg.tl_base_url then default_tl_base_url else cfg.tl_base_url;
        discovered = map_err_ok _ _ d e;
        is_found = f;
        first = q;
        is_base = base_lem cfg.tl_base_url default_tl_base_url;
        fetched = map_err_ok _ _ r h;
      }
