-- ===== src/Gold/Claims.antt =====
-- What a connected result of Gold or of the offline verification shows.
use mathlib.Core.Bool.{false≢true}
use alibaba_ati_golang_sdk.Base.{
  ℕ, ◌≡◌, refl, sym, ap, ◌∙◌, inl, inr, Bool, true, false, ◌||◌, Option, none, some, Bytes, Result,
  ok, err, codes, bytes_eq, bind_ok, ensure_then, ensure_ok, map_err_ok, false_of_not, ok_eq, arith,
  if◌then◌else◌,
}
use alibaba_ati_golang_sdk.Base.Map.{Map, lookup}
use alibaba_ati_golang_sdk.Models.Fqdn.{Fqdn}
use alibaba_ati_golang_sdk.Models.TlLog.{TlResponse, TlAgentStatus, is_terminal}
use alibaba_ati_golang_sdk.Cert.{CertIdentity}
use alibaba_ati_golang_sdk.TlProof.Claims.{Accepted, inclusion_iff}
use alibaba_ati_golang_sdk.Trust.{
  AnsError, level_basic, level_verified, compute_trust_index, trust_score, raw_score,
  trust_level_from_score,
}
use alibaba_ati_golang_sdk.Seal.{SealCodec, to_upper, verify_producer_signature}
use alibaba_ati_golang_sdk.Seal.Claims.{IsUsed, IsSealed, store-IsSealed}
use alibaba_ati_golang_sdk.Gold.{
  GoldConfig, check_response, agent_status, gold_checks, gold_params, gold_result, verify_gold,
  verify_producer,
}
use alibaba_ati_golang_sdk.Gold.Response.{
  IsProduced, signed-IsProduced, FitsRecord, match-FitsRecord, IsFound, find_response-IsFound,
}

-- A response of the log in which everything was verified with the store of keys.
pub record IsProven {K : Type 0} (x : SealCodec K) (node : Bytes → Bytes → Bytes)
    (cert : CertIdentity) (store : Map (Option K)) (producer_keys : Option (Bytes → Option K))
    (r : TlResponse) : Type 0 where
  pub key : K
  pub trusted : lookup r.seal.key_id store ≡ some (some key)
  pub sealed : IsSealed x r key
  pub included : Accepted node r.merkle_proof
  pub producer :
      (keys : Bytes → Option K)
      → producer_keys ≡ some keys
      → r.evidence_ref.signature_required ≡ true
      → IsProduced x r keys
  pub fingerprint : FitsRecord r cert

-- No entry of the store is nil.
abbrev pub NoNil : {K : Type 0} → Map (Option K) → Type 0
NoNil store = (kid : Bytes) → lookup kid store ≡ some none → ⊥

some_eq {ℓ} : {A : Type ℓ} (a b : A) → some a ≡ some b → a ≡ b
some_eq a b h = ground arith

terminal_cases :
    (status : TlAgentStatus)
    → is_terminal status ≡ false
    → (bytes_eq status (codes "REVOKED") ≡ false) × (bytes_eq status (codes "EXPIRED") ≡ false)
unfolding is_terminal
terminal_cases status h = ground arith

-- In a store without nil, the key that was used is the trusted one.
used_trusted :
    {K : Type 0} (x : SealCodec K) (r : TlResponse) (store : Map (Option K)) (trusted : Option K)
    (key : K)
    → NoNil store
    → lookup r.seal.key_id store ≡ some trusted
    → IsUsed x r trusted key
    → lookup r.seal.key_id store ≡ some (some key)
used_trusted x r store trusted key n l (inl e) = l ∙ ap some e
used_trusted x r store trusted key n l (inr (e, p)) = absurd (n r.seal.key_id (l ∙ ap some e))

module _ {K : Type 0} (x : SealCodec K) (node : Bytes → Bytes → Bytes) (share : ℕ → ℕ → ℕ) where
  producer_of :
      (r : TlResponse) (p : Option (Bytes → Option K)) (u : Unit {0}) (keys : Bytes → Option K)
      → verify_producer x node share r p ≡ ok u
      → p ≡ some keys
      → verify_producer_signature x r keys ≡ ok u
  producer_of r none u keys h e = ground arith
  producer_of r (some k) u keys h e = ground arith

  response-IsProven :
      (r : TlResponse) (cert : CertIdentity) (store : Map (Option K)) (key : Option K)
      (p : Option (Bytes → Option K)) (u : Unit {0})
      → NoNil store
      → check_response x node share r cert (some store) key p ≡ ok u
      → IsProven x node cert store p r
  unfolding check_response
  response-IsProven r cert store key p u n h =
      let (a, s, h) = bind_ok _ _ u h in
      let (b, i, h) = bind_ok _ _ u h in
      let (d, q, h) = bind_ok _ _ u h in
      let (keys, trusted, k, e, l, w, z) = store-IsSealed x r (some store) a s in
      let l = ap (lookup r.seal.key_id) (some_eq store keys e) ∙ l in
      record {
        key = k;
        trusted = used_trusted x r store trusted k n l w;
        sealed = z;
        included = (inclusion_iff node r.merkle_proof).0 (map_err_ok _ _ tt i);
        producer = λ keys e s. signed-IsProduced x r keys tt (producer_of r p tt keys q e) s;
        fingerprint = match-FitsRecord r cert (ensure_ok _ _ u h);
      }

  -- The response that Gold found for the name is proven, and its status is not terminal.
  abbrev pub GoldProven :
      Fqdn → CertIdentity → GoldConfig K → Map (Option K) → TlAgentStatus → Type 0
  GoldProven fqdn cert cfg store status =
      (r : TlResponse) × IsFound fqdn cfg r
      × IsProven x node cert store cfg.producer_keys r
      × (to_upper r.payload.agent_status ≡ status)
      × (bytes_eq status (codes "REVOKED") ≡ false)
      × (bytes_eq status (codes "EXPIRED") ≡ false)

  checks-GoldProven :
      (fqdn : Fqdn) (cert : CertIdentity) (cfg : GoldConfig K) (store : Map (Option K))
      (status : TlAgentStatus)
      → NoNil store
      → cfg.tl_key_store ≡ some store
      → gold_checks x node share fqdn cert cfg ≡ ok status
      → GoldProven fqdn cert cfg store status
  unfolding gold_checks
  checks-GoldProven fqdn cert cfg store status n e h =
      let (r, f, h) = bind_ok _ _ status h in
      let (u, c, h) = bind_ok _ _ status h in
      let (t, h) = ensure_then _ _ _ status h in
      let q = ok_eq (agent_status x node share r) status h in
      let live = terminal_cases status (ap is_terminal (sym q) ∙ false_of_not _ t) in
      (
        r,
        find_response-IsFound x node share fqdn cfg r f,
        response-IsProven r cert store cfg.tl_public_key cfg.producer_keys u n (
            ap (λ s. check_response x node share r cert s cfg.tl_public_key cfg.producer_keys)
              (sym e)
            ∙ c),
        q,
        live.0,
        live.1,
      )

  connected_status :
      (name : Bytes) (p : Option (Bytes → Option K)) (r : Result AnsError TlAgentStatus)
      → (gold_result x node share name p r).connected ≡ true
      → r ≡ ok (gold_result x node share name p r).status
  connected_status name p (err e) h = absurd (false≢true h)
  connected_status name p (ok s) h = refl

  -- With a store of keys of the log none of which is nil, Gold connects only if the log answered with a response for
  -- the first ID that DNS has for the domain name; the key of the store under the seal's key ID accepts the seal's
  -- signature over the sealed fields; the inclusion proof holds; where keys of producers are configured and the
  -- record asks for a signature, the submitter's key accepts the one over the canonical payload; the certificate's
  -- fingerprint is the current or the previous one of the identity or the server certificate of the record; and
  -- the status, which the result reports, is neither REVOKED nor EXPIRED.
  pub gold-GoldProven :
      (fqdn : Fqdn) (cert : CertIdentity) (cfg : GoldConfig K) (store : Map (Option K))
      → NoNil store
      → cfg.tl_key_store ≡ some store
      → (verify_gold x node share fqdn cert cfg).connected ≡ true
      → GoldProven fqdn cert cfg store (verify_gold x node share fqdn cert cfg).status
  unfolding verify_gold
  gold-GoldProven fqdn cert cfg store n e h =
      checks-GoldProven fqdn cert cfg store _ n e
        (connected_status _ cfg.producer_keys (gold_checks x node share fqdn cert cfg) h)

  -- The trust level of a connected result of Gold is VERIFIED if keys of producers are configured or the agent is
  -- ACTIVE, and BASIC otherwise; it is never HIGH.
  pub gold_level :
      (producer active : Bool)
      → (compute_trust_index share (gold_params x node share producer active)).1
        ≡ (if producer || active then level_verified else level_basic)
  unfolding compute_trust_index trust_score raw_score trust_level_from_score
  gold_level true true = refl
  gold_level true false = refl
  gold_level false true = refl
  gold_level false false = refl
