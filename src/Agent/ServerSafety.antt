-- ===== src/Agent/ServerSafety.antt =====
-- Which clients a server lets in.
use alibaba_ati_golang_sdk.Base.{
  ℕ, ◌≡◌, refl, sym, ap, ◌∙◌, ◌⊎◌, inl, inr, true, false, List, ◌∷◌, Option, none, some, Result, ok,
  err, Bool-cases, if_true, if_true_fst, if_false_fst, ok_eq, arith,
}
use alibaba_ati_golang_sdk.Base.Int.{ℤ, pos, negsuc, le_int, lt_int, int_eq}
use alibaba_ati_golang_sdk.Models.Fqdn.{Fqdn, FqdnError, new_fqdn}
use alibaba_ati_golang_sdk.Cert.{CertIdentity, AtiName, cert_ati_name}
use alibaba_ati_golang_sdk.Dane.{DaneResolver, verify_identity, is_verified}
use alibaba_ati_golang_sdk.Outcome.{VerificationOutcome, is_success, to_error}
use alibaba_ati_golang_sdk.Verifier.{Cache}
use alibaba_ati_golang_sdk.Agent.{
  VerificationPolicy, policy_basic, policy_enhanced, policy_advanced, PeerCertificate, Validity,
  valid, expired, not_yet_valid, check_cert_validity,
}
use alibaba_ati_golang_sdk.Agent.Server.{
  ServerError, badge_failed, Enforcement, Peers, crl_rejects, badge_step, dane_step, dane_named,
  dane_at, achieves, is_pki_only, finish, levels_of, verify_peer, verify_valid, verify_connection,
  wants,
}

-- A record of the certificate under the host of its name fits, and its DNSSEC chain is valid.
abbrev pub DaneHolds : Enforcement → CertIdentity → Type 0
DaneHolds cfg cert =
    (d : DaneResolver) × (n : AtiName) × (fqdn : Fqdn) × (cfg.dane_resolver ≡ some d)
    × (cert_ati_name cert ≡ some n)
    × (new_fqdn n.host ≡ ok fqdn)
    × (is_verified (verify_identity d fqdn (some cert)) ≡ true)

-- What the level asks of a client.
pub record Accepted (cfg : Enforcement) (level : VerificationPolicy) (now : ℕ)
    (peer : PeerCertificate) (rest : List PeerCertificate) (s : Peers) : Type 0 where
  pub dates : check_cert_validity peer now ≡ valid
  pub revocation : crl_rejects cfg.crl_checker peer (peer ∷ rest) ≡ false
  pub badge : is_success (cfg.badge s.cache peer.identity).0 ≡ true
  pub dane : le_int policy_advanced level ≡ true → DaneHolds cfg peer.identity

below_advanced : (level : ℤ) → le_int (pos 2) level ≡ true → lt_int (pos 1) level ≡ false → ⊥
below_advanced (pos n) h k = ground arith
below_advanced (negsuc n) h k = ground arith

wants-level :
    (p level : VerificationPolicy) (l : Option VerificationPolicy)
    → l ≡ some level
    → le_int p level ≡ true
    → wants p l ≡ true
wants-level p level l e h = rw e h

no_ok : (e : ServerError) → Path (Result ServerError (Unit {0})) (err e) (ok tt) → ⊥
no_ok e h = ground arith

reached :
    (level a : VerificationPolicy) (l : Option VerificationPolicy)
    → l ≡ some level
    → achieves a l ≡ ok tt
    → lt_int a level ≡ false
reached level a none e h = ground arith
reached level a (some l) e h = ground arith

module _ (cfg : Enforcement) (level : VerificationPolicy) (is_level : cfg.level ≡ some level)
    (cert : CertIdentity) where
  abbrev Reaches : VerificationPolicy → Type 0
  Reaches a = lt_int a level ≡ false

  module _ (advanced : le_int policy_advanced level ≡ true) (a : VerificationPolicy)
      (reaches : Reaches a) where
    stays : policy_enhanced ≡ a → DaneHolds cfg cert
    stays e = absurd (below_advanced level advanced (ap (λ x. lt_int x level) e ∙ reaches))

    fqdn-DaneHolds :
        (d : DaneResolver) (n : AtiName) (f : Result FqdnError Fqdn)
        → cfg.dane_resolver ≡ some d
        → cert_ati_name cert ≡ some n
        → new_fqdn n.host ≡ f
        → dane_at cfg d cert policy_enhanced f ≡ ok a
        → DaneHolds cfg cert
    fqdn-DaneHolds d n (err e) i j k h = stays (ok_eq policy_enhanced a h)
    fqdn-DaneHolds d n (ok fqdn) i j k h =
        elim (Bool-cases (is_verified (verify_identity d fqdn (some cert)))) [
          | inl v ↦ (d, n, fqdn, i, j, k, v)
          | inr v ↦
              let q : Path (Result ServerError VerificationPolicy) (err _) (ok a) =
                rw (is_level, v) at h in
              ground arith
        ]

    named-DaneHolds :
        (d : Option DaneResolver) (n : Option AtiName)
        → cfg.dane_resolver ≡ d
        → cert_ati_name cert ≡ n
        → dane_named cfg d cert policy_enhanced n ≡ ok a
        → DaneHolds cfg cert
    named-DaneHolds none n i j h = stays (ok_eq policy_enhanced a h)
    named-DaneHolds (some d) none i j h = stays (ok_eq policy_enhanced a h)
    named-DaneHolds (some d) (some n) i j h = fqdn-DaneHolds d n (new_fqdn n.host) i j refl h

    step-DaneHolds : dane_step cfg cert policy_enhanced ≡ ok a → DaneHolds cfg cert
    unfolding dane_step
    step-DaneHolds h =
        named-DaneHolds cfg.dane_resolver (cert_ati_name cert) refl refl
          (if_true _ _ _ (ok a) (wants-level policy_advanced level cfg.level is_level advanced) h)

  badge_ok :
      (o : VerificationOutcome) (r : Result ServerError VerificationPolicy)
      → badge_step cfg o ≡ r
      → (is_success o ≡ true) × (r ≡ ok policy_enhanced) ⊎ ((e : ServerError) × (r ≡ err e))
  unfolding badge_step
  badge_ok o r h = elim (Bool-cases (is_success o)) [
    | inl e ↦ inl (e, sym h ∙ rw e refl)
    | inr e ↦ inr (badge_failed (to_error o), sym h ∙ rw (e, is_level) refl)
  ]

  finish_ok :
      (t : Peers) (r : Result ServerError VerificationPolicy)
      → (finish cfg cert t r).0 ≡ ok tt
      → (a : VerificationPolicy) × (r ≡ ok a) × Reaches a
  finish_ok t (ok a) h = (a, refl, reached level a cfg.level is_level h)
  finish_ok t (err e) h = absurd (no_ok e h)

  module _ (enhanced : le_int policy_enhanced level ≡ true) (s : Peers) where
    badge_accepts :
        (o : VerificationOutcome) (cache : Cache) (r : Result ServerError VerificationPolicy)
        → badge_step cfg o ≡ r
        → (finish cfg cert (record s { cache = cache }) (levels_of cfg cert r)).0 ≡ ok tt
        → (is_success o ≡ true) × (le_int policy_advanced level ≡ true → DaneHolds cfg cert)
    badge_accepts o cache (err e) b h = absurd (no_ok e h)
    badge_accepts o cache (ok a) b h = elim (badge_ok o (ok a) b) [
      | inl (v, e) ↦
          let (x, d, k) = finish_ok _ (dane_step cfg cert a) h in
          (
            v,
            λ adv.
                step-DaneHolds adv x k
                  (ap (dane_step cfg cert) (sym (ok_eq a policy_enhanced e)) ∙ d),
          )
      | inr (e, q) ↦
          let z : Path (Result ServerError VerificationPolicy) (ok a) (err e) = q in ground arith
    ]

    peer_accepts :
        (verify_peer cfg cert s).0 ≡ ok tt
        → (is_success (cfg.badge s.cache cert).0 ≡ true)
          × (le_int policy_advanced level ≡ true → DaneHolds cfg cert)
    unfolding verify_peer
    peer_accepts h =
        badge_accepts (cfg.badge s.cache cert).0 (cfg.badge s.cache cert).1
          (badge_step cfg (cfg.badge s.cache cert).0) refl
          (if_true_fst _ _ _ (ok tt) (wants-level policy_enhanced level cfg.level is_level enhanced)
            h)

not_pki :
    (level : VerificationPolicy)
    → le_int policy_enhanced level ≡ true
    → int_eq level policy_basic ≡ false
not_pki (pos n) h = ground arith
not_pki (negsuc n) h = ground arith

pki_some :
    (l : Option VerificationPolicy) (level : VerificationPolicy)
    → l ≡ some level
    → le_int policy_enhanced level ≡ true
    → is_pki_only l ≡ false
pki_some l level e h = rw (e, not_pki level h) refl

module _ (cfg : Enforcement) (level : VerificationPolicy) (is_level : cfg.level ≡ some level)
    (enhanced : le_int policy_enhanced level ≡ true) (now : ℕ) (s : Peers) where
  valid-Accepted :
      (peer : PeerCertificate) (rest : List PeerCertificate) (v : Validity)
      → check_cert_validity peer now ≡ v
      → (verify_valid cfg peer (peer ∷ rest) s v).0 ≡ ok tt
      → Accepted cfg level now peer rest s
  valid-Accepted peer rest expired e h = absurd (no_ok _ h)
  valid-Accepted peer rest not_yet_valid e h = absurd (no_ok _ h)
  valid-Accepted peer rest valid e h =
      let k = if_false_fst _ _ _ (ok tt) (pki_some cfg.level level is_level enhanced) h in
      elim (Bool-cases (crl_rejects cfg.crl_checker peer (peer ∷ rest))) [
        | inl c ↦ absurd (no_ok _ (if_true_fst _ _ _ (ok tt) c k))
        | inr c ↦
            let (b, d) =
              peer_accepts cfg level is_level peer.identity enhanced s
                (if_false_fst _ _ _ (ok tt) c k) in
            record { dates = e; revocation = c; badge = b; dane = d }
      ]

  -- At a level of BadgeRequired or above, a server lets a client in only if the client's certificate is within its
  -- dates, the check of revocation lists, if there is one, does not reject it, the verification of its badge is a
  -- success, and, at the level of DANE, a TLSA record under the host of its ATI name fits under a valid DNSSEC
  -- chain; a missing record or resolver is not let through there.
  pub connection-Accepted :
      (peer : PeerCertificate) (rest : List PeerCertificate)
      → (verify_connection cfg now (peer ∷ rest) s).0 ≡ ok tt
      → Accepted cfg level now peer rest s
  unfolding verify_connection
  connection-Accepted peer rest h = valid-Accepted peer rest (check_cert_validity peer now) refl h
