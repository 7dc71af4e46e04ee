-- ===== src/Dane/Claims.antt =====
-- When DANE verifies a certificate and when it rejects one.
use alibaba_ati_golang_sdk.Base.{
  ◌≡◌, refl, ◌∙◌, sym, ap, Bool, true, false, not, List, [], ◌∷◌, Option, none, some, Bytes, ◌==◌,
  ==_iff, if◌then◌else◌, Result, ok, err, bytes_eq, bytes_eq_iff, to_lower, arith, ◌↔◌, ◌⊎◌, inl,
  inr, Result-cases, Bool-cases, Option-cases,
}
use alibaba_ati_golang_sdk.Models.Fqdn.{Fqdn}
use alibaba_ati_golang_sdk.Cert.{CertIdentity, to_hex}
use alibaba_ati_golang_sdk.Failure.{Failure, is_dnssec_failed}
use alibaba_ati_golang_sdk.Dane.{
  TlsaRecord, TlsaLookupResult, is_verified, is_reject, verify_with_lookup, match_records,
  record_hex, compare_records,
}

-- A record for this end entity (usage 3), with the hash of the certificate or of its key.
pub data Fits (full spki : Bytes) (r : TlsaRecord) : Type 0 where
  of_certificate : r.usage ≡ 3 → r.selector ≡ 0 → to_lower r.cert_hash ≡ full → Fits full spki r
  of_key : r.usage ≡ 3 → r.selector ≡ 1 → to_lower r.cert_hash ≡ spki → Fits full spki r

-- One of the records fits.
pub data HasFit (full spki : Bytes) : List TlsaRecord → Type 0 where
  here : {r : TlsaRecord} {rs : List TlsaRecord} → Fits full spki r → HasFit full spki (r ∷ rs)
  there : {r : TlsaRecord} {rs : List TlsaRecord} → HasFit full spki rs → HasFit full spki (r ∷ rs)

abbrev fits : Bytes → Option Bytes → Bool
fits hash none = false
fits hash (some hex) = bytes_eq (to_lower hash) hex

fits_sound :
    (full spki : Bytes) (r : TlsaRecord)
    → fits r.cert_hash (record_hex full spki r) ≡ true
    → Fits full spki r
fits_sound full spki r h = elim (Bool-cases (r.usage == 3)) [
  | inr u ↦
      let k : fits r.cert_hash (
            if not false
            then none
            else if r.selector == 0
            then some full
            else if r.selector == 1
            then some spki
            else none)
          ≡ true =
        rw u at h in
      ground arith
  | inl u ↦ elim (Bool-cases (r.selector == 0)) [
    | inl s ↦
        of_certificate ((==_iff r.usage 3).0 u) ((==_iff r.selector 0).0 s)
          ((bytes_eq_iff _ full).0 (rw (u, s) at h))
    | inr s ↦ elim (Bool-cases (r.selector == 1)) [
      | inl t ↦
          of_key ((==_iff r.usage 3).0 u) ((==_iff r.selector 1).0 t)
            ((bytes_eq_iff _ spki).0 (rw (u, s, t) at h))
      | inr t ↦ let k : false ≡ true = rw (u, s, t) at h in ground arith
    ]
  ]
]

fits_complete :
    (full spki : Bytes) (r : TlsaRecord)
    → Fits full spki r
    → fits r.cert_hash (record_hex full spki r) ≡ true
fits_complete full spki r (of_certificate u s h) =
    rw ((==_iff r.usage 3).1 u, (==_iff r.selector 0).1 s) ((bytes_eq_iff _ full).1 h)
fits_complete full spki r (of_key u s h) =
    rw ((==_iff r.usage 3).1 u, s) ((bytes_eq_iff _ spki).1 h)

pub match_records_sound :
    (full spki : Bytes) (rs : List TlsaRecord) (last hex : Bytes)
    → match_records full spki rs last ≡ ok hex
    → HasFit full spki rs
unfolding match_records
match_records_sound full spki [] last hex h = ground arith
match_records_sound full spki (r ∷ rs) last hex h = elim (Option-cases (record_hex full spki r)) [
  | inl e ↦ there (match_records_sound full spki rs last hex (rw e at h))
  | inr (x, e) ↦ elim (Bool-cases (bytes_eq (to_lower r.cert_hash) x)) [
    | inl b ↦ here (fits_sound full spki r (ap (fits r.cert_hash) e ∙ b))
    | inr b ↦ there (match_records_sound full spki rs x hex (rw (e, b) at h))
  ]
]

pub match_records_complete :
    (full spki : Bytes) (rs : List TlsaRecord) (last x : Bytes)
    → match_records full spki rs last ≡ err x
    → ¬ HasFit full spki rs
unfolding match_records
match_records_complete full spki [] last x h f = elim f [ ]
match_records_complete full spki (r ∷ rs) last x h (here f) =
    elim (Option-cases (record_hex full spki r)) [
      | inl e ↦
          let k : fits r.cert_hash none ≡ true =
            ap (fits r.cert_hash) (sym e) ∙ fits_complete full spki r f in
          ground arith
      | inr (y, e) ↦
          let k : bytes_eq (to_lower r.cert_hash) y ≡ true =
            ap (fits r.cert_hash) (sym e) ∙ fits_complete full spki r f in
          let j : ok y ≡ err x = rw (e, k) at h in ground arith
    ]
match_records_complete full spki (r ∷ rs) last x h (there f) =
    elim (Option-cases (record_hex full spki r)) [
      | inl e ↦ match_records_complete full spki rs last x (rw e at h) f
      | inr (y, e) ↦ elim (Bool-cases (bytes_eq (to_lower r.cert_hash) y)) [
        | inl b ↦ let j : ok y ≡ err x = rw (e, b) at h in ground arith
        | inr b ↦ match_records_complete full spki rs y x (rw (e, b) at h) f
      ]
    ]

abbrev pub certificate_hash : CertIdentity → Bytes
certificate_hash c = to_lower (to_hex c.fingerprint)

abbrev pub key_hash : CertIdentity → Bytes
key_hash c = to_lower (to_hex c.spki_fingerprint)

-- The lookup found records, DNSSEC holds, and one of them fits the certificate.
abbrev pub Positive : Option CertIdentity → Result Failure TlsaLookupResult → Type 0
Positive none lookup = ⊥
Positive (some c) (err e) = ⊥
Positive (some c) (ok r) =
    (r.found ≡ true) × (r.dnssec_valid ≡ true) × HasFit (certificate_hash c) (key_hash c) r.records

-- The lookup found records, DNSSEC holds, and none of them fits; or it ended in an error of failed DNSSEC validation.
abbrev pub Negative : Option CertIdentity → Result Failure TlsaLookupResult → Type 0
Negative none lookup = ⊥
Negative (some c) (err e) = is_dnssec_failed e ≡ true
Negative (some c) (ok r) =
    (r.found ≡ true)
    × (r.dnssec_valid ≡ true)
    × ¬ HasFit (certificate_hash c) (key_hash c) r.records

compared :
    (c : CertIdentity) (rs : List TlsaRecord)
    → ((is_verified (compare_records c rs) ≡ true)
        × (is_reject (compare_records c rs) ≡ false)
        × HasFit (certificate_hash c) (key_hash c) rs)
      ⊎ ((is_verified (compare_records c rs) ≡ false)
          × (is_reject (compare_records c rs) ≡ true)
          × ¬ HasFit (certificate_hash c) (key_hash c) rs)
unfolding is_verified is_reject
compared c rs = elim (Result-cases (match_records (certificate_hash c) (key_hash c) rs [])) [
  | inl (x, e) ↦
      inl (rw e refl, rw e refl, match_records_sound (certificate_hash c) (key_hash c) rs [] x e)
  | inr (x, e) ↦
      inr (rw e refl, rw e refl, match_records_complete (certificate_hash c) (key_hash c) rs [] x e)
]

-- DANE verifies a certificate exactly when the lookup found TLSA records under a valid DNSSEC chain and one
-- of them has usage 3 and the hash of the certificate (selector 0) or of its key (selector 1).
pub verified_iff :
    (fqdn : Fqdn) (cert : Option CertIdentity) (lookup : Result Failure TlsaLookupResult)
    → (is_verified (verify_with_lookup fqdn cert lookup) ≡ true) ↔ Positive cert lookup
unfolding verify_with_lookup is_verified
verified_iff fqdn none lookup = (λ h. ground arith, λ p. elim p [ ])
verified_iff fqdn (some c) (err e) = (λ h. ground arith, λ p. elim p [ ])
verified_iff fqdn (some c) (ok r) = elim (compared c r.records) [
  | inl (v, w, f) ↦ (λ h. (ground arith, ground arith, f), λ p. rw (p.0, p.1) v)
  | inr (v, w, f) ↦ (λ h. ground arith, λ p. absurd (f p.2))
]

-- DANE rejects a certificate exactly when the lookup ended in an error of failed DNSSEC validation, or it found
-- TLSA records that it reports to be under a valid DNSSEC chain, none of which fits the certificate. Records
-- that it reports without a valid chain are no reason to reject.
pub reject_iff :
    (fqdn : Fqdn) (cert : Option CertIdentity) (lookup : Result Failure TlsaLookupResult)
    → (is_reject (verify_with_lookup fqdn cert lookup) ≡ true) ↔ Negative cert lookup
unfolding verify_with_lookup is_reject
reject_iff fqdn none lookup = (λ h. ground arith, λ p. elim p [ ])
reject_iff fqdn (some c) (err e) = (λ h. ground arith, λ p. ground arith)
reject_iff fqdn (some c) (ok r) = elim (compared c r.records) [
  | inl (v, w, f) ↦ (λ h. ground arith, λ p. absurd (p.2 f))
  | inr (v, w, f) ↦ (λ h. (ground arith, ground arith, f), λ p. rw (p.0, p.1) w)
]
