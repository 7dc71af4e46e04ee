-- ===== src/Cert/Fingerprint.antt =====
-- Fingerprints: their text, and the renewal window.
use alibaba_ati_golang_sdk.Base.{
  ◌≡◌, refl, true, false, ◌||◌, [], ◌∷◌, ◌++◌, some, Bytes, Result-cases, ok, codes, bytes_eq_iff,
  cut_prefix, length, All, arith, ◌⊎◌, inl, inr, ◌↔◌,
}
use alibaba_ati_golang_sdk.Base.Hex.{encode, decode, decode-encode, IsByte}
use alibaba_ati_golang_sdk.Cert.{
  CertFingerprint, after_prefix, parse_cert_fingerprint, fingerprint_string, matches, matches_any,
  matches_with_renewal, is_blank,
}

-- The 32 bytes of a SHA-256 digest.
pub record IsDigest (f : CertFingerprint) : Type 0 where
  pub bytes : All IsByte f.bytes
  pub size : length f.bytes ≡ 32

after_sha256 : (r : Bytes) → after_prefix (codes "SHA256:" ++ r) ≡ some r
unfolding after_prefix cut_prefix
after_sha256 r = refl

parsed :
    (s hex b : Bytes)
    → after_prefix s ≡ some hex
    → decode hex ≡ some b
    → length b ≡ 32
    → parse_cert_fingerprint s ≡ ok (record { bytes = b })
unfolding parse_cert_fingerprint
parsed s hex b p d l = ground arith

-- Every digest is read back from its text.
pub parse-fingerprint_string :
    (f : CertFingerprint) → IsDigest f → parse_cert_fingerprint (fingerprint_string f) ≡ ok f
unfolding fingerprint_string
parse-fingerprint_string f d =
    parsed _ (encode f.bytes) f.bytes (after_sha256 _) (decode-encode f.bytes d.bytes) d.size

pub matches_iff :
    (f : CertFingerprint) (s : Bytes) → (matches f s ≡ true) ↔ (parse_cert_fingerprint s ≡ ok f)
unfolding matches
matches_iff f s = elim (Result-cases (parse_cert_fingerprint s)) [
  | inl (g, e) ↦ rw e (ground (arith, bytes_eq_iff f.bytes g.bytes))
  | inr (x, e) ↦ rw e (λ h. cc, λ h. cc)
]

empty_fails : (f : CertFingerprint) → matches f [] ≡ false
unfolding matches parse_cert_fingerprint after_prefix cut_prefix
empty_fails f = refl

matches_any_pair :
    (f : CertFingerprint) (a b : Bytes) → matches_any f (a ∷ b ∷ []) ≡ (matches f a || matches f b)
unfolding matches_any
matches_any_pair f [] [] = rw (empty_fails f) refl
matches_any_pair f [] (b ∷ bs) = rw (empty_fails f) (ground arith)
matches_any_pair f (a ∷ as') [] = rw (empty_fails f) (ground arith)
matches_any_pair f (a ∷ as') (b ∷ bs) = ground arith

-- A certificate matches a record exactly when the record's current fingerprint is not blank and the
-- current or the previous one is the text of the certificate's fingerprint: a previous fingerprint
-- never stands in for a missing current one.
pub matches_with_renewal_iff :
    (f : CertFingerprint) (current previous : Bytes)
    → (matches_with_renewal f current previous ≡ true) ↔ (
        (is_blank current ≡ false)
        × ((parse_cert_fingerprint current ≡ ok f) ⊎ (parse_cert_fingerprint previous ≡ ok f)))
unfolding matches_with_renewal
matches_with_renewal_iff f current previous =
    rw (matches_any_pair f current previous)
      (ground (arith, matches_iff f current, matches_iff f previous))
