-- ===== src/Ocsp/Claims.antt =====
-- Where an answer of OCSP comes from.
use mathlib.Core.Path.{subst}
use alibaba_ati_golang_sdk.Base.{
  ℕ, ◌≤◌, ◌≡◌, refl, ◌∙◌, List, [], ◌∷◌, Option, some, Bytes, ltb, not, true, Result, ok, err,
  bind_ok, require_then, ensure_then, ok_eq, arith,
}
use alibaba_ati_golang_sdk.Ocsp.{
  status_good, status_revoked, status_unknown, ResponseStatus, ocsp_good, ocsp_revoked, ocsp_other,
  Source, result_at, OcspResult, OcspError, Response, Responders, stapled, active, result_of,
  unanswered, verify_stapled_ocsp, query_first, query_of, active_ocsp_query, or_active, check_certs,
  check_ocsp,
}

-- The result gives the status of the response, and its time of revocation if it is revoked.
pub data Reports (source : Source) (r : Response) : OcspResult → Type 0 where
  reports_good :
      r.status ≡ ocsp_good
      → Reports source r (record {
        status = status_good;
        produced_at = r.produced_at;
        revoked_at = 0;
        source = source;
      })
  reports_revoked :
      r.status ≡ ocsp_revoked
      → Reports source r (record {
        status = status_revoked;
        produced_at = r.produced_at;
        revoked_at = r.revoked_at;
        source = source;
      })
  reports_unknown :
      r.status ≡ ocsp_other
      → Reports source r (record {
        status = status_unknown;
        produced_at = r.produced_at;
        revoked_at = 0;
        source = source;
      })

result-Reports :
    (source : Source) (r : Response) (s : ResponseStatus)
    → r.status ≡ s
    → Reports source r (result_at source r s)
result-Reports source r ocsp_good e = reports_good e
result-Reports source r ocsp_revoked e = reports_revoked e
result-Reports source r ocsp_other e = reports_unknown e

-- Nobody was asked, or a response was parsed for the certificate and its issuer: the stapled one, which is not past
-- its next update, or the answer to a request for the certificate, of the first responder that it names.
pub data Answered {C : Type 0} (x : Responders C) (now : ℕ) (cert issuer : C) (raw : Bytes)
    (result : OcspResult) : Type 0 where
  not_asked :
      x.ocsp_server cert ≡ []
      → result.status ≡ status_unknown
      → Answered x now cert issuer raw result
  by_stapled :
      (r : Response)
      → x.parse_response_for_cert raw cert issuer ≡ some r
      → now ≤ r.next_update
      → Reports stapled r result
      → Answered x now cert issuer raw result
  by_query :
      (url request bytes : Bytes) (urls : List Bytes) (r : Response)
      → x.ocsp_server cert ≡ url ∷ urls
      → x.create_request cert issuer ≡ some request
      → x.query url request ≡ ok bytes
      → x.parse_response_for_cert bytes cert issuer ≡ some r
      → Reports active r result
      → Answered x now cert issuer raw result

not_stale : (next now : ℕ) → not (ltb next now) ≡ true → now ≤ next
not_stale next now h = ground arith

module _ {C : Type 0} (x : Responders C) (now : ℕ) where
  module _ (cert issuer : C) (raw : Bytes) where
    abbrev IsAnswered : OcspResult → Type 0
    IsAnswered = Answered x now cert issuer raw

    stapled-Answered :
        (r : OcspResult) → verify_stapled_ocsp x now raw cert issuer ≡ ok r → IsAnswered r
    unfolding verify_stapled_ocsp
    stapled-Answered r h =
        let (q, p, h) = require_then _ _ _ r h in
        let (n, h) = ensure_then _ _ _ r h in
        subst IsAnswered (ok_eq (result_of stapled q) r h)
          (by_stapled q p (not_stale q.next_update now n) (result-Reports stapled q q.status refl))

    query-Answered :
        (servers : List Bytes) (r : OcspResult)
        → x.ocsp_server cert ≡ servers
        → query_of x servers cert issuer ≡ ok r
        → IsAnswered r
    unfolding query_first
    query-Answered [] r s h = subst IsAnswered (ok_eq unanswered r h) (not_asked s refl)
    query-Answered (url ∷ urls) r s h =
        let (request, q, h) = require_then _ _ _ r h in
        let (bytes, a, h) = bind_ok _ _ r h in
        let (p, e, h) = require_then _ _ _ r h in
        subst IsAnswered (ok_eq (result_of active p) r h)
          (by_query url request bytes urls p s q a e (result-Reports active p p.status refl))

    active-Answered : (r : OcspResult) → active_ocsp_query x cert issuer ≡ ok r → IsAnswered r
    unfolding active_ocsp_query
    active-Answered r h = query-Answered (x.ocsp_server cert) r refl h

    either-Answered :
        (s : Result OcspError OcspResult) (r : OcspResult)
        → verify_stapled_ocsp x now raw cert issuer ≡ s
        → or_active x cert issuer s ≡ ok r
        → IsAnswered r
    either-Answered (ok q) r e h = stapled-Answered r (e ∙ h)
    either-Answered (err q) r e h = active-Answered r h

  certs-Answered :
      (cert issuer : C) (raw : Bytes) (r : OcspResult)
      → check_certs x now cert issuer raw ≡ ok r
      → Answered x now cert issuer raw r
  certs-Answered cert issuer [] r h = active-Answered cert issuer [] r h
  certs-Answered cert issuer (b ∷ raw) r h =
      either-Answered cert issuer (b ∷ raw) (verify_stapled_ocsp x now (b ∷ raw) cert issuer) r refl
        h

  -- The status that CheckOCSP gives, good, revoked or unknown, with the time of the revocation, is that of a response
  -- for this certificate and issuer, a stapled one only until its next update, or it is unknown where the certificate
  -- names no responder.
  pub check_ocsp-Answered :
      (cert issuer : Option C) (raw : Bytes) (r : OcspResult)
      → check_ocsp x now cert issuer raw ≡ ok r
      → (c : C) × (i : C) × (cert ≡ some c) × (issuer ≡ some i) × Answered x now c i raw r
  unfolding check_ocsp
  check_ocsp-Answered cert issuer raw r h =
      let (c, p, h) = require_then _ _ _ r h in
      let (i, q, h) = require_then _ _ _ r h in (c, i, p, q, certs-Answered c i raw r h)
