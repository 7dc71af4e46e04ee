-- ===== src/Ocsp.antt =====
-- verify/ocsp.go: the status of a certificate by a stapled or an active answer of OCSP. The parser of answers, which
-- also verifies their signature for the issuer, and HTTP are parameters; times are not negative.
pub mod Claims
mod Tests
use alibaba_ati_golang_sdk.Base.{
  ℕ, List, [], ◌∷◌, Option, none, some, Bytes, ltb, not, is_empty, if◌then◌else◌, Result, ok, err,
  ◌>>=◌, ensure, require,
}

pub data OcspStatus : Type 0 where
  status_good status_revoked status_unknown : OcspStatus

pub data Source : Type 0 where
  stapled active : Source

pub record OcspResult : Type 0 where
  pub status : OcspStatus
  pub produced_at : ℕ
  pub revoked_at : ℕ
  pub source : Source

pub data OcspError : Type 0 where
  no_certificate no_issuer unparsed stale no_request query_failed : OcspError

-- The status of an ocsp.Response: ocsp.Good, ocsp.Revoked, or any other number.
pub data ResponseStatus : Type 0 where
  ocsp_good ocsp_revoked ocsp_other : ResponseStatus

pub record Response : Type 0 where
  pub status : ResponseStatus
  pub produced_at : ℕ
  pub next_update : ℕ
  pub revoked_at : ℕ

-- C is an x509.Certificate. `query` posts a request to a responder and reads the body of an answer with status 200.
pub record Responders (C : Type 0) : Type 0 where
  pub ocsp_server : C → List Bytes
  pub create_request : C → C → Option Bytes
  pub query : Bytes → Bytes → Result OcspError Bytes
  pub parse_response_for_cert : Bytes → C → C → Option Response

-- The switch over the status; a time that is not set is 0.
abbrev pub result_at : Source → Response → ResponseStatus → OcspResult
result_at source r ocsp_good = record {
  status = status_good;
  produced_at = r.produced_at;
  revoked_at = 0;
  source = source;
}
result_at source r ocsp_revoked = record {
  status = status_revoked;
  produced_at = r.produced_at;
  revoked_at = r.revoked_at;
  source = source;
}
result_at source r ocsp_other = record {
  status = status_unknown;
  produced_at = r.produced_at;
  revoked_at = 0;
  source = source;
}

abbrev pub result_of : Source → Response → OcspResult
result_of source r = result_at source r r.status

abbrev pub unanswered : OcspResult
unanswered = record { status = status_unknown; produced_at = 0; revoked_at = 0; source = active }

module _ {C : Type 0} (x : Responders C) where
  unfoldable pub verify_stapled_ocsp : ℕ → Bytes → C → C → Result OcspError OcspResult
  verify_stapled_ocsp now raw cert issuer = do
    r ← require unparsed (x.parse_response_for_cert raw cert issuer)
    _ ← ensure stale (not (ltb r.next_update now))
    ok (result_of stapled r)

  unfoldable pub query_first : Bytes → C → C → Result OcspError OcspResult
  query_first url cert issuer = do
    request ← require no_request (x.create_request cert issuer)
    bytes ← x.query url request
    r ← require unparsed (x.parse_response_for_cert bytes cert issuer)
    ok (result_of active r)

  abbrev pub query_of : List Bytes → C → C → Result OcspError OcspResult
  query_of [] cert issuer = ok unanswered
  query_of (url ∷ urls) cert issuer = query_first url cert issuer

  unfoldable pub active_ocsp_query : C → C → Result OcspError OcspResult
  active_ocsp_query cert issuer = query_of (x.ocsp_server cert) cert issuer

  abbrev pub or_active : C → C → Result OcspError OcspResult → Result OcspError OcspResult
  or_active cert issuer (ok r) = ok r
  or_active cert issuer (err e) = active_ocsp_query cert issuer

  abbrev pub check_certs : ℕ → C → C → Bytes → Result OcspError OcspResult
  check_certs now cert issuer [] = active_ocsp_query cert issuer
  check_certs now cert issuer (b ∷ raw) =
      or_active cert issuer (verify_stapled_ocsp now (b ∷ raw) cert issuer)

  -- CheckOCSP; none is nil.
  unfoldable pub check_ocsp : ℕ → Option C → Option C → Bytes → Result OcspError OcspResult
  check_ocsp now cert issuer raw = do
    c ← require no_certificate cert
    i ← require no_issuer issuer
    check_certs now c i raw
