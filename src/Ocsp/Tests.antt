-- ===== src/Ocsp/Tests.antt =====
-- A stapled answer that is past its next update, and the answer of a responder.
use alibaba_ati_golang_sdk.Base.{
  ℕ, ◌≡◌, refl, [], ◌∷◌, some, Bytes, ◌==◌, if◌then◌else◌, ok, ensure, require, codes,
}
use alibaba_ati_golang_sdk.Ocsp.{
  Response, Responders, ocsp_good, ocsp_revoked, active, result_of, check_ocsp, verify_stapled_ocsp,
  active_ocsp_query, query_first,
}
use alibaba_ati_golang_sdk.Ocsp.Claims.{Answered, check_ocsp-Answered}

abbrev old : Response
old = record { status = ocsp_good; produced_at = 1; next_update = 4; revoked_at = 0 }

abbrev fresh : Response
fresh = record { status = ocsp_revoked; produced_at = 6; next_update = 9; revoked_at = 5 }

abbrev parsed : Bytes → Response
parsed [] = old
parsed (n ∷ bytes) = if n == 1 then old else fresh

abbrev responders : Responders ℕ
responders = record {
  ocsp_server = λ c. codes "u" ∷ [];
  create_request = λ c i. some [];
  query = λ u r. ok (2 ∷ []);
  parse_response_for_cert = λ b c i. some (parsed b);
}

revoked : check_ocsp responders 7 (some 1) (some 2) (1 ∷ []) ≡ ok (result_of active fresh)
unfolding check_ocsp verify_stapled_ocsp active_ocsp_query query_first ensure require
revoked = refl

check_ocsp-Answered_example :
    (c : ℕ) × (i : ℕ) × (some 1 ≡ some c)
    × (some 2 ≡ some i)
    × Answered responders 7 c i (1 ∷ []) (result_of active fresh)
check_ocsp-Answered_example =
    check_ocsp-Answered responders 7 (some 1) (some 2) (1 ∷ []) (result_of active fresh) revoked
