-- ===== src/Crl/Tests.antt =====
-- A leaf, its issuer and a list.
use alibaba_ati_golang_sdk.Base.{◌≡◌, refl, ◌⊎◌, true, [], ◌∷◌, some, none, codes, All, cut_prefix}
use alibaba_ati_golang_sdk.Crl.{
  Certificate, Authority, should_reject, is_http_uri, first_uri, resolve_cdp, find_issuing_ca,
  is_revoked, validate_not_revoked, check,
}
use alibaba_ati_golang_sdk.Crl.Claims.{HasNoPoint, Cleared, LetsThrough, check_fail_closed}

abbrev leaf : Certificate
leaf = record {
  address = 1;
  crl_distribution_points = codes "http://ca/crl" ∷ [];
  serial_number = 7;
}

abbrev issuer : Certificate
issuer = record { address = 2; crl_distribution_points = []; serial_number = 1 }

abbrev authority : Authority
authority = record {
  check_signature_from = λ a b. true;
  parse_revocation_list = λ b. some (record { revoked_serials = 5 ∷ 6 ∷ []; contents = b });
  list_signed_by = λ l c. true;
  fetch = λ uri. some uri;
}

passes : LetsThrough (check authority leaf (leaf ∷ issuer ∷ []))
unfolding should_reject check resolve_cdp first_uri is_http_uri find_issuing_ca validate_not_revoked
    is_revoked cut_prefix
passes = refl

rejects :
    should_reject (check (record authority { fetch = λ uri. none }) leaf (leaf ∷ issuer ∷ []))
    ≡ true
unfolding should_reject check resolve_cdp first_uri is_http_uri find_issuing_ca validate_not_revoked
    is_revoked cut_prefix
rejects = refl

check_fail_closed_example : All HasNoPoint (leaf ∷ issuer ∷ []) ⊎ Cleared authority leaf
check_fail_closed_example = check_fail_closed authority leaf (leaf ∷ issuer ∷ []) passes
