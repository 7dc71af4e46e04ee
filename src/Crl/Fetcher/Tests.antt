-- ===== src/Crl/Fetcher/Tests.antt =====
-- A list that is answered a second time from the cache.
use alibaba_ati_golang_sdk.Base.{
  ◌≡◌, refl, ◌⊎◌, Some, [], ◌∷◌, some, ok, err, codes, bytes_eq, ensure,
}
use alibaba_ati_golang_sdk.Base.Map.{lookup, insert}
use alibaba_ati_golang_sdk.Crl.Fetcher.{
  Call, request_failed, download, fetch, run, is_expired, ttl_of, new_fetcher,
}
use alibaba_ati_golang_sdk.Crl.Fetcher.Fresh.{Serves, fetch-Serves}

abbrev answered : Call
answered = record {
  uri = codes "u";
  respond = λ u. ok (7 ∷ []);
  next_update = λ b. some 20;
  lookup_at = 1;
  parse_at = 2;
  store_at = 3;
}

abbrev later : Call
later = record answered { respond = λ u. err request_failed; lookup_at = 12 }

served : (fetch later (run 10 (answered ∷ []))).0 ≡ ok (7 ∷ [])
unfolding fetch run download is_expired ttl_of new_fetcher lookup insert bytes_eq ensure
served = refl

fetch-Serves_example :
    (download later ≡ ok (7 ∷ [])) ⊎ Some (Serves 10 later (7 ∷ [])) (answered ∷ [])
fetch-Serves_example = fetch-Serves 10 (answered ∷ []) later (7 ∷ []) served
