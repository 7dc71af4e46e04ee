-- ===== src/Scitt/Supplier/Tests.antt =====
-- A supplier that refreshed once.
use alibaba_ati_golang_sdk.Base.{[], ◌∷◌, some, ok}
use alibaba_ati_golang_sdk.Base.Int.{pos}
use alibaba_ati_golang_sdk.Scitt.Sample.{receipt, token}
use alibaba_ati_golang_sdk.Scitt.Headers.{Base64}
use alibaba_ati_golang_sdk.Scitt.Supplier.{
  HeaderSupplier, Fetch, new_header_supplier, fetch_and_verify, current_headers,
}
use alibaba_ati_golang_sdk.Scitt.Supplier.Invariant.{
  Reach, start, next, refresh_step, Sends, current_headers-Sends,
}

abbrev fetch : Fetch
fetch = record {
  fetched_receipt = ok (1 ∷ []);
  fetched_token = ok (2 ∷ []);
  verify_receipt = λ b. ok receipt;
  verify_status_token = λ b. ok token;
}

abbrev plain : Base64
plain = record { encode = λ s. s; decode = λ s. some s }

abbrev refreshed : HeaderSupplier
refreshed = fetch_and_verify fetch new_header_supplier

refreshed-Reach : Reach refreshed (fetch ∷ [])
refreshed-Reach = next start (refresh_step new_header_supplier fetch)

current_headers-Sends_example :
    Sends plain (fetch ∷ fetch ∷ []) (pos 5) (current_headers plain fetch (pos 5) refreshed).0
current_headers-Sends_example =
    current_headers-Sends plain refreshed (fetch ∷ []) fetch (pos 5) refreshed-Reach
