-- ===== src/Scitt/Headers/Tests.antt =====
-- Headers of a receipt and a token, with an encoding that changes nothing.
use alibaba_ati_golang_sdk.Base.{◌≤◌, ◌≡◌, refl, [], ◌∷◌, some, ok, arith}
use alibaba_ati_golang_sdk.Scitt.Headers.{Base64, generate_headers, extract_headers}
use alibaba_ati_golang_sdk.Scitt.Headers.RoundTrip.{IsBase64, extract-generate_headers}

abbrev plain : Base64
plain = record { encode = λ s. s; decode = λ s. some s }

plain-IsBase64 : IsBase64 plain
plain-IsBase64 = record {
  decode-encode = λ s. refl;
  length-encode = λ s. omega arith;
  encode_cons = λ x s. refl;
}

short : 1 ≤ 1048576
short = omega arith

extract-generate_headers_example :
    extract_headers plain (generate_headers plain (1 ∷ []) (2 ∷ []))
    ≡ ok (record { receipt = 1 ∷ []; status_token = 2 ∷ [] })
extract-generate_headers_example =
    extract-generate_headers plain plain-IsBase64 (1 ∷ []) (2 ∷ []) short short
