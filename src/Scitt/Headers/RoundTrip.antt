-- ===== src/Scitt/Headers/RoundTrip.antt =====
-- What a sender writes into headers, a receiver reads back.
use alibaba_ati_golang_sdk.Base.{
  ℕ, ◌+◌, ◌*◌, ◌/◌, ◌≤◌, ◌≡◌, refl, true, false, [], ◌∷◌, some, Bytes, is_empty, length, arith, ok,
  ensure, require, bytes_eq, leb, codes,
}
use alibaba_ati_golang_sdk.Base.Map.{lookup, insert}
use alibaba_ati_golang_sdk.Scitt.Headers.{
  Base64, header_receipt, header_status_token, encode_if_non_empty, generate_headers,
  decode_header_value, extract_headers, to_http_headers, decode_unless_empty, raw_of,
}

-- What RFC 4648 says of base64: it can be decoded, is not longer than four characters for three bytes,
-- and is not empty for an input that is not.
pub record IsBase64 (b : Base64) : Type 0 where
  pub decode-encode : (s : Bytes) → b.decode (b.encode s) ≡ some s
  pub length-encode : (s : Bytes) → length (b.encode s) ≤ (length s + 2) / 3 * 4
  pub encode_cons : (x : ℕ) (s : Bytes) → is_empty (b.encode (x ∷ s)) ≡ false

le_size : (n m : ℕ) → n ≤ 1048576 → m ≤ (n + 2) / 3 * 4 → leb m ((1048576 + 2) / 3 * 4) ≡ true
le_size n m h k = ground arith

module _ (b : Base64) (laws : IsBase64 b) where
  decode_value :
      (x : ℕ) (s name : Bytes)
      → length (x ∷ s) ≤ 1048576
      → decode_unless_empty b (b.encode (x ∷ s)) name ≡ ok (x ∷ s)
  unfolding decode_header_value ensure require
  decode_value x s name h =
      rw
        (
          laws.encode_cons x s,
          le_size (length (x ∷ s)) (length (b.encode (x ∷ s))) h (laws.length-encode (x ∷ s)),
          laws.decode-encode (x ∷ s),
        )
        refl

  raw_value : (x : ℕ) (s what : Bytes) → raw_of b (b.encode (x ∷ s)) what ≡ ok (x ∷ s)
  unfolding require
  raw_value x s what = rw (laws.encode_cons x s, laws.decode-encode (x ∷ s)) refl

  -- If base64 is decodable and of the length of RFC 4648, a receipt and a token of at most a mebibyte each, either
  -- of which may be missing, arrive as they were sent in the headers.
  pub extract-generate_headers :
      (receipt token : Bytes)
      → length receipt ≤ 1048576
      → length token ≤ 1048576
      → extract_headers b (generate_headers b receipt token)
        ≡ ok (record { receipt = receipt; status_token = token })
  unfolding extract_headers generate_headers lookup insert bytes_eq
  extract-generate_headers [] [] h k = refl
  extract-generate_headers (x ∷ r) [] h k = rw (decode_value x r header_receipt h) refl
  extract-generate_headers [] (y ∷ t) h k = rw (decode_value y t header_status_token k) refl
  extract-generate_headers (x ∷ r) (y ∷ t) h k =
      rw (decode_value x r header_receipt h, decode_value y t header_status_token k) refl

  -- ToHTTPHeaders gives the headers of the bytes that were encoded.
  pub to_http_headers-encode :
      (receipt token : Bytes)
      → to_http_headers b (record {
        receipt_base64 = encode_if_non_empty b receipt;
        status_token_base64 = encode_if_non_empty b token;
      })
        ≡ ok (generate_headers b receipt token)
  unfolding to_http_headers encode_if_non_empty
  to_http_headers-encode [] [] = refl
  to_http_headers-encode (x ∷ r) [] = rw (raw_value x r (codes "decode receipt base64")) refl
  to_http_headers-encode [] (y ∷ t) = rw (raw_value y t (codes "decode status token base64")) refl
  to_http_headers-encode (x ∷ r) (y ∷ t) =
      rw
        (
          raw_value x r (codes "decode receipt base64"),
          raw_value y t (codes "decode status token base64"),
        )
        refl
