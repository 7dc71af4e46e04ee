-- ===== src/Scitt/Supplier.antt =====
-- verify/scitt/supplier.go: the supplier of the headers that an agent sends. One operation is one step; times are
-- in seconds, as Unix gives them. The waiting of the background loop is not modelled, only its rounds.
pub mod Invariant
mod Tests
use alibaba_ati_golang_sdk.Base.{
  Bool, true, false, not, ◌&&◌, [], Option, none, some, Bytes, if◌then◌else◌, Result, ok, err,
  ◌>>=◌, map_err,
}
use alibaba_ati_golang_sdk.Base.Int.{ℤ, le_int}
use alibaba_ati_golang_sdk.Failure.{Failure, scitt}
use alibaba_ati_golang_sdk.Scitt.Errors.{ScittError}
use alibaba_ati_golang_sdk.Scitt.Types.{VerifiedStatusToken}
use alibaba_ati_golang_sdk.Scitt.Receipt.{VerifiedReceipt}
use alibaba_ati_golang_sdk.Scitt.Headers.{Base64, OutgoingHeaders, encode_if_non_empty}

-- The fields that change; none is nil.
pub record HeaderSupplier : Type 0 where
  pub receipt : Option Bytes
  pub status_token : Option Bytes
  pub token_exp : Option ℤ
  pub initialized : Bool
  pub last_error : Option Failure

unfoldable pub new_header_supplier : HeaderSupplier
new_header_supplier = record {
  receipt = none;
  status_token = none;
  token_exp = none;
  initialized = false;
  last_error = none;
}

-- What the client answers to the two requests of a fetch, and the two verifications with the keys, the
-- tolerance and the time of that fetch.
pub record Fetch : Type 0 where
  pub fetched_receipt : Result Failure Bytes
  pub fetched_token : Result Failure Bytes
  pub verify_receipt : Bytes → Result ScittError VerifiedReceipt
  pub verify_status_token : Bytes → Result ScittError VerifiedStatusToken

-- The receipt and the token of a fetch in which all went well.
pub record Artifacts : Type 0 where
  pub receipt_bytes : Bytes
  pub token_bytes : Bytes
  pub verified : VerifiedStatusToken

unfoldable pub artifacts : Fetch → Result Failure Artifacts
artifacts f = do
  receipt ← f.fetched_receipt
  token ← f.fetched_token
  _ ← map_err scitt (f.verify_receipt receipt)
  verified ← map_err scitt (f.verify_status_token token)
  ok (record { receipt_bytes = receipt; token_bytes = token; verified = verified })

unfoldable pub record_error : Failure → HeaderSupplier → HeaderSupplier
record_error e s = record s { last_error = some e }

abbrev pub store : Result Failure Artifacts → HeaderSupplier → HeaderSupplier
store (err e) s = record_error e s
store (ok a) s = record s {
  receipt = some a.receipt_bytes;
  status_token = some a.token_bytes;
  token_exp = some a.verified.payload.exp;
  last_error = none;
}

-- The supplier after fetchAndVerify; its error is that of `artifacts`.
unfoldable pub fetch_and_verify : Fetch → HeaderSupplier → HeaderSupplier
fetch_and_verify f s = store (artifacts f) s

abbrev pub after_init : Result Failure Artifacts → HeaderSupplier → HeaderSupplier
after_init (err e) s = record_error e s
after_init (ok a) s = record s { initialized = true; last_error = none }

unfoldable pub init_once : Fetch → HeaderSupplier → HeaderSupplier
init_once f s = if s.initialized then s else after_init (artifacts f) (fetch_and_verify f s)

abbrev pub after_round : Result Failure Artifacts → HeaderSupplier → HeaderSupplier
after_round (err e) s = s
after_round (ok a) s = record s { initialized = true }

-- A round of autoRefreshLoop.
unfoldable pub auto_refresh : Fetch → HeaderSupplier → HeaderSupplier
auto_refresh f s = after_round (artifacts f) (fetch_and_verify f s)

unfoldable pub healthy : HeaderSupplier → Bool
healthy s = s.initialized && elim s.last_error [ none ↦ true | some e ↦ false ]

-- token != nil && tokenExp != nil && now >= *tokenExp
abbrev pub fresh_token : Option Bytes → Option ℤ → ℤ → Option Bytes
fresh_token none exp now = none
fresh_token (some token) none now = some token
fresh_token (some token) (some exp) now = if le_int exp now then none else some token

abbrev pub bytes_of : Option Bytes → Bytes
bytes_of none = []
bytes_of (some bytes) = bytes

module _ (b : Base64) where
  abbrev pub headers_of : HeaderSupplier → ℤ → OutgoingHeaders
  headers_of s now = record {
    receipt_base64 = encode_if_non_empty b (bytes_of s.receipt);
    status_token_base64 =
        encode_if_non_empty b (bytes_of (fresh_token s.status_token s.token_exp now));
  }

  -- CurrentHeaders, with the answers of the fetch that it makes if it is the first.
  unfoldable pub current_headers : Fetch → ℤ → HeaderSupplier → OutgoingHeaders × HeaderSupplier
  current_headers f now s = let s' = init_once f s in (headers_of s' now, s')
