-- ===== src/Scitt/Supplier/Invariant.antt =====
-- What a supplier holds and sends after any sequence of its operations.
use mathlib.Core.Path.{subst}
use alibaba_ati_golang_sdk.Base.{
  Some, ◌≡◌, refl, inl, inr, Bool, true, false, List, [], ◌∷◌, Option, none, some, Bytes, Result,
  ok, err, bind_ok, map_err_ok, ok_eq, Bool-cases, if◌then◌else◌,
}
use alibaba_ati_golang_sdk.Base.Int.{ℤ, le_int}
use alibaba_ati_golang_sdk.Failure.{Failure}
use alibaba_ati_golang_sdk.Scitt.Types.{VerifiedStatusToken}
use alibaba_ati_golang_sdk.Scitt.Receipt.{VerifiedReceipt}
use alibaba_ati_golang_sdk.Scitt.Headers.{Base64, OutgoingHeaders, encode_if_non_empty}
use alibaba_ati_golang_sdk.Scitt.Supplier.{
  HeaderSupplier, Fetch, Artifacts, artifacts, new_header_supplier, store, fetch_and_verify,
  init_once, auto_refresh, record_error, current_headers, after_init, after_round, headers_of,
}

-- An operation that changes the supplier: CurrentHeaders, RefreshNow, a round of the background loop.
pub data Step : HeaderSupplier → Fetch → HeaderSupplier → Type 0 where
  current_step : (s : HeaderSupplier) (f : Fetch) → Step s f (init_once f s)
  refresh_step : (s : HeaderSupplier) (f : Fetch) → Step s f (fetch_and_verify f s)
  auto_step : (s : HeaderSupplier) (f : Fetch) → Step s f (auto_refresh f s)

-- A state that a new supplier reaches, with the fetches that it may have made, the last first.
pub data Reach : HeaderSupplier → List Fetch → Type 0 where
  start : Reach new_header_supplier []
  next :
      {s t : HeaderSupplier} {fs : List Fetch} {f : Fetch}
      → Reach s fs
      → Step s f t
      → Reach t (f ∷ fs)

-- A fetch in which the receipt and the token were answered and both were verified.
pub record Proves (f : Fetch) (receipt token : Bytes) (exp : ℤ) : Type 0 where
  pub checked_receipt : VerifiedReceipt
  pub checked_token : VerifiedStatusToken
  pub answered_receipt : f.fetched_receipt ≡ ok receipt
  pub answered_token : f.fetched_token ≡ ok token
  pub valid_receipt : f.verify_receipt receipt ≡ ok checked_receipt
  pub valid_token : f.verify_status_token token ≡ ok checked_token
  pub until : checked_token.payload.exp ≡ exp

-- All three fields are nil, or they are the result of one of the fetches.
pub data Holds (fs : List Fetch) : HeaderSupplier → Type 0 where
  nothing :
      (i : Bool) (e : Option Failure)
      → i ≡ false
      → Holds fs (record {
        receipt = none;
        status_token = none;
        token_exp = none;
        initialized = i;
        last_error = e;
      })
  proven :
      (receipt token : Bytes) (exp : ℤ) (i : Bool) (e : Option Failure)
      → Some (λ f. Proves f receipt token exp) fs
      → Holds fs (record {
        receipt = some receipt;
        status_token = some token;
        token_exp = some exp;
        initialized = i;
        last_error = e;
      })

artifacts-Proves :
    (f : Fetch) (a : Artifacts)
    → artifacts f ≡ ok a
    → Proves f a.receipt_bytes a.token_bytes a.verified.payload.exp
unfolding artifacts
artifacts-Proves f a h =
    let (receipt, r, h) = bind_ok _ _ a h in
    let (token, t, h) = bind_ok _ _ a h in
    let (x, v, h) = bind_ok _ _ a h in
    let (y, w, h) = bind_ok _ _ a h in
    subst (λ a. Proves f a.receipt_bytes a.token_bytes a.verified.payload.exp) (ok_eq _ a h)
      (record {
        checked_receipt = x;
        checked_token = y;
        answered_receipt = r;
        answered_token = t;
        valid_receipt = map_err_ok _ _ x v;
        valid_token = map_err_ok _ _ y w;
        until = refl;
      })

-- A fetch that failed changes only the error.
later :
    (f : Fetch) (fs : List Fetch) (s : HeaderSupplier) (e : Option Failure)
    → Holds fs s
    → Holds (f ∷ fs) (record s { last_error = e })
later f fs _ e (nothing i d h) = nothing i e h
later f fs _ e (proven receipt token exp i d h) = proven receipt token exp i e (inr h)

now_proven :
    (f : Fetch) (fs : List Fetch) (a : Artifacts) (i : Bool) (e : Option Failure)
    → artifacts f ≡ ok a
    → Holds (f ∷ fs) (record {
      receipt = some a.receipt_bytes;
      status_token = some a.token_bytes;
      token_exp = some a.verified.payload.exp;
      initialized = i;
      last_error = e;
    })
now_proven f fs a i e h =
    proven a.receipt_bytes a.token_bytes a.verified.payload.exp i e (inl (artifacts-Proves f a h))

module _ (f : Fetch) (fs : List Fetch) (s : HeaderSupplier) (h : Holds fs s) where
  refresh-Holds : (r : Result Failure Artifacts) → artifacts f ≡ r → Holds (f ∷ fs) (store r s)
  unfolding record_error
  refresh-Holds (ok a) e = now_proven f fs a s.initialized none e
  refresh-Holds (err x) e = later f fs s (some x) h

  auto-Holds :
      (r : Result Failure Artifacts) → artifacts f ≡ r → Holds (f ∷ fs) (after_round r (store r s))
  unfolding record_error
  auto-Holds (ok a) e = now_proven f fs a true none e
  auto-Holds (err x) e = later f fs s (some x) h

  init-Holds :
      (i : Bool) (r : Result Failure Artifacts)
      → artifacts f ≡ r
      → Holds (f ∷ fs) (if i then s else after_init r (store r s))
  unfolding record_error
  init-Holds true r e = later f fs s s.last_error h
  init-Holds false (ok a) e = now_proven f fs a true none e
  init-Holds false (err x) e = later f fs s (some x) h

step-Holds :
    (fs : List Fetch) (s : HeaderSupplier) (f : Fetch) (t : HeaderSupplier)
    → Step s f t
    → Holds fs s
    → Holds (f ∷ fs) t
unfolding init_once fetch_and_verify auto_refresh
step-Holds fs _ _ _ (refresh_step s f) h = refresh-Holds f fs s h (artifacts f) refl
step-Holds fs _ _ _ (auto_step s f) h = auto-Holds f fs s h (artifacts f) refl
step-Holds fs _ _ _ (current_step s f) h = init-Holds f fs s h s.initialized (artifacts f) refl

-- However a supplier is used, its fields are nil, and it is not initialized, or they are a receipt and a token
-- that one of its fetches verified, with the expiry of that token.
pub reach-Holds : (s : HeaderSupplier) (fs : List Fetch) → Reach s fs → Holds fs s
unfolding new_header_supplier
reach-Holds _ _ start = nothing false none refl
reach-Holds _ _ (next {s = s} {t = t} {fs = fs} {f = f} r k) =
    step-Holds fs s f t k (reach-Holds s fs r)

-- What is sent at `now`: no token, or a receipt and a token of a fetch before the token's expiry.
pub data Sends (b : Base64) (fs : List Fetch) (now : ℤ) (h : OutgoingHeaders) : Type 0 where
  no_token : h.status_token_base64 ≡ [] → Sends b fs now h
  both :
      (receipt token : Bytes) (exp : ℤ)
      → Some (λ f. Proves f receipt token exp) fs
      → h.receipt_base64 ≡ encode_if_non_empty b receipt
      → h.status_token_base64 ≡ encode_if_non_empty b token
      → le_int exp now ≡ false
      → Sends b fs now h

module _ (b : Base64) where
  holds-Sends :
      (fs : List Fetch) (s : HeaderSupplier) (now : ℤ)
      → Holds fs s
      → Sends b fs now (headers_of b s now)
  unfolding encode_if_non_empty
  holds-Sends fs _ now (nothing i e h) = no_token refl
  holds-Sends fs _ now (proven receipt token exp i e h) = elim (Bool-cases (le_int exp now)) [
    | inl x ↦ no_token (rw x refl)
    | inr x ↦ both receipt token exp h refl (rw x refl) x
  ]

  -- However a supplier was used before, the headers that CurrentHeaders gives hold no token, or they hold a receipt
  -- and a token that one fetch got and verified, and the exp claim of the token is in the future.
  pub current_headers-Sends :
      (s : HeaderSupplier) (fs : List Fetch) (f : Fetch) (now : ℤ)
      → Reach s fs
      → Sends b (f ∷ fs) now (current_headers b f now s).0
  unfolding current_headers
  current_headers-Sends s fs f now r =
      holds-Sends (f ∷ fs) (init_once f s) now
        (reach-Holds (init_once f s) (f ∷ fs) (next r (current_step s f)))
