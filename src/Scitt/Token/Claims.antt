-- ===== src/Scitt/Token/Claims.antt =====
-- verify/scitt/status_token.go: what a verified status token is.
use mathlib.Core.Path.{subst}
use alibaba_ati_golang_sdk.Base.{
  ℕ, ◌+◌, ◌<◌, ◌≤◌, ◌≡◌, refl, false, Bytes, arith, Result, ok, ap, sym, ◌∙◌, bind_ok, ensure_then,
  ok_eq, false_of_not, map_err_ok,
}
use alibaba_ati_golang_sdk.Base.Int.{ℤ, pos, negsuc, lt_int, add_nat64}
use alibaba_ati_golang_sdk.Scitt.Errors.{LookupError}
use alibaba_ati_golang_sdk.Scitt.Types.{VerifiedStatusToken, is_terminal}
use alibaba_ati_golang_sdk.Scitt.KeyStore.{TrustedKey}
use alibaba_ati_golang_sdk.Scitt.Cose.{Cbor, Signing, ParsedCoseSign1, parse_cose_sign1}
use alibaba_ati_golang_sdk.Scitt.Signed.{IsSigned, steps-IsSigned}
use alibaba_ati_golang_sdk.Scitt.Token.{
  decode_status_payload, is_expired, skew_seconds, verify_status_token_at,
}

-- A token that a trusted key signed, whose payload is the decoded one, neither expired nor terminal.
pub record IsVerified {K : Type 0} (c : Cbor) (s : Signing K)
    (keys : Bytes → Result LookupError (TrustedKey K)) (clock_skew now : ℤ) (token : Bytes)
    (t : VerifiedStatusToken) : Type 0 where
  pub message : ParsedCoseSign1
  pub parsed : parse_cose_sign1 c token ≡ ok message
  pub signed : IsSigned s keys message
  pub decoded : decode_status_payload c message.payload ≡ ok t.payload
  pub kid : t.key_id ≡ message.protected.kid
  pub current : is_expired clock_skew now t.payload.exp ≡ false
  pub status : is_terminal t.payload.status ≡ false

module _ {K : Type 0} (c : Cbor) (s : Signing K) (keys : Bytes → Result LookupError (TrustedKey K))
    (clock_skew now : ℤ) where
  -- A status token is accepted only if a trusted key signed it, the issuer that it claims, if any, is the name of that
  -- key, its payload is the decoded one, and it is neither expired nor terminal.
  pub token-IsVerified :
      (token : Bytes) (t : VerifiedStatusToken)
      → verify_status_token_at c s keys clock_skew now token ≡ ok t
      → IsVerified c s keys clock_skew now token t
  unfolding verify_status_token_at
  token-IsVerified token t h =
      let (m, p, h) = bind_ok _ _ t h in
      let (key, k, h) = bind_ok _ _ t h in
      let (u, v, h) = bind_ok _ _ t h in
      let (w, i, h) = bind_ok _ _ t h in
      let (payload, d, h) = bind_ok _ _ t h in
      let (e, h) = ensure_then _ _ _ t h in
      let (f, h) = ensure_then _ _ _ t h in
      subst (IsVerified c s keys clock_skew now token) (ok_eq _ t h) (record {
        message = m;
        parsed = p;
        signed = steps-IsSigned s keys m key m.protected.kid u w (map_err_ok _ _ key k) v i;
        decoded = d;
        kid = refl;
        current = false_of_not _ e;
        status = false_of_not _ f;
      })

skew_seconds_le : (d : ℤ) → skew_seconds d ≤ 600
unfolding skew_seconds
skew_seconds_le (negsuc n) = omega arith
skew_seconds_le (pos n) = ground arith

current_le :
    (exp k now : ℕ)
    → exp + 600 < 9223372036854775808
    → k ≤ 600
    → lt_int (add_nat64 (pos exp) k) (pos now) ≡ false
    → now ≤ exp + 600
current_le exp k now b l h = ground arith

module _ {K : Type 0} (c : Cbor) (s : Signing K)
    (keys : Bytes → Result LookupError (TrustedKey K)) where
  -- Whatever tolerance is configured, negative or huge, a token is accepted at most ten minutes after its exp
  -- claim, if the claim is not negative and more than ten minutes below the largest int64.
  pub now-le-exp :
      (clock_skew : ℤ) (now exp : ℕ) (token : Bytes) (t : VerifiedStatusToken)
      → verify_status_token_at c s keys clock_skew (pos now) token ≡ ok t
      → t.payload.exp ≡ pos exp
      → exp + 600 < 9223372036854775808
      → now ≤ exp + 600
  unfolding is_expired
  now-le-exp clock_skew now exp token t h e b =
      let v = token-IsVerified c s keys clock_skew (pos now) token t h in
      current_le exp (skew_seconds clock_skew) now b (skew_seconds_le clock_skew)
        (ap (λ x. lt_int (add_nat64 x (skew_seconds clock_skew)) (pos now)) (sym e) ∙ v.current)
