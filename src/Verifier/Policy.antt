-- ===== src/Verifier/Policy.antt =====
-- What the failure policy makes of a lookup that failed.
use alibaba_ati_golang_sdk.Base.{
  ℕ, ◌≡◌, refl, ◌∙◌, sym, ap, true, false, Option, none, some, Bytes, Result, ok, err, err_eq,
  arith, Bool-cases, inl, inr, ◌⊎◌,
}
use alibaba_ati_golang_sdk.Base.Map.{is_some}
use mathlib.Core.Path.{subst}
use alibaba_ati_golang_sdk.Models.Version.{Version}
use alibaba_ati_golang_sdk.Models.Fqdn.{Fqdn}
use alibaba_ati_golang_sdk.Models.TlLog.{TlResponse}
use alibaba_ati_golang_sdk.Failure.{Failure, is_record_not_found}
use alibaba_ati_golang_sdk.Dns.{AtiBadgeRecord}
use alibaba_ati_golang_sdk.BadgeCache.{CachedBadge}
use alibaba_ati_golang_sdk.Outcome.{
  VerificationOutcome, type_is_verified, type_is_fail_open, to_error, fail_open,
  new_dns_error_outcome, new_tlog_error_outcome, new_not_ati_agent_outcome,
}
use alibaba_ati_golang_sdk.Verifier.{
  VerifierConfig, FailurePolicy, fail_closed, fail_open_with_cache, fail_open_always, Network,
  Clock, Cache, apply_failure_policy, apply_fail_open_with_cache, policy_outcome, stale_outcome,
  fetch_after_dns, fetched, rewrite_tl_host,
}
use alibaba_ati_golang_sdk.Verifier.Server as Server
use alibaba_ati_golang_sdk.Verifier.Client as Client

-- An outcome that reports an error.
pub record IsPlain (o : VerificationOutcome) : Type 0 where
  pub unverified : type_is_verified o.outcome_type ≡ false
  pub closed : type_is_fail_open o.outcome_type ≡ false
  pub reports : is_some (to_error o) ≡ true

-- The policy lets errors pass.
abbrev pub LetsPass : FailurePolicy → Type 0
LetsPass fail_closed = ⊥
LetsPass fail_open_with_cache = Unit
LetsPass fail_open_always = Unit

-- DNS failed, otherwise than by having no record; or the log did.
abbrev pub NetworkFailed :
    VerifierConfig → Network → Result Failure (Option AtiBadgeRecord) → Type 0
NetworkFailed config net (err e) = is_record_not_found e ≡ false
NetworkFailed config net (ok none) = ⊥
NetworkFailed config net (ok (some r)) =
    (e : Failure) × (net.fetch_tl_response (rewrite_tl_host config net r.url) ≡ err e)

stale_cases :
    (o : VerificationOutcome) (b : Option CachedBadge)
    → (stale_outcome o b ≡ o) ⊎ ((stale_outcome o b).outcome_type ≡ fail_open)
stale_cases o none = inl refl
stale_cases o (some b) = inr refl

cache_cases :
    (config : VerifierConfig) (now : ℕ) (cache : Cache) (fqdn : Fqdn) (v : Option Version)
    (o : VerificationOutcome)
    → (apply_fail_open_with_cache config now cache fqdn v o ≡ o)
      ⊎ ((apply_fail_open_with_cache config now cache fqdn v o).outcome_type ≡ fail_open)
unfolding apply_fail_open_with_cache
cache_cases config now none fqdn v o = inl refl
cache_cases config now (some c) fqdn none o = stale_cases o _
cache_cases config now (some c) fqdn (some v) o = stale_cases o _

policy_cases :
    (p : FailurePolicy) (config : VerifierConfig) (now : ℕ) (cache : Cache) (fqdn : Fqdn)
    (v : Option Version) (o : VerificationOutcome)
    → (policy_outcome p config now cache fqdn v o ≡ o)
      ⊎ (((policy_outcome p config now cache fqdn v o).outcome_type ≡ fail_open) × LetsPass p)
policy_cases fail_closed config now cache fqdn v o = inl refl
policy_cases fail_open_always config now cache fqdn v o = inr (refl, tt)
policy_cases fail_open_with_cache config now cache fqdn v o =
    elim (cache_cases config now cache fqdn v o) [ inl e ↦ inl e | inr e ↦ inr (e, tt) ]

-- What a failed lookup may give.
abbrev pub FailedLookup :
    VerifierConfig → Network → Result Failure (Option AtiBadgeRecord) → VerificationOutcome → Type 0
FailedLookup config net answer o =
    IsPlain o
    ⊎ ((o.outcome_type ≡ fail_open)
        × LetsPass config.failure_policy
        × NetworkFailed config net answer)

absent-IsPlain : (host : Bytes) → IsPlain (new_not_ati_agent_outcome host)
unfolding to_error
absent-IsPlain host = record { unverified = refl; closed = refl; reports = refl }

error-IsPlain :
    (e : Failure) → IsPlain (new_dns_error_outcome e) × IsPlain (new_tlog_error_outcome e)
unfolding to_error
error-IsPlain e = (
  record { unverified = refl; closed = refl; reports = refl },
  record { unverified = refl; closed = refl; reports = refl },
)

module _ (config : VerifierConfig) (net : Network) (now : ℕ) (cache : Cache) (fqdn : Fqdn)
    (v : Option Version) where
  abbrev policy : VerificationOutcome → VerificationOutcome
  policy = apply_failure_policy config now cache fqdn v

  policy_failed :
      (answer : Result Failure (Option AtiBadgeRecord)) (o p : VerificationOutcome)
      → IsPlain o
      → NetworkFailed config net answer
      → policy o ≡ p
      → FailedLookup config net answer p
  unfolding apply_failure_policy
  policy_failed answer o p a n e =
      elim (policy_cases config.failure_policy config now cache fqdn v o) [
        | inl c ↦ inl (subst IsPlain (sym c ∙ e) a)
        | inr (c, k) ↦ inr (subst (λ x. x.outcome_type ≡ fail_open) e c, k, n)
      ]

  fetched_failed :
      (r : AtiBadgeRecord) (f : Result Failure TlResponse) (o : VerificationOutcome)
      → net.fetch_tl_response (rewrite_tl_host config net r.url) ≡ f
      → fetched policy f ≡ err o
      → FailedLookup config net (ok (some r)) o
  fetched_failed r (ok x) o e h = ground arith
  fetched_failed r (err x) o e h =
      policy_failed (ok (some r)) (new_tlog_error_outcome x) o (error-IsPlain x).1 (x, e)
        (err_eq _ o h)

  fetch_failed :
      (answer : Result Failure (Option AtiBadgeRecord)) (o : VerificationOutcome)
      → fetch_after_dns config net policy fqdn answer ≡ err o
      → FailedLookup config net answer o
  unfolding fetch_after_dns
  fetch_failed (ok none) o h = inl (subst IsPlain (err_eq _ o h) (absent-IsPlain fqdn.value))
  fetch_failed (ok (some r)) o h =
      fetched_failed r (net.fetch_tl_response (rewrite_tl_host config net r.url)) o refl h
  fetch_failed (err e) o h = elim (Bool-cases (is_record_not_found e)) [
    | inl b ↦ inl (subst IsPlain (err_eq _ o (rw b at h)) (absent-IsPlain fqdn.value))
    | inr b ↦
        policy_failed (err e) (new_dns_error_outcome e) o (error-IsPlain e).0 b
          (err_eq _ o (rw b at h))
  ]

pub server_fetch_failed :
    (config : VerifierConfig) (net : Network) (clock : Clock) (cache : Cache) (fqdn : Fqdn)
    (o : VerificationOutcome)
    → Server.fetch_tl_response config net clock cache fqdn ≡ err o
    → FailedLookup config net (net.find_preferred_badge fqdn) o
unfolding Server.fetch_tl_response
server_fetch_failed config net clock cache fqdn o h =
    fetch_failed config net clock.stale_at cache fqdn none (net.find_preferred_badge fqdn) o h

pub client_fetch_failed :
    (config : VerifierConfig) (net : Network) (clock : Clock) (cache : Cache) (fqdn : Fqdn)
    (v : Version) (o : VerificationOutcome)
    → Client.fetch_tl_response config net clock cache fqdn v ≡ err o
    → FailedLookup config net (net.find_badge_for_version fqdn v) o
unfolding Client.fetch_tl_response
client_fetch_failed config net clock cache fqdn v o h =
    fetch_failed config net clock.stale_at cache fqdn (some v) (net.find_badge_for_version fqdn v) o
      h

failed-unverified :
    (config : VerifierConfig) (net : Network) (answer : Result Failure (Option AtiBadgeRecord))
    (o : VerificationOutcome)
    → FailedLookup config net answer o
    → type_is_verified o.outcome_type ≡ false
failed-unverified config net answer o (inl p) = p.unverified
failed-unverified config net answer o (inr (e, k, n)) = ap type_is_verified e

pub server_fetch_plain :
    (config : VerifierConfig) (net : Network) (clock : Clock) (cache : Cache) (fqdn : Fqdn)
    (o : VerificationOutcome)
    → Server.fetch_tl_response config net clock cache fqdn ≡ err o
    → type_is_verified o.outcome_type ≡ false
server_fetch_plain config net clock cache fqdn o h =
    failed-unverified config net _ o (server_fetch_failed config net clock cache fqdn o h)

pub client_fetch_plain :
    (config : VerifierConfig) (net : Network) (clock : Clock) (cache : Cache) (fqdn : Fqdn)
    (v : Version) (o : VerificationOutcome)
    → Client.fetch_tl_response config net clock cache fqdn v ≡ err o
    → type_is_verified o.outcome_type ≡ false
client_fetch_plain config net clock cache fqdn v o h =
    failed-unverified config net _ o (client_fetch_failed config net clock cache fqdn v o h)
