-- ===== src/Verifier/Reuse.antt =====
-- A verification that the cache answers.
use alibaba_ati_golang_sdk.Base.{
  ℕ, ◌+◌, ◌≤◌, ◌≡◌, refl, ap, ◌∙◌, not, if◌then◌else◌, Option, false, none, some, ok, bytes_eq_refl,
  le→ltb_false,
}
use alibaba_ati_golang_sdk.Models.Fqdn.{Fqdn}
use alibaba_ati_golang_sdk.Models.TlLog.{TlResponse}
use alibaba_ati_golang_sdk.Cert.{CertIdentity}
use alibaba_ati_golang_sdk.BadgeCache.{BadgeCache, MapOrder, get_by_fqdn, insert_badge, new_entry}
use alibaba_ati_golang_sdk.BadgeCache.Claims.{IsValid, HasRoom, get-insert_badge}
use alibaba_ati_golang_sdk.Dane.{DaneResolver, verify}
use alibaba_ati_golang_sdk.Outcome.{
  VerificationOutcome, type_is_verified, type_is_fingerprint_mismatch,
}
use alibaba_ati_golang_sdk.Verifier.{VerifierConfig, Network, Clock, verify_dane, apply_dane}
use alibaba_ati_golang_sdk.Verifier.Server as Server

inserted_fresh :
    (o : MapOrder) (now cleanup_at t : ℕ) (f : Fqdn) (r : TlResponse) (c : BadgeCache)
    → IsValid c
    → HasRoom c
    → cleanup_at ≤ t
    → t ≤ now + c.config.default_ttl
    → get_by_fqdn t f (insert_badge o now cleanup_at f r c) ≡ some (new_entry now c.config r).badge
inserted_fresh o now cleanup_at t f r c v room a b =
    get-insert_badge o now cleanup_at t f f r c v room a
    ∙ rw (bytes_eq_refl f.value, le→ltb_false (now + c.config.default_ttl) t b) refl

-- Both are none, or both answer the lookup of the TLSA records of the host alike.
abbrev pub SameTlsa : Option DaneResolver → Option DaneResolver → Fqdn → Type 0
SameTlsa none none fqdn = Unit
SameTlsa (some d) (some e) fqdn = d.lookup_tlsa fqdn 443 ≡ e.lookup_tlsa fqdn 443
SameTlsa _ _ fqdn = ⊥

same_dane :
    (d e : Option DaneResolver) (fqdn : Fqdn) (cert : CertIdentity) (outcome : VerificationOutcome)
    → SameTlsa d e fqdn
    → verify_dane e fqdn cert outcome ≡ verify_dane d fqdn cert outcome
unfolding verify_dane verify
same_dane none none fqdn cert outcome s = refl
same_dane none (some e) fqdn cert outcome s = absurd s
same_dane (some d) none fqdn cert outcome s = absurd s
same_dane (some d) (some e) fqdn cert outcome s = rw s refl

same_apply :
    (config config2 : VerifierConfig) (fqdn : Fqdn) (cert : CertIdentity)
    (outcome : VerificationOutcome)
    → SameTlsa config.dane_resolver config2.dane_resolver fqdn
    → apply_dane config2 fqdn cert outcome ≡ apply_dane config fqdn cert outcome
unfolding apply_dane
same_apply config config2 fqdn cert outcome s =
    ap (λ x. if not (type_is_verified outcome.outcome_type) then outcome else x)
      (same_dane config.dane_resolver config2.dane_resolver fqdn cert outcome s)

-- A server that was verified by a record from the log is verified again by that record, whatever the badge
-- records in DNS and the log are by then, and with the same outcome, until its time in the cache is over; provided
-- that the cache was valid and had room, the certificate is the same and did not mismatch the record, and the
-- TLSA lookup of DANE, which is made again where DANE is configured, is answered as the first time.
pub verify_twice :
    (o : MapOrder) (config config2 : VerifierConfig) (net net2 : Network) (clock clock2 : Clock)
    (c : BadgeCache) (fqdn : Fqdn) (cert : CertIdentity) (r : TlResponse)
    → IsValid c
    → HasRoom c
    → get_by_fqdn clock.lookup_at fqdn c ≡ none
    → Server.fetch_tl_response config net clock (some c) fqdn ≡ ok r
    → type_is_fingerprint_mismatch (Server.verify_with_tl_response r cert fqdn).outcome_type ≡ false
    → clock.cleanup_at ≤ clock2.lookup_at
    → clock2.lookup_at ≤ clock.insert_at + c.config.default_ttl
    → SameTlsa config.dane_resolver config2.dane_resolver fqdn
    → Server.verify o config2 net2 clock2
        (Server.verify o config net clock (some c) fqdn cert).1
        fqdn
        cert
      ≡ Server.verify o config net clock (some c) fqdn cert
unfolding Server.verify
verify_twice o config config2 net net2 clock clock2 c fqdn cert r v room miss fetch m a b s =
    rw
      (
        miss,
        fetch,
        inserted_fresh o clock.insert_at clock.cleanup_at clock2.lookup_at fqdn r c v room a b,
        m,
        same_apply config config2 fqdn cert (Server.verify_with_tl_response r cert fqdn) s,
      )
      refl
