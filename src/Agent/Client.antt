-- ===== src/Agent/Client.antt =====
-- ati/mtls_client.go: a request of AgentClient and the verification of the server that answered it.
mod Request
unfoldable pub use Request.*
use alibaba_ati_golang_sdk.Base.{
  ℕ, Bool, true, false, not, ◌&&◌, List, [], ◌∷◌, ◌++◌, Option, none, some, Bytes, if◌then◌else◌,
  Result, ok, err, ◌>>=◌, ensure, require, is_empty, cut_prefix, codes, bytes_eq, ltb,
}
use alibaba_ati_golang_sdk.Base.Int.{le_int, lt_int, int_eq}
use alibaba_ati_golang_sdk.Base.Map.{Map, lookup, insert, is_some}
use alibaba_ati_golang_sdk.Base.Split.{parse_uint32}
use alibaba_ati_golang_sdk.Models.Fqdn.{Fqdn, FqdnError, new_fqdn}
use alibaba_ati_golang_sdk.Cert.{CertIdentity, to_hex, covers_host}
use alibaba_ati_golang_sdk.Failure.{Failure}
use alibaba_ati_golang_sdk.Dane.{DaneResolver, DaneOutcome, verify, is_pass, is_verified}
use alibaba_ati_golang_sdk.Outcome.{VerificationOutcome, is_success, to_error}
use alibaba_ati_golang_sdk.Verifier.{Cache}
use alibaba_ati_golang_sdk.Agent.{
  VerificationPolicy, policy_basic, policy_enhanced, policy_advanced, policy_none, PeerCertificate,
  valid_for_client,
}
use alibaba_ati_golang_sdk.Agent.Server.{wants, explicit}

-- The steps on a response, each with the outcome so far, or the error after which the response is closed.
module _ (c : AgentClient) where
  abbrev pub requires : VerificationPolicy → Option VerificationPolicy → Bool
  requires p none = false
  requires p (some level) = le_int p level

  abbrev pub after_badge :
      VerificationOutcome × Cache → TrustOutcome → Cache → Result ClientError TrustOutcome × Cache
  after_badge (b, cache) o _ =
      if is_success b
      then (
        ok (record o {
          badge_outcome = some b;
          badge_verified = true;
          achieved_level = policy_enhanced;
        }),
        cache,
      )
      else if requires policy_enhanced c.trust_level
      then (err (badge_failed (to_error b)), cache)
      else (ok (record o { badge_outcome = some b }), cache)

  abbrev pub badge_at :
      Environment
      → CertIdentity
      → Result FqdnError Fqdn
      → TrustOutcome
      → Cache
      → Result ClientError TrustOutcome × Cache
  badge_at x cert (err e) o cache = (ok o, cache)
  badge_at x cert (ok fqdn) o cache = after_badge (x.badge cache fqdn cert) o cache

  unfoldable pub badge_step :
      Environment
      → Bytes
      → CertIdentity
      → TrustOutcome
      → Cache
      → Result ClientError TrustOutcome × Cache
  badge_step x host cert o cache =
      if wants policy_enhanced c.trust_level
      then badge_at x cert (new_fqdn (resolve_identity_host c host)) o cache
      else (ok o, cache)

  abbrev pub dane_passes : DaneOutcome → Bool
  dane_passes d = if explicit c.trust_level then is_verified d else is_pass d

  abbrev pub after_dane : TrustOutcome → DaneOutcome → Result ClientError TrustOutcome
  after_dane o d =
      if dane_passes d
      then ok (record o {
        dane_details = some d;
        dane_verified = true;
        achieved_level = policy_advanced;
      })
      else if explicit c.trust_level
      then err (dane_failed d.error)
      else ok (record o { dane_details = some d })

  abbrev pub dane_at :
      Url
      → CertIdentity
      → TrustOutcome
      → DaneResolver
      → Result FqdnError Fqdn
      → Result ClientError TrustOutcome
  dane_at url cert o d (err e) = ok o
  dane_at url cert o d (ok fqdn) = after_dane o (verify d fqdn (dane_port url) (some cert))

  abbrev pub dane_with :
      Url → CertIdentity → TrustOutcome → Option DaneResolver → Result ClientError TrustOutcome
  dane_with url cert o none = ok o
  dane_with url cert o (some d) = dane_at url cert o d (new_fqdn url.hostname)

  unfoldable pub dane_step : Url → CertIdentity → TrustOutcome → Result ClientError TrustOutcome
  dane_step url cert o =
      if wants policy_advanced c.trust_level && o.badge_verified
      then dane_with url cert o c.dane_resolver
      else ok o

  unfoldable pub level_step : TrustOutcome → Result ClientError TrustOutcome
  level_step o = do _ ← below o.achieved_level c.trust_level; ok o

  abbrev pub closed_call : ClientError → ClientState → Call
  closed_call e s = record { result = err e; state = s; sent = true; closed = true }

  -- The end of Do: the outcome is stored under the key, if there is one.
  abbrev pub finish :
      Option Bytes → Cache → Map TrustOutcome → Result ClientError TrustOutcome → Call
  finish key cache m (err e) = closed_call e (record { badges = cache; verified = m })
  finish none cache m (ok o) = record {
    result = ok o;
    state = record { badges = cache; verified = m };
    sent = true;
    closed = false;
  }
  finish (some key) cache m (ok o) = record {
    result = ok o;
    state = record { badges = cache; verified = insert key o m };
    sent = true;
    closed = false;
  }

  abbrev pub after_badge_step :
      Url → CertIdentity → Result ClientError TrustOutcome → Result ClientError TrustOutcome
  after_badge_step url cert r = do o ← r; o ← dane_step url cert o; level_step o

  abbrev pub peer_outcome : Bytes → CertIdentity → TrustOutcome → TrustOutcome
  peer_outcome host cert o = record o {
    ca_chain_valid = true;
    san_matches = covers_host cert host;
    peer_ati_name = first_ati_uri cert.uri_sans;
  }

  abbrev pub cache_key : Bytes → CertIdentity → Bytes
  cache_key host cert = host ++ b'|' ∷ to_hex cert.fingerprint

  abbrev pub verify_peer :
      Environment → Url → CertIdentity → TrustOutcome → ClientState → Option TrustOutcome → Call
  verify_peer x url cert o s (some cached) = record {
    result = ok cached;
    state = s;
    sent = true;
    closed = false;
  }
  verify_peer x url cert o s none =
      let b = badge_step x url.hostname cert (peer_outcome url.hostname cert o) s.badges in
      finish (some (cache_key url.hostname cert)) b.1 s.verified (after_badge_step url cert b.0)

  -- From the response on; without a certificate there is no identity and no key.
  unfoldable pub verify_response :
      Environment → Url → TrustOutcome → ClientState → List PeerCertificate → Call
  verify_response x url o s [] = finish none s.badges s.verified (level_step o)
  verify_response x url o s (peer ∷ rest) =
      verify_peer x url peer.identity o s (lookup (cache_key url.hostname peer.identity) s.verified)

  abbrev pub failed_call : ClientError → Bool → ClientState → Call
  failed_call e sent s = record { result = err e; state = s; sent = sent; closed = false }

  abbrev pub responded :
      ClientState → (List PeerCertificate → Call) → Result Failure (List PeerCertificate) → Call
  responded s next (err e) = failed_call (request_failed e) true s
  responded s next (ok peers) = next peers

  -- The request is built and made; `next` goes on with the response.
  abbrev pub send : Environment → ClientState → (List PeerCertificate → Call) → Call
  send x s next =
      if not x.body_marshals
      then failed_call unmarshalled_body false s
      else if not x.request_builds
      then failed_call bad_request false s
      else responded s next x.respond

  abbrev plain : ClientState → List PeerCertificate → Call
  plain s peers = record {
    result = ok (new_outcome c.trust_level);
    state = s;
    sent = true;
    closed = false;
  }

  abbrev pub after_discovery : Environment → Url → ClientState → Bool × Bytes → Call
  after_discovery x url s (found, id) =
      if not found && explicit c.trust_level
      then failed_call not_found false s
      else send x s (
          verify_response x url
            (record (new_outcome c.trust_level) { dns_discovered = found; agent_id = id }) s)

  abbrev pub or_fqdn : Fqdn → Result FqdnError Fqdn → Fqdn
  or_fqdn fqdn (err e) = fqdn
  or_fqdn fqdn (ok f) = f

  abbrev pub with_fqdn : Environment → Url → ClientState → Result FqdnError Fqdn → Call
  with_fqdn x url s (err e) = failed_call (invalid_hostname e) false s
  with_fqdn x url s (ok fqdn) =
      after_discovery x url s
        (check_dns_discovery x (or_fqdn fqdn (new_fqdn (resolve_identity_host c url.hostname))))

  abbrev pub is_policy_none : Option VerificationPolicy → Bool
  is_policy_none none = false
  is_policy_none (some level) = int_eq level policy_none

  abbrev pub with_url : Environment → ClientState → Result ClientError Url → Call
  with_url x s (err e) = failed_call e false s
  with_url x s (ok url) =
      if is_policy_none c.trust_level
      then send x s (plain s)
      else with_fqdn x url s (new_fqdn url.hostname)

  -- The method Do.
  unfoldable pub do_request : Environment → Bytes → ClientState → Call
  do_request x text s = with_url x s (check_url x text)
