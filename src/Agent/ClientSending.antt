-- ===== src/Agent/ClientSending.antt =====
-- What has to hold before Do sends anything.
use mathlib.Core.Path.{subst}
use mathlib.Core.Bool.{false≢true}
use alibaba_ati_golang_sdk.Base.{
  ◌≡◌, refl, inl, inr, true, false, [], ◌∷◌, some, Bytes, Result, ok, err, is_empty, codes,
  bytes_eq_iff, Bool-cases, require_then, ensure_then, false_of_not, ok_eq, arith,
}
use alibaba_ati_golang_sdk.Base.Int.{int_eq}
use alibaba_ati_golang_sdk.Models.Fqdn.{Fqdn, FqdnError, new_fqdn}
use alibaba_ati_golang_sdk.Failure.{Failure}
use alibaba_ati_golang_sdk.Agent.{VerificationPolicy, policy_none}
use alibaba_ati_golang_sdk.Agent.Client.{
  ClientError, Url, Discovery, Environment, AgentClient, ClientState, check_url,
  check_dns_discovery, discovered, resolve_identity_host, or_fqdn, with_fqdn, with_url, do_request,
  is_policy_none,
}

pub checked_url :
    (x : Environment) (text : Bytes) (url : Url)
    → check_url x text ≡ ok url
    → (x.parse_url text ≡ some url) × (url.scheme ≡ codes "https") × (is_empty url.hostname ≡ false)
unfolding check_url
checked_url x text url h =
    let (u, p, h) = require_then _ _ _ url h in
    let (n, h) = ensure_then _ _ _ url h in
    let (s, h) = ensure_then _ _ _ url h in
    subst
      (λ url.
        (x.parse_url text ≡ some url)
        × (url.scheme ≡ codes "https")
        × (is_empty url.hostname ≡ false))
      (ok_eq u url h) (p, (bytes_eq_iff u.scheme (codes "https")).0 s, false_of_not _ n)

-- The name under which the agent is looked up: the identity host of the client, or the host of the URL where the
-- client has none or one that is no domain name.
pub data IsLookedUp (c : AgentClient) (host : Fqdn) : Fqdn → Type 0 where
  by_host : c.identity_host ≡ [] → IsLookedUp c host host
  by_identity :
      (fqdn : Fqdn)
      → is_empty c.identity_host ≡ false
      → new_fqdn c.identity_host ≡ ok fqdn
      → IsLookedUp c host fqdn
  bad_identity : (e : FqdnError) → new_fqdn c.identity_host ≡ err e → IsLookedUp c host host

-- The URL is one of HTTPS with a domain name, and DNS answers that the agent is found.
pub record Discovered (c : AgentClient) (x : Environment) (text : Bytes) : Type 0 where
  pub url : Url
  pub host : Fqdn
  pub name : Fqdn
  pub answer : Discovery
  pub parsed : x.parse_url text ≡ some url
  pub scheme : url.scheme ≡ codes "https"
  pub is_host : new_fqdn url.hostname ≡ ok host
  pub looked_up : IsLookedUp c host name
  pub answered : x.discover name ≡ ok answer
  pub is_found : answer.found ≡ true

empty_eq : (s : Bytes) → is_empty s ≡ true → s ≡ []
empty_eq [] h = refl
empty_eq (x ∷ s) h = ground arith

found_answer :
    (r : Result Failure Discovery)
    → (discovered r).0 ≡ true
    → (d : Discovery) × (r ≡ ok d) × (d.found ≡ true)
found_answer (err e) h = absurd (false≢true h)
found_answer (ok d) h = elim (Bool-cases d.found) [
  | inl e ↦ (d, refl, e)
  | inr e ↦ absurd (false≢true (rw e at h))
]

module _ (c : AgentClient) (level : VerificationPolicy) (is_level : c.trust_level ≡ some level)
    (x : Environment) (text : Bytes) where
  identity-IsLookedUp :
      (host : Fqdn) (r : Result FqdnError Fqdn)
      → is_empty c.identity_host ≡ false
      → new_fqdn c.identity_host ≡ r
      → IsLookedUp c host (or_fqdn c host r)
  identity-IsLookedUp host (ok fqdn) i e = by_identity fqdn i e
  identity-IsLookedUp host (err f) i e = bad_identity f e

  resolved-IsLookedUp :
      (host : Fqdn) (hostname : Bytes)
      → new_fqdn hostname ≡ ok host
      → IsLookedUp c host (or_fqdn c host (new_fqdn (resolve_identity_host c hostname)))
  unfolding resolve_identity_host
  resolved-IsLookedUp host hostname n = elim (Bool-cases (is_empty c.identity_host)) [
    | inl e ↦ rw (e, n) (by_host (empty_eq c.identity_host e))
    | inr e ↦ rw e (identity-IsLookedUp host (new_fqdn c.identity_host) e refl)
  ]

  fqdn_sent :
      (url : Url) (s : ClientState) (f : Result FqdnError Fqdn)
      → check_url x text ≡ ok url
      → new_fqdn url.hostname ≡ f
      → (with_fqdn c x url s f).sent ≡ true
      → Discovered c x text
  unfolding check_dns_discovery
  fqdn_sent url s (err e) i j h = absurd (false≢true h)
  fqdn_sent url s (ok fqdn) i j h =
      let name = or_fqdn c fqdn (new_fqdn (resolve_identity_host c url.hostname)) in
      elim (Bool-cases (discovered (x.discover name)).0) [
        | inl e ↦
            let (d, a, b) = found_answer (x.discover name) e in
            let (p, q, n) = checked_url x text url i in
            record {
              url = url;
              host = fqdn;
              name = name;
              answer = d;
              parsed = p;
              scheme = q;
              is_host = j;
              looked_up = resolved-IsLookedUp fqdn url.hostname j;
              answered = a;
              is_found = b;
            }
        | inr e ↦ absurd (false≢true (rw (e, is_level) at h))
      ]

  url_sent :
      (s : ClientState) (r : Result ClientError Url)
      → is_policy_none c c.trust_level ≡ false
      → check_url x text ≡ r
      → (with_url c x s r).sent ≡ true
      → Discovered c x text
  url_sent s (err e) n i h = absurd (false≢true h)
  url_sent s (ok url) n i h = fqdn_sent url s (new_fqdn url.hostname) i refl (rw n at h)

  -- With a level other than PolicyNone nothing is sent before the text is parsed as a URL of HTTPS whose host is a
  -- domain name, and the resolver answers for the identity host of the client, or for the host of the URL where
  -- the client has no identity host that is a domain name, that the agent is found.
  pub sent-Discovered :
      (s : ClientState)
      → int_eq level policy_none ≡ false
      → (do_request c x text s).sent ≡ true
      → Discovered c x text
  unfolding do_request
  sent-Discovered s n h = url_sent s (check_url x text) (rw (is_level, n) refl) refl h
