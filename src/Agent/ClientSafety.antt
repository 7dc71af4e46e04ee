-- ===== src/Agent/ClientSafety.antt =====
-- What the steps on a response guarantee.
use mathlib.Core.Path.{subst}
use mathlib.Core.Bool.{false≢true}
use alibaba_ati_golang_sdk.Base.{
  ◌≡◌, refl, sym, ap, ◌∙◌, ◌⊎◌, inl, inr, Bool, true, false, ◌&&◌, [], Option, none, some, Result,
  ok, err, bind_ok, Bool-cases, if_true, if_false, if_true_fst, if_false_fst, ok_eq, arith,
}
use alibaba_ati_golang_sdk.Base.Int.{ℤ, pos, negsuc, le_int, lt_int}
use alibaba_ati_golang_sdk.Models.Fqdn.{Fqdn, FqdnError, new_fqdn}
use alibaba_ati_golang_sdk.Cert.{CertIdentity}
use alibaba_ati_golang_sdk.Dane.{DaneResolver, verify, is_verified}
use alibaba_ati_golang_sdk.Outcome.{VerificationOutcome, is_success}
use alibaba_ati_golang_sdk.Verifier.{Cache}
use alibaba_ati_golang_sdk.Agent.{
  VerificationPolicy, policy_basic, policy_enhanced, policy_advanced,
}
use alibaba_ati_golang_sdk.Dane.{verify_with_lookup}
use alibaba_ati_golang_sdk.Dane.Claims.{verified_iff}
use alibaba_ati_golang_sdk.Agent.ClientMeets.{
  IsIdentity, resolved-IsIdentity, dane_port-IsPort, BadgeSucceeded, DaneVerified, Meets, PeersMeet,
}
use alibaba_ati_golang_sdk.Agent.Server.{wants}
use alibaba_ati_golang_sdk.Agent.Client.{
  ClientError, TrustOutcome, Url, Environment, AgentClient, resolve_identity_host, after_badge,
  badge_at, badge_step, after_dane, dane_at, dane_with, dane_step, below, level_step,
  after_badge_step, dane_port, dane_failed,
}

not_below_enhanced : (level : ℤ) → le_int (pos 1) level ≡ true → lt_int (pos 0) level ≡ false → ⊥
not_below_enhanced (pos n) h k = ground arith
not_below_enhanced (negsuc n) h k = ground arith

not_below_advanced :
    (a level : ℤ)
    → (a ≡ pos 0) ⊎ (a ≡ pos 1)
    → le_int (pos 2) level ≡ true
    → lt_int a level ≡ false
    → ⊥
not_below_advanced a (pos n) (inl e) h k = ground arith
not_below_advanced a (pos n) (inr e) h k = ground arith
not_below_advanced a (negsuc n) e h k = ground arith

and_right : (a b : Bool) → (a && b) ≡ true → b ≡ true
and_right a b h = ground arith

pub no_error :
    (e : ClientError) (o : TrustOutcome) → Path (Result ClientError TrustOutcome) (err e) (ok o) → ⊥
no_error e o h = ground arith

not_below :
    {level : VerificationPolicy} (a : VerificationPolicy) (l : Option VerificationPolicy)
    {u : Unit {0}}
    → l ≡ some level
    → below a l ≡ ok u
    → lt_int a level ≡ false
not_below a none e h = ground arith
not_below a (some l) e h = ground arith

-- Without a certificate the outcome stays at the first level.
pub step-PeersMeet :
    (c : AgentClient) (Gives : Fqdn → CertIdentity → VerificationOutcome → Type 0)
    (level : VerificationPolicy) (url : Url) (o p : TrustOutcome)
    → c.trust_level ≡ some level
    → o.achieved_level ≡ policy_basic
    → level_step c o ≡ ok p
    → PeersMeet c Gives level url [] p
unfolding level_step
step-PeersMeet c Gives level url o p is_level i h =
    let (u, b, h) = bind_ok _ _ p h in
    let l = not_below o.achieved_level c.trust_level is_level b in
    subst (PeersMeet c Gives level url []) (ok_eq o p h) (
      l,
      elim (Bool-cases (le_int policy_enhanced level)) [
        | inl e ↦ absurd (not_below_enhanced level e (ap (λ x. lt_int x level) (sym i) ∙ l))
        | inr e ↦ e
      ],
    )

module _ (c : AgentClient) (Gives : Fqdn → CertIdentity → VerificationOutcome → Type 0)
    (level : VerificationPolicy) (is_level : c.trust_level ≡ some level) (url : Url)
    (cert : CertIdentity) where
  abbrev Succeeded : TrustOutcome → Type 0
  Succeeded = BadgeSucceeded c Gives level url cert

  -- What an outcome says after the badge, and after DANE.
  abbrev pub AfterBadge : TrustOutcome → Type 0
  AfterBadge o =
      ((o.achieved_level ≡ policy_basic) × (o.badge_verified ≡ false))
      ⊎ ((o.achieved_level ≡ policy_enhanced) × Succeeded o)

  abbrev AfterDane : TrustOutcome → Type 0
  AfterDane o = AfterBadge o ⊎ (Succeeded o × DaneVerified c Gives level url cert o)

  meets :
      (o : TrustOutcome)
      → AfterDane o
      → lt_int o.achieved_level level ≡ false
      → Meets c Gives level url cert o
  meets o (inr (b, d)) h = record { reached = h; badge = λ _. b; dane = λ _. d }
  meets o (inl (inr (a, b))) h = record {
    reached = h;
    badge = λ _. b;
    dane = λ k. absurd (not_below_advanced o.achieved_level level (inr a) k h);
  }
  meets o (inl (inl (a, b))) h = record {
    reached = h;
    badge = λ k. absurd (not_below_enhanced level k (ap (λ x. lt_int x level) (sym a) ∙ h));
    dane = λ k. absurd (not_below_advanced o.achieved_level level (inl a) k h);
  }

  badge-AfterBadge :
      (fqdn : Fqdn) (b : VerificationOutcome × Cache) (o p : TrustOutcome) (cache : Cache)
      → IsIdentity c url fqdn
      → Gives fqdn cert b.0
      → o.achieved_level ≡ policy_basic
      → o.badge_verified ≡ false
      → (after_badge c b o cache).0 ≡ ok p
      → AfterBadge p
  badge-AfterBadge fqdn (b, k) o p cache n g i j h = elim (Bool-cases (is_success b)) [
    | inl e ↦ subst AfterBadge (ok_eq _ p (rw e at h)) (
        inr (
          refl,
          record { fqdn = fqdn; outcome = b; identity = n; given = g; stored = refl; success = e },
        ))
    | inr e ↦ elim (Bool-cases (le_int policy_enhanced level)) [
      | inl l ↦ absurd (no_error _ p (rw (e, is_level, l) at h))
      | inr l ↦ subst AfterBadge (ok_eq _ p (rw (e, is_level, l) at h)) (inl (i, j))
    ]
  ]

  -- Every outcome that the verification of badges gives in the environment is as `Gives` says.
  abbrev pub Given : Environment → Type 0
  Given x =
      (cache : Cache) (fqdn : Fqdn) (cert : CertIdentity)
      → Gives fqdn cert (x.badge cache fqdn cert).0

  at-AfterBadge :
      (x : Environment) (f : Result FqdnError Fqdn) (o p : TrustOutcome) (cache : Cache)
      → Given x
      → new_fqdn (resolve_identity_host c url.hostname) ≡ f
      → o.achieved_level ≡ policy_basic
      → o.badge_verified ≡ false
      → (badge_at c x cert f o cache).0 ≡ ok p
      → AfterBadge p
  at-AfterBadge x (err e) o p cache g n i j h = subst AfterBadge (ok_eq o p h) (inl (i, j))
  at-AfterBadge x (ok fqdn) o p cache g n i j h =
      badge-AfterBadge fqdn (x.badge cache fqdn cert) o p cache (resolved-IsIdentity c url fqdn n)
        (g cache fqdn cert) i j h

  pub step-AfterBadge :
      (x : Environment) (o p : TrustOutcome) (cache : Cache)
      → Given x
      → o.achieved_level ≡ policy_basic
      → o.badge_verified ≡ false
      → (badge_step c x url.hostname cert o cache).0 ≡ ok p
      → AfterBadge p
  unfolding badge_step
  step-AfterBadge x o p cache g i j h = elim (Bool-cases (wants policy_enhanced c.trust_level)) [
    | inl e ↦ at-AfterBadge x _ o p cache g refl i j (if_true_fst _ _ _ (ok p) e h)
    | inr e ↦ subst AfterBadge (ok_eq o p (if_false_fst _ _ _ (ok p) e h)) (inl (i, j))
  ]

  dane-AfterDane :
      (d : DaneResolver) (fqdn : Fqdn) (o p : TrustOutcome)
      → c.dane_resolver ≡ some d
      → new_fqdn url.hostname ≡ ok fqdn
      → Succeeded o
      → after_dane c o (verify d fqdn (dane_port url) (some cert)) ≡ ok p
      → AfterDane p
  unfolding verify
  dane-AfterDane d fqdn o p r n b h =
      let lookup = d.lookup_tlsa fqdn (dane_port url) in
      elim (Bool-cases (is_verified (verify_with_lookup fqdn (some cert) lookup))) [
        | inl v ↦ subst AfterDane (ok_eq _ p (rw (is_level, v) at h)) (
            inr (
              record {
                fqdn = b.fqdn;
                outcome = b.outcome;
                identity = b.identity;
                given = b.given;
                stored = b.stored;
                success = b.success;
              },
              record {
                resolver = d;
                fqdn = fqdn;
                port = dane_port url;
                is_resolver = r;
                host = n;
                is_port = dane_port-IsPort url;
                fits = (verified_iff fqdn (some cert) lookup).0 v;
                stored = refl;
              },
            ))
        | inr v ↦ absurd (no_error (dane_failed _) p (rw (is_level, v) at h))
      ]

  at-AfterDane :
      (d : DaneResolver) (f : Result FqdnError Fqdn) (o p : TrustOutcome)
      → c.dane_resolver ≡ some d
      → new_fqdn url.hostname ≡ f
      → AfterBadge o
      → Succeeded o
      → dane_at c url cert o d f ≡ ok p
      → AfterDane p
  at-AfterDane d (err e) o p r n a b h = subst AfterDane (ok_eq o p h) (inl a)
  at-AfterDane d (ok fqdn) o p r n a b h = dane-AfterDane d fqdn o p r n b h

  with-AfterDane :
      (d : Option DaneResolver) (o p : TrustOutcome)
      → c.dane_resolver ≡ d
      → AfterBadge o
      → Succeeded o
      → dane_with c url cert o d ≡ ok p
      → AfterDane p
  with-AfterDane none o p r a b h = subst AfterDane (ok_eq o p h) (inl a)
  with-AfterDane (some d) o p r a b h = at-AfterDane d (new_fqdn url.hostname) o p r refl a b h

  succeeded : (o : TrustOutcome) → AfterBadge o → o.badge_verified ≡ true → Succeeded o
  succeeded o (inl (a, b)) h = absurd (false≢true (sym b ∙ h))
  succeeded o (inr (a, b)) h = b

  step-AfterDane : (o p : TrustOutcome) → AfterBadge o → dane_step c url cert o ≡ ok p → AfterDane p
  unfolding dane_step
  step-AfterDane o p a h =
      elim (Bool-cases (wants policy_advanced c.trust_level && o.badge_verified)) [
        | inl e ↦
            with-AfterDane c.dane_resolver o p refl a
              (succeeded o a (and_right _ o.badge_verified e)) (if_true _ _ _ (ok p) e h)
        | inr e ↦ subst AfterDane (ok_eq o p (if_false _ _ _ (ok p) e h)) (inl a)
      ]

  step-Meets :
      (o p : TrustOutcome) → AfterDane o → level_step c o ≡ ok p → Meets c Gives level url cert p
  unfolding level_step
  step-Meets o p a h =
      let (u, b, h) = bind_ok _ _ p h in
      subst (Meets c Gives level url cert) (ok_eq o p h)
        (meets o a (not_below o.achieved_level c.trust_level is_level b))

  pub response-Meets :
      (r : Result ClientError TrustOutcome) (p : TrustOutcome)
      → ((o : TrustOutcome) → r ≡ ok o → AfterBadge o)
      → after_badge_step c url cert r ≡ ok p
      → Meets c Gives level url cert p
  response-Meets r p k h =
      let (o, a, h) = bind_ok _ _ p h in
      let (q, b, h) = bind_ok _ _ p h in step-Meets q p (step-AfterDane o q (k o a) b) h
