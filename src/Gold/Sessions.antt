-- ===== src/Gold/Sessions.antt =====
-- verify/session_monitor.go: the recheck of a session, which the loop of its goroutine makes at every tick and
-- after whose first error it calls onRevoked and ends. The goroutines and their map are not modelled.
use mathlib.Core.Bool.{false≢true}
use alibaba_ati_golang_sdk.Base.{
  ◌≤◌, ◌≡◌, refl, ap, ◌∙◌, ◌⊎◌, inl, inr, ◌↔◌, Bool, true, false, not, List, [], ◌∷◌, ◌++◌, Option,
  none, some, Bytes, if◌then◌else◌, Result, ok, err, length, Some, codes, bytes_eq_iff, Bool-cases,
  arith,
}
use alibaba_ati_golang_sdk.Models.Fqdn.{Fqdn}
use alibaba_ati_golang_sdk.Models.TlLog.{TlResponse, is_terminal}
use alibaba_ati_golang_sdk.Failure.{Failure}
use alibaba_ati_golang_sdk.Trust.{
  AnsError, new_ans_error, severity_hard, stage_session, revoked_during_session,
}
use alibaba_ati_golang_sdk.Seal.{to_upper}
use alibaba_ati_golang_sdk.Gold.{Discovery, default_tl_base_url, log_url, is_given}

-- What the resolver and the log answer during one recheck.
pub record Answers : Type 0 where
  pub lookup_ati_discovery : Fqdn → Result Failure Discovery
  pub fetch_tl_response : Bytes → Result Failure TlResponse

abbrev recheck_response : Result Failure TlResponse → Option AnsError
recheck_response (err e) = none
recheck_response (ok r) =
    if is_terminal (to_upper r.payload.agent_status)
    then some (new_ans_error revoked_during_session severity_hard stage_session)
    else none

abbrev recheck_ids : Answers → List Bytes → Option AnsError
recheck_ids a [] = none
recheck_ids a (id ∷ ids) = recheck_response (a.fetch_tl_response (log_url default_tl_base_url id))

abbrev recheck_found : Answers → Result Failure Discovery → Option AnsError
recheck_found a (err e) = none
recheck_found a (ok d) = if not d.found then none else recheck_ids a d.ids

-- none is nil: a check that fails for want of an answer changes nothing.
unfoldable pub recheck : Answers → Fqdn → Option AnsError
recheck a fqdn = recheck_found a (a.lookup_ati_discovery fqdn)

abbrev after_tick : Bool → Option AnsError → List AnsError → List AnsError
after_tick on_revoked none rest = rest
after_tick on_revoked (some e) rest = if on_revoked then e ∷ [] else []

-- The calls of onRevoked by the loop for a session, over the ticks that it comes to see; `on_revoked` tells that the
-- callback is not nil.
unfoldable pub monitor_loop : Bool → Fqdn → List Answers → List AnsError
monitor_loop on_revoked fqdn [] = []
monitor_loop on_revoked fqdn (a ∷ ticks) =
    after_tick on_revoked (recheck a fqdn) (monitor_loop on_revoked fqdn ticks)

-- The record of the log for the first ID that DNS has for the agent says REVOKED or EXPIRED, in any case of letters.
pub record IsRevoked (fqdn : Fqdn) (a : Answers) : Type 0 where
  pub discovery : Discovery
  pub id : Bytes
  pub ids : List Bytes
  pub response : TlResponse
  pub discovered : a.lookup_ati_discovery fqdn ≡ ok discovery
  pub is_found : discovery.found ≡ true
  pub first : discovery.ids ≡ id ∷ ids
  pub fetched :
      a.fetch_tl_response
        (codes "https://ati-tl.cnnic.cn/ati/api/v1/tl/agents/" ++ (id ++ codes "/logs/latest"))
      ≡ ok response
  pub terminal :
      (to_upper response.payload.agent_status ≡ codes "REVOKED")
      ⊎ (to_upper response.payload.agent_status ≡ codes "EXPIRED")

terminal_iff :
    (s : Bytes) → (is_terminal s ≡ true) ↔ ((s ≡ codes "REVOKED") ⊎ (s ≡ codes "EXPIRED"))
unfolding is_terminal
terminal_iff s = ground (arith, bytes_eq_iff s (codes "REVOKED"), bytes_eq_iff s (codes "EXPIRED"))

response_given :
    (r : Result Failure TlResponse)
    → is_given (recheck_response r) ≡ true
    → (s : TlResponse) × (r ≡ ok s) × (is_terminal (to_upper s.payload.agent_status) ≡ true)
response_given (err e) h = absurd (false≢true h)
response_given (ok r) h = elim (Bool-cases (is_terminal (to_upper r.payload.agent_status))) [
  | inl e ↦ (r, refl, e)
  | inr e ↦ absurd (false≢true (rw e at h))
]

ids_given :
    (a : Answers) (ids : List Bytes)
    → is_given (recheck_ids a ids) ≡ true
    → (id : Bytes) × (rest : List Bytes) × (ids ≡ id ∷ rest)
      × (is_given (recheck_response (a.fetch_tl_response (log_url default_tl_base_url id))) ≡ true)
ids_given a [] h = absurd (false≢true h)
ids_given a (id ∷ ids) h = (id, ids, refl, h)

found_given :
    (a : Answers) (r : Result Failure Discovery)
    → is_given (recheck_found a r) ≡ true
    → (d : Discovery) × (r ≡ ok d) × (d.found ≡ true) × (is_given (recheck_ids a d.ids) ≡ true)
found_given a (err e) h = absurd (false≢true h)
found_given a (ok d) h = elim (Bool-cases d.found) [
  | inl e ↦ (d, refl, e, rw e at h)
  | inr e ↦ absurd (false≢true (rw e at h))
]

given-IsRevoked : (fqdn : Fqdn) (a : Answers) → is_given (recheck a fqdn) ≡ true → IsRevoked fqdn a
unfolding recheck
given-IsRevoked fqdn a h =
    let (d, e, f, h) = found_given a (a.lookup_ati_discovery fqdn) h in
    let (id, ids, i, h) = ids_given a d.ids h in
    let (r, q, t) = response_given _ h in
    record {
      discovery = d;
      id = id;
      ids = ids;
      response = r;
      discovered = e;
      is_found = f;
      first = i;
      fetched = q;
      terminal = (terminal_iff (to_upper r.payload.agent_status)).0 t;
    }

IsRevoked-given : (fqdn : Fqdn) (a : Answers) → IsRevoked fqdn a → is_given (recheck a fqdn) ≡ true
unfolding recheck
IsRevoked-given fqdn a r =
    ap (λ x. is_given (recheck_found a x)) r.discovered
    ∙ (ap (λ b. is_given (if not b then none else recheck_ids a r.discovery.ids)) r.is_found
        ∙ (ap (λ ids. is_given (recheck_ids a ids)) r.first
            ∙ (ap (λ x. is_given (recheck_response x)) r.fetched
                ∙ ap
                    (λ b. is_given (
                      if b
                      then some (new_ans_error revoked_during_session severity_hard stage_session)
                      else none))
                    ((terminal_iff (to_upper r.response.payload.agent_status)).1 r.terminal))))

-- At most one call, and one exactly if the callback is there and P.
abbrev Calls : Bool → Type 0 → List AnsError → Type 0
Calls on_revoked P es = (length es ≤ 1) × ((length es ≡ 1) ↔ ((on_revoked ≡ true) × P))

tick-Calls :
    {P Q : Type 0} (on_revoked : Bool) (r : Option AnsError) (rest : List AnsError)
    → (is_given r ≡ true) ↔ P
    → Calls on_revoked Q rest
    → Calls on_revoked (P ⊎ Q) (after_tick on_revoked r rest)
tick-Calls on_revoked none rest p (l, q) = (
  l,
  (
    λ h. let (c, k) = q.0 h in (c, inr k),
    λ (c, k). elim k [ inl x ↦ absurd (false≢true (p.1 x)) | inr x ↦ q.1 (c, x) ],
  ),
)
tick-Calls true (some e) rest p q = (omega arith, (λ h. (refl, inl (p.0 refl)), λ h. refl))
tick-Calls false (some e) rest p q =
    (omega arith, (λ h. ground arith, λ (c, k). absurd (false≢true c)))

-- The loop calls onRevoked at most once, and it calls it exactly if it is not nil and at one of the ticks DNS and the
-- log answer that the agent was revoked or has expired; a lookup or a fetch that fails is no reason to call it.
pub length-monitor_loop :
    (on_revoked : Bool) (fqdn : Fqdn) (ticks : List Answers)
    → (length (monitor_loop on_revoked fqdn ticks) ≤ 1)
      × ((length (monitor_loop on_revoked fqdn ticks) ≡ 1)
          ↔ ((on_revoked ≡ true) × Some (IsRevoked fqdn) ticks))
unfolding monitor_loop
length-monitor_loop on_revoked fqdn [] = (omega arith, (λ h. ground arith, λ (c, k). absurd k))
length-monitor_loop on_revoked fqdn (a ∷ ticks) =
    tick-Calls on_revoked (recheck a fqdn) (monitor_loop on_revoked fqdn ticks)
      (given-IsRevoked fqdn a, IsRevoked-given fqdn a) (length-monitor_loop on_revoked fqdn ticks)
