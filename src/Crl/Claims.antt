-- ===== src/Crl/Claims.antt =====
-- The check fails closed.
use alibaba_ati_golang_sdk.Base.{
  ◌≡◌, ◌≢◌, refl, ◌∙◌, sym, ap, true, false, List, [], ◌∷◌, Option, none, some, Bytes, ◌==◌, ==_iff,
  any, All, arith, Bool-cases, inl, inr, ◌⊎◌,
}
use mathlib.Core.Bool.{false≢true, true≢false}
use alibaba_ati_golang_sdk.Crl.{
  Certificate, RevocationList, Authority, CdpResult, CheckResult, should_reject, is_http_uri,
  first_uri, resolve_cdp, find_issuing_ca, is_revoked, validate_not_revoked, validate_list, check,
  check_found, check_issued, check_fetched, validated, uri_of, cdp_skipped, cdp_failed, cdp_found,
}

-- The certificate names no list.
abbrev pub HasNoPoint : Certificate → Type 0
HasNoPoint c = c.crl_distribution_points ≡ []

-- A list that was fetched from an HTTP URI and signed by a certificate, other than the leaf, that
-- signed the leaf, does not hold the leaf's serial number.
pub record Cleared (x : Authority) (leaf : Certificate) : Type 0 where
  pub uri : Bytes
  pub is_http : is_http_uri uri ≡ true
  pub issuer : Certificate
  pub not_leaf : issuer.address ≢ leaf.address
  pub signed_leaf : x.check_signature_from leaf issuer ≡ true
  pub bytes : Bytes
  pub fetched : x.fetch uri ≡ some bytes
  pub list : RevocationList
  pub is_list : x.parse_revocation_list bytes ≡ some list
  pub signed_list : x.list_signed_by list issuer ≡ true
  pub absent : any (λ s. s == leaf.serial_number) list.revoked_serials ≡ false

first_uri_found :
    (dps : List Bytes)
    → (first_uri dps ≡ cdp_failed)
      ⊎ ((uri : Bytes) × (first_uri dps ≡ cdp_found uri) × (is_http_uri uri ≡ true))
unfolding first_uri
first_uri_found [] = inl refl
first_uri_found (dp ∷ dps) = elim (Bool-cases (is_http_uri dp)) [
  | inl e ↦ inr (dp, rw e refl, e)
  | inr e ↦ rw e (first_uri_found dps)
]

abbrev Resolved : List Certificate → CdpResult → Type 0
Resolved chain cdp_skipped = All HasNoPoint chain
Resolved chain cdp_failed = Unit
Resolved chain (cdp_found uri) = is_http_uri uri ≡ true

uri-Resolved :
    (c : Certificate) (chain : List Certificate) (dps : List Bytes) (rest : CdpResult)
    → c.crl_distribution_points ≡ dps
    → Resolved chain rest
    → Resolved (c ∷ chain) (uri_of dps rest)
uri-Resolved c chain [] cdp_skipped e h = (e, h)
uri-Resolved c chain [] cdp_failed e h = tt
uri-Resolved c chain [] (cdp_found uri) e h = h
uri-Resolved c chain (dp ∷ dps) rest e h = elim (first_uri_found (dp ∷ dps)) [
  | inl f ↦ rw f tt
  | inr (uri, f, g) ↦ rw f g
]

resolve_lem : (chain : List Certificate) → Resolved chain (resolve_cdp chain)
unfolding resolve_cdp
resolve_lem [] = tt
resolve_lem (c ∷ chain) =
    uri-Resolved c chain c.crl_distribution_points (resolve_cdp chain) refl (resolve_lem chain)

issuing_lem :
    (x : Authority) (leaf : Certificate) (chain : List Certificate) (c : Certificate)
    → find_issuing_ca x leaf chain ≡ some c
    → (c.address ≢ leaf.address) × (x.check_signature_from leaf c ≡ true)
unfolding find_issuing_ca
issuing_lem x leaf [] c h = ground arith
issuing_lem x leaf (d ∷ chain) c h = elim (Bool-cases (d.address == leaf.address)) [
  | inl e ↦ issuing_lem x leaf chain c (rw e at h)
  | inr e ↦ elim (Bool-cases (x.check_signature_from leaf d)) [
    | inl s ↦
        let i : some d ≡ some c = rw (e, s) at h in
        let j : d ≡ c = ap (some_or d) i in
        (
          λ k. false≢true (sym e ∙ (==_iff d.address leaf.address).1 (ap (λ y. y.address) j ∙ k)),
          ap (x.check_signature_from leaf) (sym j) ∙ s,
        )
    | inr s ↦ issuing_lem x leaf chain c (rw (e, s) at h)
  ]
]
  where
    some_or : Certificate → Option Certificate → Certificate
    some_or d none = d
    some_or d (some y) = y

-- A result that does not reject.
abbrev pub LetsThrough : CheckResult → Type 0
LetsThrough r = should_reject r ≡ false

module _ (x : Authority) (leaf : Certificate) (uri : Bytes) (http : is_http_uri uri ≡ true) where
  module _ (issuer : Certificate) (other : issuer.address ≢ leaf.address)
      (signs : x.check_signature_from leaf issuer ≡ true) where
    list-Cleared :
        (bytes : Bytes) (rl : Option RevocationList)
        → x.fetch uri ≡ some bytes
        → x.parse_revocation_list bytes ≡ rl
        → LetsThrough (validated uri (validate_list x issuer leaf.serial_number rl))
        → Cleared x leaf
    unfolding should_reject is_revoked
    list-Cleared bytes none f p h = absurd (true≢false h)
    list-Cleared bytes (some rl) f p h = elim (Bool-cases (x.list_signed_by rl issuer)) [
      | inr s ↦ absurd (true≢false (rw s at h))
      | inl s ↦ elim (Bool-cases (is_revoked rl leaf.serial_number)) [
        | inl r ↦ absurd (true≢false (rw (s, r) at h))
        | inr r ↦ record {
          uri = uri;
          is_http = http;
          issuer = issuer;
          not_leaf = other;
          signed_leaf = signs;
          bytes = bytes;
          fetched = f;
          list = rl;
          is_list = p;
          signed_list = s;
          absent = r;
        }
      ]
    ]

    fetched-Cleared :
        (b : Option Bytes)
        → x.fetch uri ≡ b
        → LetsThrough (check_fetched x leaf issuer uri b)
        → Cleared x leaf
    unfolding should_reject validate_not_revoked
    fetched-Cleared none f h = absurd (true≢false h)
    fetched-Cleared (some bytes) f h = list-Cleared bytes (x.parse_revocation_list bytes) f refl h

  issued-Cleared :
      (chain : List Certificate) (c : Option Certificate)
      → find_issuing_ca x leaf chain ≡ c
      → LetsThrough (check_issued x leaf uri c)
      → Cleared x leaf
  unfolding should_reject
  issued-Cleared chain none e h = absurd (true≢false h)
  issued-Cleared chain (some c) e h =
      let (a, b) = issuing_lem x leaf chain c e in fetched-Cleared c a b (x.fetch uri) refl h

found-Cleared :
    (x : Authority) (leaf : Certificate) (chain : List Certificate) (r : CdpResult)
    → Resolved chain r
    → LetsThrough (check_found x leaf chain r)
    → All HasNoPoint chain ⊎ Cleared x leaf
unfolding should_reject
found-Cleared x leaf chain cdp_skipped r h = inl r
found-Cleared x leaf chain cdp_failed r h = absurd (true≢false h)
found-Cleared x leaf chain (cdp_found uri) r h =
    inr (issued-Cleared x leaf uri r chain (find_issuing_ca x leaf chain) refl h)

-- The check lets a certificate through only if no certificate of its chain names a revocation list, or a list was
-- fetched, and signed by an issuer of the certificate, that does not hold its serial number: every failure on
-- the way rejects.
pub check_fail_closed :
    (x : Authority) (leaf : Certificate) (chain : List Certificate)
    → LetsThrough (check x leaf chain)
    → All HasNoPoint chain ⊎ Cleared x leaf
unfolding check
check_fail_closed x leaf chain h =
    found-Cleared x leaf chain (resolve_cdp chain) (resolve_lem chain) h
