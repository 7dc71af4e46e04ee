-- ===== src/Cert/Wildcard.antt =====
-- The names that a DNS SAN covers.
use alibaba_ati_golang_sdk.Base.{
  ℕ, ◌≡◌, ◌≢◌, refl, Bool, true, false, ◌||◌, [], ◌∷◌, ◌++◌, none, some, Bytes, codes, bytes_eq_iff,
  is_empty, to_lower, cut_prefix, cut_prefix_iff, contains_byte, arith, inl, inr, if◌then◌else◌,
  Option-cases,
}
use mathlib.Core.Bool.{false≢true}
use alibaba_ati_golang_sdk.Base.Split.{trim_suffix, cut_suffix, cut_suffix_iff}
use alibaba_ati_golang_sdk.Cert.{matches_dns_name, wildcard_match, one_label}

-- The form in which names are compared.
abbrev pub folded : Bytes → Bytes
folded s = to_lower (trim_suffix b'.' s)

-- RFC 6125: `pattern` is `host`, or a star and a dot before what follows the first label of `host`.
pub data Covers (pattern host : Bytes) : Type 0 where
  same :
      pattern ≢ [] → cut_prefix pattern (codes "*.") ≡ none → pattern ≡ host → Covers pattern host
  wildcard :
      (label rest : Bytes)
      → label ≢ []
      → contains_byte b'.' label ≡ false
      → pattern ≡ codes "*." ++ rest
      → host ≡ label ++ (b'.' ∷ rest)
      → Covers pattern host

nonempty : (s : Bytes) → (is_empty s ≡ false → s ≢ []) × (s ≢ [] → is_empty s ≡ false)
nonempty [] = (λ h. cc, λ h. absurd (h refl))
nonempty (x ∷ xs) = (λ h e. cc, λ h. refl)

one_label_sound :
    (host rest : Bytes)
    → one_label (cut_suffix host (b'.' ∷ rest)) ≡ true
    → (label : Bytes) × (label ≢ [])
      × (contains_byte b'.' label ≡ false)
      × (host ≡ label ++ (b'.' ∷ rest))
one_label_sound host rest h = elim (Option-cases (cut_suffix host (b'.' ∷ rest))) [
  | inl e ↦ absurd ((false≢true (rw e at h)))
  | inr (label, e) ↦
      let t : one_label (some label) ≡ true = rw e at h in
      (
        label,
        (nonempty label).0 (ground arith),
        ground arith,
        (cut_suffix_iff host (b'.' ∷ rest) label).0 e,
      )
]

abbrev decides : Bytes → Bytes → Bool
decides p h =
    if is_empty p || is_empty h then false else wildcard_match p h (cut_prefix p (codes "*."))

tested :
    (p h : Bytes)
    → decides p h ≡ true
    → (is_empty p ≡ false) × (wildcard_match p h (cut_prefix p (codes "*.")) ≡ true)
tested p h t = (ground arith, ground arith)

decides_sound : (p h : Bytes) → decides p h ≡ true → Covers p h
decides_sound p h t =
    let (n, w) = tested p h t in
    elim (Option-cases (cut_prefix p (codes "*."))) [
      | inl e ↦ same ((nonempty p).0 n) e ((bytes_eq_iff p h).0 (rw e at w))
      | inr (rest, e) ↦
          let (label, a, b, c) = one_label_sound h rest (rw e at w) in
          wildcard label rest a b ((cut_prefix_iff p (codes "*.") rest).0 e) c
    ]

append-ne-nil : (label : Bytes) (x : ℕ) (r : Bytes) → is_empty (label ++ (x ∷ r)) ≡ false
append-ne-nil [] x r = refl
append-ne-nil (y ∷ l) x r = refl

decides_parts :
    (p h : Bytes)
    → is_empty p ≡ false
    → is_empty h ≡ false
    → wildcard_match p h (cut_prefix p (codes "*.")) ≡ true
    → decides p h ≡ true
decides_parts p h a b c = ground arith

decides_complete : (p h : Bytes) → Covers p h → decides p h ≡ true
decides_complete p h (same n c e) =
    let f : is_empty p ≡ false = (nonempty p).1 n in
    decides_parts p h f (rw e at f) (rw c ((bytes_eq_iff p h).1 e))
decides_complete p h (wildcard label rest n d e f) =
    let c : cut_prefix p (codes "*.") ≡ some rest = (cut_prefix_iff p (codes "*.") rest).1 e in
    let k : cut_suffix h (b'.' ∷ rest) ≡ some label = (cut_suffix_iff h (b'.' ∷ rest) label).1 f in
    decides_parts p h (rw e refl) (rw f (append-ne-nil label b'.' rest))
      (rw c (rw k (ground (arith, (nonempty label).1))))

-- `matchesDNSName` says yes exactly when, up to case and one trailing dot on either side, the pattern
-- is the host, or is a star for exactly the first label of the host.
pub matches_dns_name_iff :
    (pattern host : Bytes)
    → (matches_dns_name pattern host ≡ true → Covers (folded pattern) (folded host))
      × (Covers (folded pattern) (folded host) → matches_dns_name pattern host ≡ true)
unfolding matches_dns_name
matches_dns_name_iff pattern host =
    (decides_sound (folded pattern) (folded host), decides_complete (folded pattern) (folded host))
