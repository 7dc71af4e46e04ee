-- ===== src/Models/Fqdn.antt =====
-- models/fqdn.go.
pub mod Canonical
mod Tests
use alibaba_ati_golang_sdk.Base.{
  ℕ, Bool, true, false, ◌&&◌, ◌||◌, not, List, [], ◌∷◌, ◌++◌, Bytes, ltb, leb, ◌==◌, if◌then◌else◌,
  Result, ok, err, ◌>>=◌, codes, to_lower, all, length,
}
use alibaba_ati_golang_sdk.Base.Split.{split, trim_suffix, decimal}

-- The field is private, and only `new_fqdn` sets it.
pub record Fqdn : Type 0 where
  pub value : Bytes

pub data FqdnError : Type 0 where
  empty_domain empty_label label_too_long hyphen_edge : FqdnError
  invalid_character : Bytes → FqdnError

abbrev pub max_label_length : ℕ
max_label_length = 63

-- A byte outside ASCII belongs to a rune that is refused, so testing bytes is testing runes.
abbrev pub is_valid_label_char : ℕ → Bool
is_valid_label_char c =
    (leb b'a' c && leb c b'z')
    || (leb b'A' c && leb c b'Z')
    || (leb b'0' c && leb c b'9')
    || c == b'-'

abbrev pub starts_with_hyphen : Bytes → Bool
starts_with_hyphen [] = false
starts_with_hyphen (c ∷ cs) = c == b'-'

abbrev pub ends_with_hyphen : Bytes → Bool
ends_with_hyphen [] = false
ends_with_hyphen (c ∷ []) = c == b'-'
ends_with_hyphen (c ∷ d ∷ cs) = ends_with_hyphen (d ∷ cs)

-- The body of the loop over the labels.
unfoldable pub check_label : Bytes → Result FqdnError (Unit {0})
check_label [] = err empty_label
check_label (c ∷ cs) =
    if ltb max_label_length (length (c ∷ cs))
    then err label_too_long
    else if not (all is_valid_label_char (c ∷ cs))
    then err (invalid_character (c ∷ cs))
    else if starts_with_hyphen (c ∷ cs) || ends_with_hyphen (c ∷ cs)
    then err hyphen_edge
    else ok tt

unfoldable pub check_labels : List Bytes → Result FqdnError (Unit {0})
check_labels [] = ok tt
check_labels (l ∷ ls) = let rest = check_labels ls in check_label l >>= λ _. rest

unfoldable pub new_fqdn : Bytes → Result FqdnError Fqdn
new_fqdn [] = err empty_domain
new_fqdn (c ∷ cs) = do
  _ ← check_labels (split b'.' (trim_suffix b'.' (c ∷ cs)))
  ok (record { value = to_lower (trim_suffix b'.' (c ∷ cs)) })

abbrev pub ati_badge_name : Fqdn → Bytes
ati_badge_name f = codes "_ati-badge." ++ f.value

abbrev pub ra_badge_name : Fqdn → Bytes
ra_badge_name f = codes "_ra-badge." ++ f.value

abbrev pub tlsa_name : Fqdn → ℕ → Bytes
tlsa_name f port = b'_' ∷ (decimal port ++ (codes "._tcp." ++ f.value))

abbrev pub ati_discovery_name : Fqdn → Bytes
ati_discovery_name f = codes "_ati." ++ f.value

abbrev pub identity_tlsa_name : Fqdn → Bytes
identity_tlsa_name f = codes "_ati-identity._tls." ++ f.value
