-- ===== src/Models/Version/RoundTrip.antt =====
-- Printing a version and parsing it.
use alibaba_ati_golang_sdk.Base.{
  ℕ, ◌<◌, ◌^◌, ◌≡◌, refl, ◌∙◌, ap, [], ◌∷◌, ◌++◌, ok, some, arith, Bytes, cut_prefix,
}
use alibaba_ati_golang_sdk.Base.Split.{
  split, parse_uint32, decimal, parse-decimal, no_dot-decimal, split_free, split-append,
}
use alibaba_ati_golang_sdk.Models.Version.{Version, parse_parts, parse_version, version_string}

-- The components of a uint32.
abbrev pub InRange : Version → Type 0
InRange v = (v.major < 2 ^ 32) × (v.minor < 2 ^ 32) × (v.patch < 2 ^ 32)

split-decimals :
    (a b c : ℕ)
    → split b'.' (decimal a ++ b'.' ∷ (decimal b ++ b'.' ∷ decimal c))
      ≡ decimal a ∷ decimal b ∷ decimal c ∷ []
split-decimals a b c =
    split-append b'.' (decimal a) _ (no_dot-decimal a)
    ∙ ap (◌∷◌ (decimal a)) (split-append b'.' (decimal b) _ (no_dot-decimal b))
    ∙ ap (λ t. decimal a ∷ decimal b ∷ t) (split_free b'.' (decimal c) (no_dot-decimal c))

parts_read :
    (a b c : Bytes) (x y z : ℕ)
    → parse_uint32 a ≡ some x
    → parse_uint32 b ≡ some y
    → parse_uint32 c ≡ some z
    → parse_parts (a ∷ b ∷ c ∷ []) ≡ ok (record { major = x; minor = y; patch = z })
unfolding parse_parts
parts_read a b c x y z p q r = ground arith

-- The leading letter is dropped, and the rest is taken apart at the dots.
pub parse-v : (s : Bytes) → parse_version (b'v' ∷ s) ≡ parse_parts (split b'.' s)
unfolding parse_version cut_prefix
parse-v s = refl

-- Every version whose components fit their 32 bits is what `ParseVersion` reads from its `String`.
pub parse-version_string : (v : Version) → InRange v → parse_version (version_string v) ≡ ok v
unfolding version_string
parse-version_string v (h, i, j) =
    parse-v _
    ∙ ap parse_parts (split-decimals v.major v.minor v.patch)
    ∙ parts_read _ _ _ _ _ _ (parse-decimal v.major h) (parse-decimal v.minor i)
        (parse-decimal v.patch j)
