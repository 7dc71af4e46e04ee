-- ===== src/Models/Version/Tests.antt =====
-- Runs of the version functions.
use alibaba_ati_golang_sdk.Base.{◌≡◌, refl, arith, codes, ok, err}
use alibaba_ati_golang_sdk.Base.{cut_prefix}
use alibaba_ati_golang_sdk.Base.Split.{split, parse_uint32, decimal}
use alibaba_ati_golang_sdk.Models.Version.{
  Version, parse_parts, parse_version, version_string, empty_version, part_count, invalid_minor,
}
use alibaba_ati_golang_sdk.Models.Version.RoundTrip.{parse-version_string}

abbrev release : Version
release = record { major = 1; minor = 20; patch = 3 }

parses :
    (parse_version (codes "v1.20.3") ≡ ok release)
    × (parse_version (codes "1.20.3") ≡ ok release)
    × (parse_version (codes "") ≡ err empty_version)
    × (parse_version (codes "v1.2") ≡ err part_count)
    × (parse_version (codes "1.x.3") ≡ err invalid_minor)
    × (parse_version (codes "1.4294967296.3") ≡ err invalid_minor)
    × (version_string release ≡ codes "v1.20.3")
unfolding parse_version parse_parts parse_uint32 split cut_prefix version_string decimal
parses = (refl, refl, refl, refl, refl, refl, refl)

parse-version_string_example : parse_version (version_string release) ≡ ok release
parse-version_string_example = parse-version_string release (omega arith)

abbrev newer : Version
newer = record { major = 2; minor = 0; patch = 0 }
