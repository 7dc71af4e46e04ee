-- ===== src/Models/Fqdn/Tests.antt =====
-- Runs of `new_fqdn`.
use alibaba_ati_golang_sdk.Base.{◌≡◌, refl, codes, ok, err, to_lower}
use alibaba_ati_golang_sdk.Base.Split.{split, trim_suffix}
use alibaba_ati_golang_sdk.Models.Fqdn.{
  Fqdn, check_label, check_labels, new_fqdn, empty_domain, empty_label, hyphen_edge,
  invalid_character,
}

abbrev host : Fqdn
host = record { value = codes "a1.example.com" }

runs :
    (new_fqdn (codes "A1.Example.COM.") ≡ ok host)
    × (new_fqdn (codes "") ≡ err empty_domain)
    × (new_fqdn (codes "a..b") ≡ err empty_label)
    × (new_fqdn (codes ".") ≡ err empty_label)
    × (new_fqdn (codes "a.-b") ≡ err hyphen_edge)
    × (new_fqdn (codes "a_b.c") ≡ err (invalid_character (codes "a_b")))
unfolding new_fqdn check_labels check_label split trim_suffix to_lower
runs = (refl, refl, refl, refl, refl, refl)
