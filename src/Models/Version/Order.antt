-- ===== src/Models/Version/Order.antt =====
-- The order of versions is the lexicographic order of the components, and it is total.
use alibaba_ati_golang_sdk.Base.{◌<◌, ◌≡◌, ◌⊎◌, ◌↔◌, true, arith}
use alibaba_ati_golang_sdk.Base.Int.{pos, negsuc}
use alibaba_ati_golang_sdk.Models.Version.{Version, compare_version, equal, less}

-- `v` comes before `w`: at the first component where they differ, it has the smaller one.
abbrev pub Before : Version → Version → Type 0
Before v w =
    (v.major < w.major)
    ⊎ ((v.major ≡ w.major) × ((v.minor < w.minor) ⊎ ((v.minor ≡ w.minor) × (v.patch < w.patch))))

pub less_iff : (v w : Version) → (less v w ≡ true) ↔ Before v w
unfolding less
less_iff v w = ground arith

pub equal_iff : (v w : Version) → (equal v w ≡ true) ↔ (v ≡ w)
unfolding equal
equal_iff v w = ground arith

-- Of two versions exactly one of three holds: the first is `Less`, they are `Equal`, or the second is
-- `Less`; `Equal` is equality of all components, and `Less` is the lexicographic order.
pub compare_total :
    (v w : Version)
    → ((compare_version v w ≡ negsuc 0) ↔ Before v w)
      × ((compare_version v w ≡ pos 0) ↔ (v ≡ w))
      × ((compare_version v w ≡ pos 1) ↔ Before w v)
      × ((compare_version v w ≡ negsuc 0)
          ⊎ ((compare_version v w ≡ pos 0) ⊎ (compare_version v w ≡ pos 1)))
unfolding compare_version
compare_total v w = (ground arith, ground arith, ground arith, ground arith)
