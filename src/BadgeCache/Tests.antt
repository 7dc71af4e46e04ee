-- ===== src/BadgeCache/Tests.antt =====
-- A cache with one response.
use alibaba_ati_golang_sdk.Base.{
  ◌≡◌, ◌≤◌, ◌+◌, refl, false, [], none, some, codes, bytes_eq, length, if◌then◌else◌, arith,
}
use alibaba_ati_golang_sdk.Base.Int.{pos}
use alibaba_ati_golang_sdk.Base.Map.{lookup, insert}
use alibaba_ati_golang_sdk.Models.Fqdn.{Fqdn}
use alibaba_ati_golang_sdk.Models.Version.{Version}
use alibaba_ati_golang_sdk.Models.TlLog.{TlResponse}
use alibaba_ati_golang_sdk.BadgeCache.{
  BadgeCache, CachedBadge, MapOrder, CacheConfig, new_entry, fresh_badge, get_by_fqdn, insert_badge,
  insert_for_version, cleanup_locked, drop_dead,
}
use alibaba_ati_golang_sdk.BadgeCache.Claims.{IsValid, insert-IsValid_bounded, get-insert_badge}

abbrev as_listed : MapOrder
as_listed = record {
  visit = λ m. m;
  length-visit = λ m. refl;
  lookup-visit = λ k m. refl;
  visit-IsUnique = λ m u. u;
}

abbrev a : Fqdn
a = record { value = codes "a.b" }

abbrev b : Fqdn
b = record { value = codes "b.b" }

abbrev release : Version
release = record { major = 1; minor = 0; patch = 0 }

abbrev response : TlResponse
response = record {
  status = [];
  schema_version = [];
  payload = record {
    log_id = [];
    event_type = [];
    timestamp = [];
    agent_name = [];
    agent_display_name = [];
    agent_host = [];
    agent_sub_host = [];
    version = [];
    agent_id = [];
    agent_status = [];
    certificates = record {
      server_cert_fingerprint = [];
      identity_cert_fingerprint = [];
      previous_server_cert_fingerprint = [];
      previous_identity_cert_fingerprint = [];
    };
  };
  evidence_ref = record {
    evidence_id = [];
    submitter_id = [];
    evidence_type = [];
    evidence_uri = [];
    evidence_hash = [];
    hash_algorithm = [];
    hash_target = [];
    content_type = [];
    evidence_schema_version = [];
    signature_required = false;
  };
  seal = record {
    canonicalization = [];
    digest_algorithm = [];
    signature_algorithm = [];
    signature_encoding = [];
    key_id = [];
    signature = [];
    public_key = [];
  };
  merkle_proof = record {
    leaf_hash = [];
    root_hash = [];
    root_signature = [];
    tree_size = pos 0;
    tree_version = pos 0;
    leaf_index = pos 0;
    path = [];
  };
  request_id = [];
  raw_status = none;
  raw_schema_version = none;
  raw_payload = none;
  raw_evidence_ref = none;
}

abbrev config : CacheConfig
config = record { max_entries = 2; default_ttl = 10; refresh_threshold = 1; stale_retention = 5 }

abbrev empty : BadgeCache
empty = record { config = config; by_fqdn = []; by_fqdn_ver = [] }

empty-IsValid : IsValid empty
empty-IsValid = record { unique = tt; unique_ver = tt }

insert-IsValid_bounded_example :
    (IsValid (insert_badge as_listed 1 1 a response empty)
      × IsValid (insert_for_version as_listed 1 1 a release response empty))
    × (length (insert_badge as_listed 1 1 a response empty).by_fqdn
          + length (insert_badge as_listed 1 1 a response empty).by_fqdn_ver
        ≤ 2)
    × (length (insert_for_version as_listed 1 1 a release response empty).by_fqdn
          + length (insert_for_version as_listed 1 1 a release response empty).by_fqdn_ver
        ≤ 2)
insert-IsValid_bounded_example =
    insert-IsValid_bounded as_listed 1 1 a release response empty empty-IsValid

get-insert_badge_example : get_by_fqdn 11 a (insert_badge as_listed 1 1 a response empty) ≡ (
    if bytes_eq a.value a.value
    then fresh_badge 11 (some (new_entry 1 config response))
    else get_by_fqdn 11 a empty)
get-insert_badge_example =
    get-insert_badge as_listed 1 1 11 a a response empty empty-IsValid (omega arith) (omega arith)

abbrev badge : CachedBadge
badge = record { tl_response = response; fetched_at = 1; expires_at = 11 }

given : get_by_fqdn 11 a (insert_badge as_listed 1 1 a response empty) ≡ some badge
unfolding get_by_fqdn insert_badge cleanup_locked drop_dead insert lookup bytes_eq
given = refl
