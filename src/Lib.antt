-- ===== src/Lib.antt =====
-- Alibaba ATI Go SDK: verification of agents by the records of a transparency log.
--
-- The SDK decides whether the certificate that a peer presents in TLS belongs to an agent that is
-- registered. The decision takes the certificate's identity (verify/cert.go), finds a badge record in DNS,
-- fetches the record of the agent from the transparency log (models/tl_log.go), compares the two
-- (verify/verify.go), asks DANE (verify/dane.go), and remembers what it fetched (verify/cache.go). Where the
-- peer sends SCITT headers, a signed receipt and a signed status token (verify/scitt) decide instead. The Gold
-- verification (verify/gold.go) trusts a record of the log by its signatures. A server and a client of an agent
-- (ati) run these checks in the handshake and around a request, up to the level that is required of them.
--
-- Files:
--   Base           shared names; texts as lists of bytes (Text), Go's maps (Map), lists, errors, hexadecimal
--                  digits, splitting of texts and decimal numbers (Split), signed integers (Int).
--   Models.Version models/version.go: `parse_version` is ParseVersion, `compare_version` is Compare.
--   Models.Fqdn    models/fqdn.go: `new_fqdn` is NewFqdn.
--   Models.TlLog   models/tl_log.go: `TlResponse` is TLResponse; only data and accessors.
--   Cert           verify/cert.go: fingerprints, ATI names, the names of a certificate. A certificate is the
--                  record that CertIdentityFromX509 builds.
--   Failure        verify/errors.go and verify/scitt/errors.go: the errors, as far as the code tells them apart.
--   Outcome        verify/outcome.go: `VerificationOutcome`, its constructors, `is_success` and `to_error`.
--   Dane           verify/dane.go: `verify_with_lookup` is verifyWithLookup, on what the lookup returned.
--   BadgeCache     verify/cache.go: `insert_badge` is Insert, `cleanup_locked` is cleanupLocked.
--   Merkle         verify/scitt/merkle.go: `walk` is the loop of WalkInclusionPath.
--   TlProof        verify/merkle.go: `verify_inclusion_proof` is VerifyInclusionProof, on the same walk.
--   Fifo           what ReceiptCache and StatusTokenCache of verify/scitt/cache.go share: `put` is Insert
--                  from the test for the key on, `evict_locked` is evictLocked.
--   Scitt          the two caches, verify/scitt/types.go, and the keys (KeyStore): verify/scitt/root_keys.go and
--                  the refreshes of verify/scitt/refreshable_key_store.go. Cose is verify/scitt/cose.go,
--                  Receipt verify/scitt/receipt.go, Token verify/scitt/status_token.go, Headers the HTTP headers
--                  of verify/scitt/headers.go and verify/scitt/outgoing.go, and Supplier
--                  verify/scitt/supplier.go, whose operations are steps of a relation.
--   Crl            verify/crl: `check` is Check, over the record `Authority` of X.509 and downloads; Fetcher is the
--                  cache of verify/crl/fetcher.go.
--   Ocsp           verify/ocsp.go: `check_ocsp` is CheckOCSP.
--   Stapling       verify/stapling.go: `verify_stapled_credential` is VerifyStapledCredential.
--   Verifier       verify/verify.go: `Server.verify` and `Client.verify` are the methods Verify of ServerVerifier
--                  and ClientVerifier, `Scitt.verify_server` and `Scitt.verify_client` are VerifyWithScitt;
--                  ScittTrust puts the verifications of Scitt into it.
--   Trust          verify/error_codes.go, verify/trust_index.go, verify/verification_result.go and
--                  verify/trust_policy.go: codes, results, the score, the policies.
--   Seal           verify/seal.go, verify/producer.go, verify/jws_detached.go: the signatures of a record.
--   Gold           verify/gold.go and verify/offline.go: `verify_gold` is VerifyGold, `verify_offline` is
--                  VerifyOffline; Sessions is the recheck of verify/session_monitor.go and its loop.
--   Dns            verify/ati_record.go and verify/badge_record.go: the parsers of TXT records; Resolver and Choice
--                  are verify/dns.go and verify/dns_resolver.go, Selection is ati/version_policy.go.
--   Agent          ati/verification_policy.go: the levels; Server is ati/server.go, where `verify_connection` is
--                  the function that buildVerifyConnection returns, and Client is ati/mtls_client.go, where
--                  `do_request` is Do: the request, what is verified of the response, and the cache of outcomes;
--                  ClientMeets says what a level asks of an outcome, ClientSending what has to precede a request.
--   Sample         an agent that the tests share.
--
-- State: a cache is passed to an operation and returned by it; one operation is one critical section of its
-- mutex. A verification takes the cache and returns it with the outcome; other calls on the same cache may run
-- between its lookup and its insertion in the program, and are not modelled. A time is a number of
-- nanoseconds, of seconds for a status token; each operation takes the times that it reads as arguments
-- (`Clock` for a verification). Durations and bounds of a configuration are not negative. Go does not fix the
-- order in which a map is visited, so `BadgeCache.MapOrder` is an argument, with the laws that it visits the
-- entries of the map, each once. A lookup of a key of SCITT may fail with any of the errors that
-- `Scitt.Errors.LookupError` tells apart, transport errors among them. A store of keys of the log may hold nil
-- under a key ID (`none` in its map), as in Go.
--
-- Parameters: the resolver, the client of the log and the rewriting of a URL are the record
-- `Verifier.Network`, the resolver of DANE is `Dane.DaneResolver`, whose answers are those during one
-- verification (a later one takes another configuration where they may differ), and
-- `Verifier.Scitt.ScittChecks` are the two checks of SCITT, which `Verifier.ScittTrust.scitt_checks` fills; no
-- law is asked of them. CBOR is the record `Scitt.Cose.Cbor`, ECDSA, ASN.1 and SHA-256 of a message are
-- `Scitt.Cose.Signing`; base64, public keys and SHA-256 of a key are `Scitt.KeyStore.KeyCodec`, and those of a
-- seal with its JSON `Seal.SealCodec`. Of `Scitt.Headers.Base64` the round trip asks the laws of RFC 4648, and
-- of `Dns.Selection.Semver` the choice of a version asks a total order. What surrounds a request, its URL, its
-- connection and the discovery in DNS, is `Agent.Client.Environment`, what is known of the outcomes for badges
-- is `Gives` in the theorems of the client, the responders of OCSP are `Ocsp.Responders`, a download of a list
-- is `Crl.Fetcher.Call`; the files and pools of a server are `Agent.Server.Config.Setup`. The verifications of badges
-- in the client and the server are an argument on the cache that is their state. The hashes of Merkle are parameters,
-- and soundness asks that the hash of a node is injective.
--
-- Fuel: only `Merkle.strip`, a loop that halves a number until it is odd or zero, and decimal digits run on fuel;
-- each is given the number itself, and halving or dividing it by ten ends before that.
--
-- Texts are lists of bytes; the folding of case and the trimming of white space are those of ASCII, where Go's are
-- those of Unicode, so that the theorems about them speak of ASCII.
--
-- Not modelled: the internals of X.509, PEM, CBOR, JSON, HTTP, DNS queries, DNSSEC and TLS; agent cards, the
-- registry client, the set-up and diagnosis of the agent, options that only set a field, logging, the waiting and
-- ending of goroutines, and mocks.
pub mod Base
pub mod Merkle
pub mod Fifo
pub mod Sample
pub mod Scitt
pub mod Models
pub mod Cert
pub mod Failure
pub mod Dane
pub mod BadgeCache
pub mod Ocsp
pub mod Outcome
pub mod Verifier
pub mod Stapling
pub mod TlProof
pub mod Crl
pub mod Agent
pub mod Trust
pub mod Seal
pub mod Gold
pub mod Dns
