-- ===== src/Scitt/Tests.antt =====
-- Caches with one entry.
use alibaba_ati_golang_sdk.Base.{
  ℕ, ◌≡◌, ◌≤◌, [], ◌∷◌, List, none, some, length, codes, if◌then◌else◌, arith,
}
use alibaba_ati_golang_sdk.Base.Int.{pos, lt_int}
use alibaba_ati_golang_sdk.Base.Map.{lookup}
use alibaba_ati_golang_sdk.Scitt.Types.{VerifiedStatusToken, status_active}
use alibaba_ati_golang_sdk.Scitt.ReceiptCache as Receipts
use alibaba_ati_golang_sdk.Scitt.ReceiptCache.Claims.{
  Op, insert_op, invalidate_op, run, history, get-run,
}
use alibaba_ati_golang_sdk.Scitt.TokenCache as Tokens
use alibaba_ati_golang_sdk.Scitt.TokenCache.Claims.{IsValid, new-IsValid, get-insert_token}

abbrev ops : List (Op ℕ)
ops = invalidate_op (codes "b") ∷ insert_op 5 (codes "a") 7 ∷ insert_op 2 (codes "b") 6 ∷ []

get-run_example :
    (Receipts.get 9 (codes "a") (run 10 2 ops)
      ≡ Receipts.answer 9 (lookup (codes "a") (history 10 2 ops)))
    × (Receipts.len (run 10 2 ops) ≡ length (history 10 2 ops))
get-run_example = get-run 10 2 ops 9 (codes "a")

abbrev token : VerifiedStatusToken
token = record {
  payload = record {
    agent_id = codes "a";
    ati_name = codes "ati://v1.0.0.a.example.com";
    status = status_active;
    iat = pos 1;
    exp = pos 9;
    valid_identity_certs = [];
    valid_server_certs = [];
    metadata_hashes = [];
  };
  key_id = [];
}

get-insert_token_example :
    (Tokens.get
        (pos 9)
        (codes "a")
        (Tokens.insert (codes "a") token (Tokens.new_status_token_cache 1))
      ≡ (if lt_int (pos 9) (pos 9) then none else some token))
    × IsValid (Tokens.insert (codes "a") token (Tokens.new_status_token_cache 1))
    × (Tokens.len (Tokens.insert (codes "a") token (Tokens.new_status_token_cache 1)) ≤ 1)
unfolding Tokens.new_status_token_cache
get-insert_token_example =
    get-insert_token (Tokens.new_status_token_cache 1) (codes "a") token (pos 9) (new-IsValid 1)
      (omega arith)
