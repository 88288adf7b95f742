-- ===== src/Rpc/Tests.antt =====
-- rpc/solana/mod.rs: the methods and their parts at concrete inputs.
use noir_sidecar.Prelude.{All, Occurs}
use noir_sidecar.Prelude.{
  ℕ, ◌≡◌, ◌≢◌, ◌≤◌, refl, ap, String, Bool, true, false, Option, none, some, List, [], ◌∷◌, ◌++◌,
  map, length, inl, inr, arith, unwrap_or, strip_prefix,
}
use noir_sidecar.Prelude.Result.{Result, ok}
use noir_sidecar.Prelude.HashMap.{HashMap, get, insert}
use noir_sidecar.Prelude.Words.{to_le_bytes}
use noir_sidecar.Sdk.{Bytes, Pubkey, Account, RpcFilterType, memcmp, data_size}
use noir_sidecar.Client.Node.{returned}
use noir_sidecar.Client.Calls.{state_call}
use noir_sidecar.Client.Samples.{encode}
use noir_sidecar.Client.Solana
use noir_sidecar.Client.Solana.{get_accounts}
use noir_sidecar.Rpc.Crates.{base58, wire_base64}
use noir_sidecar.Rpc.Verify.{mint}
use noir_sidecar.Rpc.Filters.{get_spl_token_owner_filter, get_spl_token_mint_filter}
use noir_sidecar.Rpc.Filters.Sound.{
  Recognises, get_spl_token_owner_filter-Recognises, get_spl_token_mint_filter-Recognises,
}
use noir_sidecar.Rpc.Encode.{encode_account, decode_and_deserialize}
use noir_sidecar.Rpc.Encode.Limits.{
  EncodesWithin, text_limit, text_decoder, encode_account_lem, decode_and_deserialize-eq-ok,
}
use noir_sidecar.Rpc.Accounts.{
  get_token_program_id_and_mint, get_mint_owner_and_additional_data, filter_known_spl_tokens,
  get_accounts_from_overwrites_or_node,
}
use noir_sidecar.Rpc.Accounts.Overwrites.{resolved, get_accounts_from_overwrites_or_node_lem}
use noir_sidecar.Rpc.Accounts.Programs.{NamesProgram, mint_of, get_token_program_id_and_mint-eq-ok}
use noir_sidecar.Rpc.Accounts.Partition.{filter_known_spl_tokens-any_owner}
use noir_sidecar.Rpc.Tokens.{redundant_filters}
use noir_sidecar.Rpc.Tokens.Pushed.{RawBytesLaws, redundant_filters-recognised}
use noir_sidecar.Rpc.Samples.{mint_filters, wire, node, sample, one_missing}

abbrev owner_filters : List RpcFilterType
owner_filters = data_size 165 ∷ memcmp (sample.new_raw_bytes 32 (9 ∷ [])) ∷ []

get_spl_token_owner_filter-Recognises_example : Recognises sample 32 1 owner_filters 9
unfolding get_spl_token_owner_filter
get_spl_token_owner_filter-Recognises_example =
    get_spl_token_owner_filter-Recognises sample 1 owner_filters 9 refl

get_spl_token_mint_filter-Recognises_example : Recognises sample 0 1 mint_filters 6
unfolding get_spl_token_mint_filter
get_spl_token_mint_filter-Recognises_example =
    get_spl_token_mint_filter-Recognises sample 1 mint_filters 6 refl

abbrev sample_laws : RawBytesLaws sample
sample_laws = record {
  offset = λ o bytes. refl;
  raw = λ o bytes. refl;
  length = λ k. refl;
  read = λ k. refl;
}

redundant_filters-recognised_example :
    (get_spl_token_owner_filter sample 1 (redundant_filters sample 32 9 mint_filters) ≡ some 9)
    × (get_spl_token_mint_filter sample 1 (redundant_filters sample 0 9 mint_filters) ≡ some 9)
redundant_filters-recognised_example =
    redundant_filters-recognised sample 1 9 mint_filters sample_laws refl
      (λ e. absurd (omega (arith, e))) (λ e. absurd (omega (arith, e)))

abbrev token_account : Account
token_account = record {
  lamports = 1;
  contents = 1 ∷ 2 ∷ 3 ∷ [];
  owner = 1;
  executable = false;
  rent_epoch = 0;
}

encode_account_lem_example :
    EncodesWithin sample token_account 5 base58 none
      (encode_account sample token_account 5 base58 none)
encode_account_lem_example = encode_account_lem sample token_account 5 base58 none

abbrev read_sum : ℕ → Bytes → Result String ℕ
read_sum limit wire = ok (length wire)

decode_and_deserialize-eq-ok_example :
    (sample.text_length "text" ≤ text_limit sample wire_base64)
    × (text_decoder sample wire_base64 "text" ≡ ok wire)
    × (length wire ≤ sample.packet_data_size)
    × (read_sum sample.packet_data_size wire ≡ ok 2)
unfolding decode_and_deserialize
decode_and_deserialize-eq-ok_example =
    decode_and_deserialize-eq-ok sample read_sum "ℕ" "text" wire_base64 wire 2 refl

abbrev two_accounts : List (Pubkey × Option Account)
two_accounts = (5, some token_account) ∷ (6, none) ∷ []

abbrev overwritten : Option (HashMap Account)
overwritten = some ((5, token_account) ∷ [])

-- Key 5 is overwritten, key 6 is asked for.
get_accounts_from_overwrites_or_node_lem_example :
    (answered : List (Pubkey × Option Account)) × (get_accounts one_missing (6 ∷ []) (some 1) node
      ≡ (returned (ok answered), (get_accounts one_missing (6 ∷ []) (some 1) node).1))
    × (two_accounts ≡ map (λ k. (k, resolved overwritten answered k)) (5 ∷ 6 ∷ []))
unfolding get_accounts_from_overwrites_or_node get_accounts get insert
    noir_sidecar.Client.Solana.runtime_call state_call strip_prefix encode to_le_bytes
    noir_sidecar.Prelude.HashMap.collect
get_accounts_from_overwrites_or_node_lem_example =
    get_accounts_from_overwrites_or_node_lem sample one_missing overwritten (5 ∷ 6 ∷ []) 1 node
      (get_accounts one_missing (6 ∷ []) (some 1) node).1 two_accounts refl

-- Key 1 is a token program's id, key 5 is the key of a token account.
abbrev program_and_account : List (Pubkey × Option Account)
program_and_account = (1, some token_account) ∷ (5, some token_account) ∷ []

filter_known_spl_tokens-any_owner_example :
    All
      (λ q. sample.is_known_spl_token_id q.0 ≡ true)
      (filter_known_spl_tokens sample program_and_account).0
    × Occurs
        (λ q. q ≡ (5, some token_account))
        (filter_known_spl_tokens sample program_and_account).1
filter_known_spl_tokens-any_owner_example =
    filter_known_spl_tokens-any_owner sample program_and_account (5, some token_account)
      (inr (inl refl)) refl

-- The native mint, which is key 3 here.
get_token_program_id_and_mint-eq-ok_example :
    (sample.is_known_spl_token_id 1 ≡ true)
    × NamesProgram (mint 3) 1
    × ((some 3) ≡ mint_of (mint 3))
unfolding get_token_program_id_and_mint get_mint_owner_and_additional_data
get_token_program_id_and_mint-eq-ok_example =
    get_token_program_id_and_mint-eq-ok sample one_missing (mint 3) 1 node node (1, some 3) refl
