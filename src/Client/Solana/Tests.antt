-- ===== src/Client/Solana/Tests.antt =====
-- client/mod.rs, client/solana.rs: the calls against a node with known answers.
use Prim.Native.String
use noir_sidecar.Prelude.{◌≡◌, refl, String, [], ◌∷◌, strip_prefix, arith}
use noir_sidecar.Prelude.Result.{ok}
use noir_sidecar.Prelude.Words.{to_le_bytes, from_le_bytes}
use noir_sidecar.Client.Node.{returned, panicked}
use noir_sidecar.Client.Calls.{request, strip_0x}
use noir_sidecar.Client.Samples.{plain, plain-HexLaws, constant_node, encode, decode}
use noir_sidecar.Client.Solana.{get_slot, get_timestamp, slot_key, timestamp_key}
use noir_sidecar.Client.Solana.Storage.{Stores, get_slot_malformed}

-- The value 258 as eight bytes, behind 0x.
abbrev stored : String
stored = String.◌++◌ "0x" (plain.hex_encode (to_le_bytes 8 258))

slot_test : (get_slot plain 1 (constant_node stored)).0 ≡ returned (ok 258)
unfolding get_slot encode decode to_le_bytes from_le_bytes strip_prefix request strip_0x
slot_test = refl

abbrev holds : (key : String) → Stores plain (constant_node stored) key 1 (to_le_bytes 8 258)
holds key = record { value = stored; delivered = refl; parsed = refl }

abbrev short : String
short = String.◌++◌ "0x" (plain.hex_encode (1 ∷ 2 ∷ []))

abbrev holds_short : (key : String) → Stores plain (constant_node short) key 1 (1 ∷ 2 ∷ [])
holds_short key = record { value = short; delivered = refl; parsed = refl }

get_slot_malformed_example :
    ((get_slot plain 1 (constant_node short)).0 ≡ panicked)
    × ((get_timestamp plain 1 (constant_node short)).0 ≡ panicked)
get_slot_malformed_example =
    get_slot_malformed plain plain-HexLaws (constant_node short) 1 (1 ∷ 2 ∷ []) (1 ∷ 2 ∷ [])
      (λ e. absurd (omega (arith, e))) (λ e. absurd (omega (arith, e))) (holds_short slot_key)
      (holds_short timestamp_key)
