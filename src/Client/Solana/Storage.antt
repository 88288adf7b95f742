-- ===== src/Client/Solana/Storage.antt =====
-- client/solana.rs, `get_slot`, `get_timestamp`: numbers read from the node's storage.
use Prim.Native.String
use noir_sidecar.Prelude.{
  ℕ, ◌^◌, ◌<◌, ◌≡◌, ◌≢◌, String, some, [], ◌∷◌, length, ◌∙◌, arith, strip_prefix-append, ◌==◌,
  false,
}
use noir_sidecar.Prelude.Result.{ok}
use noir_sidecar.Prelude.Words.{to_le_bytes, as_i64, length-to_le_bytes, from_le_bytes-to_le_bytes}
use noir_sidecar.Sdk.{Bytes}
use noir_sidecar.Client.{Hash, text, hash, Request, Value}
use noir_sidecar.Client.Node.{Node, returned, panicked, answered}
use noir_sidecar.Client.Codec.{Codec}
use noir_sidecar.Client.Calls.Replies.{HexLaws}
use noir_sidecar.Client.Calls.{new_request, request, strip_0x}
use noir_sidecar.Client.Solana.{
  timestamp_key, slot_key, u64_of_bytes, read_storage, get_timestamp, get_slot,
}

abbrev pub storage_request : String → Hash → Node → Request
storage_request key at_hash n =
    new_request "state_getStorage" (text key ∷ hash (some at_hash) ∷ []) n.sent

-- The node answers with `bytes` under `key`, as the text 0x and hex digits.
pub record Stores (codec : Codec) (n : Node) (key : String) (at_hash : Hash) (bytes : Bytes)
    : Type 0 where
  pub value : Value
  pub delivered : n.deliver n.sent (storage_request key at_hash n) ≡ answered (ok value)
  pub parsed :
      codec.from_value_optional_string value ≡ ok (some (String.◌++◌ "0x" (codec.hex_encode bytes)))

module _ (codec : Codec) (laws : HexLaws codec) (n : Node) (at_hash : Hash) where
  abbrev after : String → Node
  after key = record n { sent = storage_request key at_hash n ∷ n.sent }

  read_storage-Stores :
      (key missing : String) (bytes : Bytes)
      → Stores codec n key at_hash bytes
      → read_storage codec key missing at_hash n ≡ u64_of_bytes bytes (after key)
  unfolding read_storage request strip_0x
  read_storage-Stores key missing bytes st = rw (
    st.delivered,
    st.parsed,
    strip_prefix-append "0x" (codec.hex_encode bytes),
    laws.decode-encode bytes,
  )

  u64_of_bytes_le :
      (s : ℕ) (m : Node) → s < 2 ^ 64 → u64_of_bytes (to_le_bytes 8 s) m ≡ (returned (ok s), m)
  u64_of_bytes_le s m h = rw (length-to_le_bytes 8 s) (rw (from_le_bytes-to_le_bytes 8 s h))

  -- The slot that the runtime stored, as eight little-endian bytes, is the slot that is read, with
  -- one request.
  pub get_slot_lem :
      (s : ℕ)
      → s < 2 ^ 64
      → Stores codec n slot_key at_hash (to_le_bytes 8 s)
      → get_slot codec at_hash n
        ≡ (returned (ok s), record n { sent = storage_request slot_key at_hash n ∷ n.sent })
  unfolding get_slot
  get_slot_lem s h st =
      read_storage-Stores slot_key "Solana slot not exist" _ st
      ∙ u64_of_bytes_le s (after slot_key) h

  -- The timestamp that the runtime stored, as eight little-endian bytes, is what is read, its 64 bits
  -- taken as a signed number, with one request.
  pub get_timestamp_lem :
      (s : ℕ)
      → s < 2 ^ 64
      → Stores codec n timestamp_key at_hash (to_le_bytes 8 s)
      → get_timestamp codec at_hash n ≡ (
        returned (ok (as_i64 s)),
        record n { sent = storage_request timestamp_key at_hash n ∷ n.sent },
      )
  unfolding get_timestamp
  get_timestamp_lem s h st = rw (
    read_storage-Stores timestamp_key "Timestamp not exist" _ st,
    u64_of_bytes_le s (after timestamp_key) h,
  )

  -- A stored value of any other length than eight bytes makes both readers panic.
  pub get_slot_malformed :
      (slot_bytes time_bytes : Bytes)
      → length slot_bytes ≢ 8
      → length time_bytes ≢ 8
      → Stores codec n slot_key at_hash slot_bytes
      → Stores codec n timestamp_key at_hash time_bytes
      → ((get_slot codec at_hash n).0 ≡ panicked) × ((get_timestamp codec at_hash n).0 ≡ panicked)
  unfolding get_slot get_timestamp
  get_slot_malformed slot_bytes time_bytes h k st tt' = (
    rw (read_storage-Stores slot_key "Solana slot not exist" slot_bytes st, short slot_bytes h),
    rw (read_storage-Stores timestamp_key "Timestamp not exist" time_bytes tt', short time_bytes k),
  )
    where
      short : (bytes : Bytes) → length bytes ≢ 8 → (length bytes == 8) ≡ false
      short bytes e = ground arith
