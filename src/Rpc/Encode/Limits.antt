-- ===== src/Rpc/Encode/Limits.antt =====
-- rpc/solana/mod.rs, `encode_account`, `decode_and_deserialize`: the limits.
use noir_sidecar.Prelude.{
  ℕ, zero, suc, ◌-◌, ◌≤◌, ◌<◌, ◌≡◌, ◌⊎◌, refl, ◌||◌, ◌∙◌, subst, ltb→lt, String, true, false,
  Option, none, some, [], ◌∷◌, length, ltb, arith, inl, inr, Bool-cases, min,
}
use noir_sidecar.Prelude.Result.{Result, ok, err, map_err, >>=-eq-ok}
use noir_sidecar.Sdk.{Bytes, Pubkey, Account}
use noir_sidecar.Rpc.{invalid_req, ErrorObject, RpcResult}
use noir_sidecar.Rpc.Crates.{
  Crates, UiAccountEncoding, binary, base58, base64, json_parsed, base64_zstd, UiDataSliceConfig,
  UiAccount, TransactionBinaryEncoding, wire_base58, wire_base64,
}
use noir_sidecar.Rpc.Verify.{invalid_request, invalid_params}
use noir_sidecar.Rpc.Encode.{
  ◌+++◌, is_binary, is_base58, sliced_length, encode_account, max_base58_size, max_base64_size,
  decode_text, decode_wire, deserialize_wire, decode_and_deserialize,
}

-- The part of the data that a slice selects, where the offset may lie behind the end.
abbrev pub drop : ℕ → Bytes → Bytes
drop zero xs = xs
drop (suc n) [] = []
drop (suc n) (x ∷ xs) = drop n xs

abbrev pub take : ℕ → Bytes → Bytes
take zero xs = []
take (suc n) [] = []
take (suc n) (x ∷ xs) = x ∷ take n xs

abbrev pub slice : Option UiDataSliceConfig → Bytes → Bytes
slice none xs = xs
slice (some s) xs = take s.length (drop s.offset xs)

length-drop : (n : ℕ) (xs : Bytes) → length (drop n xs) ≡ length xs - n
length-drop zero xs = omega arith
length-drop (suc n) [] = omega arith
length-drop (suc n) (x ∷ xs) = omega (arith, length-drop n xs)

length-take : (n : ℕ) (xs : Bytes) → length (take n xs) ≡ min n (length xs)
length-take zero xs = omega arith
length-take (suc n) [] = omega arith
length-take (suc n) (x ∷ xs) = omega (arith, length-take n xs)

length-slice :
    (data_slice : Option UiDataSliceConfig) (xs : Bytes)
    → length (slice data_slice xs) ≡ sliced_length data_slice (length xs)
length-slice none xs = refl
length-slice (some s) xs =
    omega (arith, length-take s.length (drop s.offset xs), length-drop s.offset xs)

-- The two encodings that print base 58.
abbrev pub PrintsBase58 : UiAccountEncoding → Type 0
PrintsBase58 encoding = (encoding ≡ binary) ⊎ (encoding ≡ base58)

-- The two outcomes of `encode_account`.
abbrev pub EncodesWithin :
    Crates
    → Account
    → Pubkey
    → UiAccountEncoding
    → Option UiDataSliceConfig
    → RpcResult UiAccount
    → Type 0
EncodesWithin crates account pubkey encoding data_slice r =
    (PrintsBase58 encoding
      × (crates.max_base58_bytes < length (slice data_slice account.contents))
      × ((e : ErrorObject) × (r ≡ err e) × (e.code ≡ invalid_req)))
    ⊎ ((¬ (
          PrintsBase58 encoding
          × (crates.max_base58_bytes < length (slice data_slice account.contents))))
        × (r ≡ ok (crates.encode_ui_account pubkey account encoding none data_slice)))

module _ (crates : Crates) where
  prints-within :
      (account : Account) (pubkey : Pubkey) (encoding : UiAccountEncoding)
      (data_slice : Option UiDataSliceConfig)
      → PrintsBase58 encoding
      → (is_binary encoding || is_base58 encoding) ≡ true
      → EncodesWithin crates account pubkey encoding data_slice
          (encode_account crates account pubkey encoding data_slice)
  unfolding encode_account invalid_request
  prints-within account pubkey encoding data_slice prints tests =
      elim (Bool-cases
        (ltb crates.max_base58_bytes (sliced_length data_slice (length account.contents)))) [
          | inl long ↦
              rw (tests, long)
                (inl (
                  prints,
                  omega (arith, length-slice data_slice account.contents, ltb→lt _ _ long),
                  (_, refl, refl),
                ))
          | inr short ↦
              rw (tests, short)
                (inr (λ h. lt_not_ltb (length-slice data_slice account.contents) short h.1, refl))
        ]
    where
      lt_not_ltb : {a b c : ℕ} → b ≡ c → ltb a c ≡ false → a < b → ⊥
      lt_not_ltb e h l = ground (arith, e, h, l)

  -- An account is refused, as an invalid request, exactly when it is to be printed in base 58 and the
  -- selected part of its data has more bytes than the crates print; otherwise it is encoded as asked.
  pub encode_account_lem :
      (account : Account) (pubkey : Pubkey) (encoding : UiAccountEncoding)
      (data_slice : Option UiDataSliceConfig)
      → EncodesWithin crates account pubkey encoding data_slice
          (encode_account crates account pubkey encoding data_slice)
  unfolding encode_account
  encode_account_lem account pubkey binary data_slice =
      prints-within account pubkey binary data_slice (inl refl) refl
  encode_account_lem account pubkey base58 data_slice =
      prints-within account pubkey base58 data_slice (inr refl) refl
  encode_account_lem account pubkey base64 data_slice = inr ((λ h. not_printed h.0), refl)
    where
      not_printed : ¬ PrintsBase58 base64
      not_printed h = ground arith
  encode_account_lem account pubkey json_parsed data_slice = inr ((λ h. not_printed h.0), refl)
    where
      not_printed : ¬ PrintsBase58 json_parsed
      not_printed h = ground arith
  encode_account_lem account pubkey base64_zstd data_slice = inr ((λ h. not_printed h.0), refl)
    where
      not_printed : ¬ PrintsBase58 base64_zstd
      not_printed h = ground arith

  -- The limit on an encoded text, and its decoder.
  abbrev pub text_limit : TransactionBinaryEncoding → ℕ
  text_limit wire_base58 = max_base58_size
  text_limit wire_base64 = max_base64_size

  abbrev pub text_decoder : TransactionBinaryEncoding → String → Result String Bytes
  text_decoder wire_base58 = crates.bs58_decode
  text_decoder wire_base64 = crates.base64_decode

  map_err-eq-ok :
      {E F A : Type 0} (f : E → F) (r : Result E A) {a : A} → map_err f r ≡ ok a → r ≡ ok a
  map_err-eq-ok f (ok b) h = ground arith
  map_err-eq-ok f (err e) h = cc

  decode_text-eq-ok :
      (kind : String) (limit : ℕ) (decoder : String → Result String Bytes)
      (type_name encoded : String) (wire : Bytes)
      → decode_text crates kind limit decoder type_name encoded ≡ ok wire
      → (crates.text_length encoded ≤ limit) × (decoder encoded ≡ ok wire)
  unfolding decode_text
  decode_text-eq-ok kind limit decoder type_name encoded wire h =
      elim (Bool-cases (ltb limit (crates.text_length encoded))) [
        | inl long ↦ absurd (ground (arith, long))
        | inr fits ↦ (
          ground (arith, fits),
          map_err-eq-ok
              (λ e. invalid_params crates (some ("invalid " +++ kind +++ " encoding: " +++ e)))
              (decoder encoded) (ground (arith, fits)),
        )
      ]

  decode_wire-eq-ok :
      (encoding : TransactionBinaryEncoding) (type_name encoded : String) (wire : Bytes)
      → decode_wire crates encoding type_name encoded ≡ ok wire
      → (crates.text_length encoded ≤ text_limit encoding)
        × (text_decoder encoding encoded ≡ ok wire)
  unfolding decode_wire
  decode_wire-eq-ok wire_base58 type_name encoded wire h =
      decode_text-eq-ok "base58" max_base58_size crates.bs58_decode type_name encoded wire h
  decode_wire-eq-ok wire_base64 type_name encoded wire h =
      decode_text-eq-ok "base64" max_base64_size crates.base64_decode type_name encoded wire h

  module _ {T : Type 0} (deserialize : ℕ → Bytes → Result String T) (type_name : String) where
    deserialize_wire-eq-ok :
        (wire' wire : Bytes) (output : T)
        → deserialize_wire crates deserialize type_name wire' ≡ ok (wire, output)
        → (wire' ≡ wire)
          × (length wire' ≤ crates.packet_data_size)
          × (deserialize crates.packet_data_size wire' ≡ ok output)
    unfolding deserialize_wire
    deserialize_wire-eq-ok wire' wire output h =
        elim (Bool-cases (ltb crates.packet_data_size (length wire'))) [
          | inl long ↦ absurd (ground (arith, long))
          | inr fits ↦
              let (o, read, pair) = >>=-eq-ok _ _ (rw fits at h) in
              (ground arith, ground (arith, fits), map_err-eq-ok _ _ (read ∙ ground arith))
        ]

    -- What is accepted is within every limit: the text is no longer than its encoding's limit, it
    -- decodes to the wire bytes that are returned, these fit into a packet, and the value is what
    -- they deserialize to under that limit.
    pub decode_and_deserialize-eq-ok :
        (encoded : String) (encoding : TransactionBinaryEncoding) (wire : Bytes) (output : T)
        → decode_and_deserialize crates deserialize type_name encoded encoding ≡ ok (wire, output)
        → (crates.text_length encoded ≤ text_limit encoding)
          × (text_decoder encoding encoded ≡ ok wire)
          × (length wire ≤ crates.packet_data_size)
          × (deserialize crates.packet_data_size wire ≡ ok output)
    unfolding decode_and_deserialize
    decode_and_deserialize-eq-ok encoded encoding wire output h =
        let (wire', decoded, rest) =
          >>=-eq-ok (decode_wire crates encoding type_name encoded)
            (deserialize_wire crates deserialize type_name) h in
        let (short, text_ok) = decode_wire-eq-ok encoding type_name encoded wire' decoded in
        let (same, fits, read) = deserialize_wire-eq-ok wire' wire output rest in
        (
          short,
          subst (λ w. text_decoder encoding encoded ≡ ok w) same text_ok,
          subst (λ w. length w ≤ crates.packet_data_size) same fits,
          subst (λ w. deserialize crates.packet_data_size w ≡ ok output) same read,
        )
