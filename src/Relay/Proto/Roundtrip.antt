-- ===== src/Relay/Proto/Roundtrip.antt =====
-- crates/localtrans-core/src/relay/proto.rs: what is encoded is read back.
use localtrans.Base.{
  ℕ, ◌≡◌, inl, inr, [], ◌++◌, Bytes, arith, length, drop, length-append, take-append, drop-append,
  ok, Option-cases,
}
use localtrans.Base.Words.{u32_be_roundtrip}
use localtrans.Json.{Json}
use localtrans.Relay.Proto.{
  RelayMsg, Token, encode_relay_msg, decode_relay_msg, read_relay_frame, data_header_encode,
  data_header_decode,
}

module _ (serde : Json RelayMsg) where
  -- What `encode_relay_msg` returns decodes to the message that was encoded.
  pub decode_relay_msg-encode_relay_msg :
      (msg : RelayMsg) (frame : Bytes)
      → encode_relay_msg serde msg ≡ ok frame
      → decode_relay_msg serde frame ≡ ok msg
  unfolding encode_relay_msg decode_relay_msg
  decode_relay_msg-encode_relay_msg msg frame h = elim (Option-cases (serde.to_vec msg)) [
    | inl e ↦ ground arith
    | inr (body, e) ↦
        ground (arith, serde.from_slice-to_vec msg body e, u32_be_roundtrip (length body))
  ]

  -- A stream that begins with a message that could be encoded is read as that message.
  pub read_relay_frame-encode_relay_msg :
      (msg : RelayMsg) (frame rest : Bytes)
      → encode_relay_msg serde msg ≡ ok frame
      → read_relay_frame serde (frame ++ rest) ≡ ok msg
  unfolding encode_relay_msg decode_relay_msg read_relay_frame
  read_relay_frame-encode_relay_msg msg frame rest h = elim (Option-cases (serde.to_vec msg)) [
    | inl e ↦ ground arith
    | inr (body, e) ↦ ground (
      arith,
      serde.from_slice-to_vec msg body e,
      u32_be_roundtrip (length body),
      take-append body rest,
      length-append body rest,
    )
  ]

-- A packet made of a header for a 16-byte token and a payload decodes to that token and flag, and
-- the payload stands behind the first 18 bytes.
pub data_header_decode-data_header_encode :
    (token : Token) (flag : ℕ) (payload : Bytes)
    → length token ≡ 16
    → (data_header_decode (data_header_encode [] token flag ++ payload) ≡ ok (token, flag))
      × (drop 18 (data_header_encode [] token flag ++ payload) ≡ payload)
unfolding data_header_encode data_header_decode
data_header_decode-data_header_encode token flag payload h = (
  ground (arith, length-append token payload, rw h at (take-append token payload)),
  rw h at (drop-append token payload),
)
