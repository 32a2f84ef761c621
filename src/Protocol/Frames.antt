-- ===== src/Protocol/Frames.antt =====
-- crates/localtrans-core/src/protocol.rs: what is encoded is read back, up to the limit on size.
use localtrans.Base.{
  ◌+◌, ◌-◌, ◌^◌, ◌<◌, ◌≡◌, inl, inr, some, ◌++◌, Bytes, arith, length, leb, if◌then◌else◌, ok, err,
  Option-cases,
}
use localtrans.Base.Words.{u32_be_roundtrip, u32_le_roundtrip, u64_le_roundtrip}
use localtrans.Json.{Json}
use localtrans.Transfer.Manifest.{chunk_size}
use localtrans.Protocol.{
  ControlMsg, ChunkStreamHeader, frame, encode_control, decode_control, decode_control_body, encode,
  decode, message_too_large,
}

module _ (serde : Json ControlMsg) where
  -- A control message whose frame is below 4 GiB decodes to itself if its body has at most 4 MiB,
  -- and is refused as too large otherwise.
  pub decode_control-encode_control :
      (m : ControlMsg) (bytes : Bytes)
      → encode_control serde m ≡ some bytes
      → length bytes < 2 ^ 32
      → decode_control serde bytes ≡ (
          if leb (length bytes) (chunk_size + 4)
          then ok m
          else err (message_too_large (length bytes - 4) (length bytes - 4)))
  unfolding encode_control decode_control decode_control_body frame
  decode_control-encode_control m bytes h small = elim (Option-cases (serde.to_vec m)) [
    | inl e ↦ ground arith
    | inr (body, e) ↦
        ground (arith, serde.from_slice-to_vec m body e, u32_be_roundtrip (length body))
  ]

-- The header of a chunk stream, with a job of 64 and a chunk of 32 bits, decodes to itself from the
-- front of the stream, whatever follows it.
pub decode-encode :
    (h : ChunkStreamHeader) (rest : Bytes)
    → h.job_id < 2 ^ 64
    → h.chunk < 2 ^ 32
    → decode (encode h ++ rest) ≡ ok h
unfolding encode decode
decode-encode h rest job chunk =
    ground (arith, u64_le_roundtrip h.job_id job, u32_le_roundtrip h.chunk chunk)
