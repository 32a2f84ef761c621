-- ===== src/Session/Stream/Messages.antt =====
-- crates/localtrans-core/src/session.rs and protocol.rs: what is sent on a control stream is received.
use localtrans.Base.{
  ◌+◌, ◌≤◌, ◌<◌, ◌≡◌, ap, ◌∙◌, inl, inr, some, List, [], ◌∷◌, ◌++◌, Bytes, arith, length,
  length-append, take-append, drop-append, concat, All, ok, Option-cases,
}
use localtrans.Base.Words.{u32_be_roundtrip}
use localtrans.Json.{Json}
use localtrans.Transfer.Manifest.{chunk_size}
use localtrans.Protocol.{ControlMsg, frame, encode_control, decode_control_body}
use localtrans.Session.Stream.{take_body, take_msg, on_read, on_reads, send_all}
use localtrans.Session.Stream.Pieces.{on_reads-concat, on_read-some, on_read-nil}

module _ (serde : Json ControlMsg) where
  -- The body of the message is not empty and has at most 4 MiB.
  unfoldable pub Fits : ControlMsg → Type 0
  Fits m =
      (bytes : Bytes)
      → encode_control serde m ≡ some bytes
      → (4 < length bytes) × (length bytes ≤ chunk_size + 4)

  take_msg-encode_control :
      (m : ControlMsg) (bytes rest : Bytes)
      → encode_control serde m ≡ some bytes
      → Fits m
      → take_msg serde (bytes ++ rest) ≡ ok (some (m, rest))
  unfolding take_msg take_body encode_control frame decode_control_body Fits
  take_msg-encode_control m bytes rest h fits = elim (Option-cases (serde.to_vec m)) [
    | inl e ↦ ground arith
    | inr (body, e) ↦ ground (
      arith,
      fits bytes h,
      serde.from_slice-to_vec m body e,
      u32_be_roundtrip (length body),
      take-append body rest,
      drop-append body rest,
      length-append body rest,
    )
  ]

  on_read-send_all :
      (ms : List ControlMsg) (sent : Bytes)
      → All Fits ms
      → send_all serde ms ≡ some sent
      → on_read serde [] sent ≡ (ms, some [])
  unfolding send_all
  on_read-send_all [] sent fits h = ground (arith, on_read-nil serde)
  on_read-send_all (m ∷ ms) sent fits h = elim (Option-cases (encode_control serde m)) [
    | inl e ↦ ground arith
    | inr (bytes, e) ↦ elim (Option-cases (send_all serde ms)) [
      | inl f ↦ ground arith
      | inr (more, f) ↦
          let first = take_msg-encode_control m bytes more e fits.0 in
          let step = on_read-some serde (bytes ++ more) more m first in
          ground (arith, step, on_read-send_all ms more fits.1 f)
    ]
  ]

  -- The messages of a list whose frames fit are received, in their order and with no byte left
  -- over, from what `send_all` writes, into whatever pieces the stream cuts it.
  pub on_reads-send_all :
      (ms : List ControlMsg) (sent : Bytes) (chunks : List Bytes)
      → All Fits ms
      → send_all serde ms ≡ some sent
      → concat chunks ≡ sent
      → on_reads serde [] chunks ≡ (ms, some [])
  on_reads-send_all ms sent chunks fits h pieces =
      on_reads-concat serde chunks ∙ ap (on_read serde []) pieces ∙ on_read-send_all ms sent fits h
