-- ===== src/Session/Stream.antt =====
-- crates/localtrans-core/src/session.rs: how `ctrl_loop` cuts the bytes of the control stream into
-- messages, whatever pieces they come in.
pub mod Pieces
pub mod Messages
use localtrans.Base.{
  ℕ, zero, suc, ◌+◌, Bool, Option, none, some, List, [], ◌∷◌, ◌++◌, Bytes, if◌then◌else◌, ltb, ◌==◌,
  ◌||◌, length, take, drop, Result, ok, err,
}
use localtrans.Base.Words.{u32_from_be_bytes}
use localtrans.Json.{Json}
use localtrans.Transfer.Manifest.{chunk_size}
use localtrans.Protocol.{ControlMsg, encode_control, decode_control_body}

-- The one error of the stream, `ConnectionError::Reset`.
pub data StreamError : Type 0 where
  reset : StreamError

module _ (serde : Json ControlMsg) where
  -- The body of a message with a declared length.
  unfoldable pub take_body : ℕ → Bytes → Result StreamError (Option (ControlMsg × Bytes))
  unfolding decode_control_body
  take_body len rest =
      if len == 0 || ltb chunk_size len
      then err reset
      else if ltb (length rest) len
      then ok none
      else elim (decode_control_body serde (take len rest)) [
        | ok m ↦ ok (some (m, drop len rest))
        | err _ ↦ err reset
      ]

  -- A message and the bytes behind it; none if there is no complete message.
  unfoldable pub take_msg : Bytes → Result StreamError (Option (ControlMsg × Bytes))
  unfolding take_body u32_from_be_bytes
  take_msg (a ∷ b ∷ c ∷ d ∷ rest) = take_body (u32_from_be_bytes a b c d) rest
  take_msg _ = ok none

  -- `while let Some(msg) = take_msg(..)`: the messages in the buffer, and what is left of it, or none
  -- after a bad message. The number of rounds is at most the length of the buffer.
  unfoldable pub drain : ℕ → Bytes → List ControlMsg × Option Bytes
  unfolding take_msg
  drain zero inbuf = ([], some inbuf)
  drain (suc n) inbuf = elim (take_msg inbuf) [
    | err _ ↦ ([], none)
    | ok none ↦ ([], some inbuf)
    | ok (some (m, rest)) ↦ let more = drain n rest in (m ∷ more.0, more.1)
  ]

  -- A read of the control stream: the buffer before and the bytes that have come.
  unfoldable pub on_read : Bytes → Bytes → List ControlMsg × Option Bytes
  unfolding drain
  on_read inbuf chunk = drain (length (inbuf ++ chunk)) (inbuf ++ chunk)

  -- The reads one after the other, up to the first bad message.
  unfoldable pub on_reads : Bytes → List Bytes → List ControlMsg × Option Bytes
  unfolding on_read
  on_reads inbuf [] = ([], some inbuf)
  on_reads inbuf (chunk ∷ chunks) =
      let step = on_read inbuf chunk in
      elim step.1 [
        | none ↦ (step.0, none)
        | some left ↦ let more = on_reads left chunks in (step.0 ++ more.0, more.1)
      ]

  -- The bytes of `send_all`, for one message after the other.
  unfoldable pub send_all : List ControlMsg → Option Bytes
  unfolding encode_control
  send_all [] = some []
  send_all (m ∷ ms) =
      let rest = send_all ms in
      elim (encode_control serde m) [
        | none ↦ none
        | some bytes ↦ elim rest [ none ↦ none | some more ↦ some (bytes ++ more) ]
      ]
