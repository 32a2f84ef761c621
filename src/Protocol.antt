-- ===== src/Protocol.antt =====
-- crates/localtrans-core/src/protocol.rs: the control messages of two devices, their frames, and the
-- headers of chunk streams. The texts of parse errors are left out.
pub mod Frames
use localtrans.Base.{
  ℕ, ◌-◌, Bool, Option, none, some, List, [], ◌∷◌, ◌++◌, String, Bytes, if◌then◌else◌, ltb, leb,
  ◌==◌, not, length, Result, ok, err, ok_or,
}
use localtrans.Base.Words.{
  u32_to_be_bytes, u32_from_be_bytes, u32_to_le_bytes, u32_from_le_bytes, u64_to_le_bytes,
  u64_from_le_bytes,
}
use localtrans.Json.{Json}
use localtrans.Transfer.Manifest.{chunk_size}

abbrev pub chunk_header_len : ℕ
chunk_header_len = 12

pub data ProtocolError : Type 0 where
  message_too_large : ℕ → ℕ → ProtocolError
  length_mismatch : ℕ → ℕ → ProtocolError
  truncated json_error invalid_data : ProtocolError

pub data OfferDenyReason : Type 0 where
  denied timeout : OfferDenyReason

pub data TransferAction : Type 0 where
  pause resume cancel : TransferAction
  throttle : ℕ → TransferAction

pub record FileEntry : Type 0 where
  pub name : String
  pub is_dir : Bool
  pub size : ℕ
  pub mtime : ℕ

pub record ShareInfo : Type 0 where
  pub id : String
  pub alias : String

pub record OfferFile : Type 0 where
  pub name : String
  pub size : ℕ
  pub rel_dir : String
  pub hash : Option String

-- The fields of a variant in the order of the source.
pub data ControlMsg : Type 0 where
  hello : String → String → ControlMsg
  pair_code_submit : String → ControlMsg
  pair_result : Bool → ControlMsg
  consent_grant : String → ControlMsg
  consent_deny consent_cancel : ControlMsg
  list_req : String → String → ℕ → ℕ → ControlMsg
  list_resp : List FileEntry → Option ℕ → ℕ → ControlMsg
  shares_req : ℕ → ControlMsg
  shares_resp : List ShareInfo → ℕ → ControlMsg
  shares_changed : String → ControlMsg
  meta_req : String → String → ℕ → ControlMsg
  meta_resp : ℕ → String → ℕ → List String → Option String → ℕ → ControlMsg
  fetch_req : ℕ → ℕ → ControlMsg
  offer_req : ℕ → List OfferFile → ControlMsg
  offer_resp : Bool → Option String → Option OfferDenyReason → List Bool → ControlMsg
  bitmap_req : ℕ → ControlMsg
  bitmap_resp : ℕ → Bytes → ControlMsg
  transfer_ctl : ℕ → TransferAction → ControlMsg
  job_done : ℕ → ℕ → ControlMsg
  recv_ack : ℕ → ControlMsg
  recv_progress : ℕ → ℕ → ControlMsg
  job_failed : ℕ → String → ControlMsg
  share_rename : String → String → String → ℕ → ControlMsg
  share_delete : String → String → ℕ → ControlMsg
  share_mkdir : String → String → ℕ → ControlMsg
  share_op_result : Bool → Option String → ℕ → ControlMsg
  goodbye trust_broken : ControlMsg
  ping pong : ℕ → ControlMsg
  probe_req : ℕ → ℕ → ControlMsg
  probe_resp : ℕ → ControlMsg

-- The frame of a body: its length, cut to 32 bits, and the body.
unfoldable pub frame : Bytes → Bytes
unfolding u32_to_be_bytes
frame body = u32_to_be_bytes (length body) ++ body

module _ (serde : Json ControlMsg) where
  -- None where `expect` panics.
  unfoldable pub encode_control : ControlMsg → Option Bytes
  unfolding frame
  encode_control m = elim (serde.to_vec m) [ none ↦ none | some json ↦ some (frame json) ]

  unfoldable pub decode_control_body : Bytes → Result ProtocolError ControlMsg
  decode_control_body body =
      if ltb chunk_size (length body)
      then err (message_too_large (length body) (length body))
      else ok_or (serde.from_slice body) json_error

  unfoldable pub decode_control : Bytes → Result ProtocolError ControlMsg
  unfolding decode_control_body u32_from_be_bytes
  decode_control (a ∷ b ∷ c ∷ d ∷ body) =
      let declared_len = u32_from_be_bytes a b c d in
      if not (declared_len == length body)
      then err (length_mismatch declared_len (length body))
      else decode_control_body body
  decode_control _ = err truncated

pub record ChunkStreamHeader : Type 0 where
  pub job_id : ℕ
  pub chunk : ℕ

unfoldable pub encode : ChunkStreamHeader → Bytes
unfolding u64_to_le_bytes u32_to_le_bytes
encode h = u64_to_le_bytes h.job_id ++ u32_to_le_bytes h.chunk

unfoldable pub decode : Bytes → Result ProtocolError ChunkStreamHeader
unfolding u64_from_le_bytes u32_from_le_bytes
decode (a ∷ b ∷ c ∷ d ∷ e ∷ f ∷ g ∷ h ∷ i ∷ j ∷ k ∷ l ∷ _) =
    ok (record { job_id = u64_from_le_bytes a b c d e f g h; chunk = u32_from_le_bytes i j k l })
decode _ = err truncated
