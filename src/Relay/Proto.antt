-- ===== src/Relay/Proto.antt =====
-- crates/localtrans-core/src/relay/proto.rs: the control messages and the 18-byte header of the
-- data plane. `serde_json` is a parameter: a printer and a parser with the one law that the code
-- relies on, that the parser reads back what the printer wrote.
pub mod Roundtrip
use localtrans.Base.{
  ℕ, ◌*◌, Bool, Option, List, ◌∷◌, ◌++◌, String, Bytes, if◌then◌else◌, ltb, leb, ◌==◌, length, take,
  Result, ok, err, ◌>>=◌, ◌>>◌, guard, ok_or,
}
use localtrans.Base.Words.{u32_to_be_bytes, u32_from_be_bytes}
use localtrans.Json.{Json}
use localtrans.Net.{SocketAddr}

-- `[u8; 32]`
abbrev pub Fingerprint : Type 0
Fingerprint = Bytes

-- `[u8; 16]`
abbrev pub Token : Type 0
Token = Bytes

abbrev pub data_header_len : ℕ
data_header_len = 18

abbrev pub data_version : ℕ
data_version = 1

abbrev pub flag_knock : ℕ
flag_knock = 1

abbrev pub flag_goodbye_knock : ℕ
flag_goodbye_knock = 2

abbrev pub flag_data : ℕ
flag_data = 0

pub record LeaseInfo : Type 0 where
  pub data_port : ℕ
  pub token : Token

pub record RemoteDevice : Type 0 where
  pub fingerprint : Fingerprint
  pub name : String
  pub lease_addr : SocketAddr
  pub relayed_ephemeral : Bool

pub data RelayMsg : Type 0 where
  register : String → Fingerprint → Bool → Bytes → Bytes → RelayMsg
  ping : RelayMsg
  punch : Fingerprint → RelayMsg
  leave : RelayMsg
  server_nonce : Bytes → RelayMsg
  register_ack : Option LeaseInfo → Option String → RelayMsg
  roster : ℕ → List RemoteDevice → RelayMsg
  punch_notif : Fingerprint → SocketAddr → RelayMsg
  punch_resp : Bool → Option String → Option String → RelayMsg
  error : ℕ → String → RelayMsg

-- Why a message or a packet is refused.
pub data CodecError : Type 0 where
  too_large too_short length_mismatch json header_short bad_version frame_too_long : CodecError

abbrev pub max_frame : ℕ
max_frame = 64 * 1024

module _ (serde : Json RelayMsg) where
  unfoldable pub encode_relay_msg : RelayMsg → Result CodecError Bytes
  unfolding u32_to_be_bytes
  encode_relay_msg msg = do
    body ← ok_or (serde.to_vec msg) json
    guard (leb (length body) max_frame) too_large
    ok (u32_to_be_bytes (length body) ++ body)

  decode_body : Bytes → Result CodecError RelayMsg
  decode_body body = ok_or (serde.from_slice body) json

  unfoldable pub decode_relay_msg : Bytes → Result CodecError RelayMsg
  unfolding decode_body u32_from_be_bytes
  decode_relay_msg (a ∷ b ∷ c ∷ d ∷ body) =
      if length body == u32_from_be_bytes a b c d then decode_body body else err length_mismatch
  decode_relay_msg _ = err too_short

  -- crates/localtrans-relay/src/control.rs: one frame from the front of a stream.
  unfoldable pub read_relay_frame : Bytes → Result CodecError RelayMsg
  unfolding u32_from_be_bytes
  read_relay_frame (a ∷ b ∷ c ∷ d ∷ rest) = do
    let len = u32_from_be_bytes a b c d
    guard (leb len max_frame) frame_too_long
    guard (leb len (length rest)) too_short
    decode_relay_msg (a ∷ b ∷ c ∷ d ∷ take len rest)
  read_relay_frame _ = err too_short

-- `data_header_encode` appends the header to `out`.
unfoldable pub data_header_encode : Bytes → Token → ℕ → Bytes
data_header_encode out token flag = out ++ (data_version ∷ flag ∷ token)

header_fields : Bytes → Result CodecError (Token × ℕ)
header_fields (version ∷ flag ∷ rest) =
    if version == data_version then ok (take 16 rest, flag) else err bad_version
header_fields _ = err header_short

unfoldable pub data_header_decode : Bytes → Result CodecError (Token × ℕ)
unfolding header_fields
data_header_decode buf =
    if ltb (length buf) data_header_len then err header_short else header_fields buf
