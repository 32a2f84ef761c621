-- ===== src/Json.antt =====
-- `serde_json` for one message type: what the code relies on is that the parser reads back what the
-- printer wrote. The parser and the printer are parameters of all that uses them.
use localtrans.Base.{Bytes, Option, some, ◌≡◌}

pub record Json (A : Type 0) : Type 0 where
  pub to_vec : A → Option Bytes
  pub from_slice : Bytes → Option A
  pub from_slice-to_vec : (a : A) (b : Bytes) → to_vec a ≡ some b → from_slice b ≡ some a
