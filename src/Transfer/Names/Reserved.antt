-- ===== src/Transfer/Names/Reserved.antt =====
-- crates/localtrans-core/src/transfer/mod.rs: the names that Windows keeps for devices.
use localtrans.Base.{List, [], ◌∷◌, String}

abbrev pub reserved : List String
reserved =
    "CON" ∷ "PRN" ∷ "AUX" ∷ "NUL" ∷ "COM1" ∷ "COM2" ∷ "COM3" ∷ "COM4" ∷ "COM5" ∷ "COM6" ∷ "COM7"
    ∷ "COM8" ∷ "COM9" ∷ "LPT1" ∷ "LPT2" ∷ "LPT3" ∷ "LPT4" ∷ "LPT5" ∷ "LPT6" ∷ "LPT7" ∷ "LPT8"
    ∷ "LPT9" ∷ []
