-- ===== src/Index/Key/Text/Weights.antt =====
-- crates/jet3/src/index/key/text_weights.rs: the primary weights of General keys; zero marks an undefined
-- byte.
use jet3_rs.Common.{ℕ, List, [], ◌∷◌}

abbrev pub primary_weights : List ℕ
primary_weights =
    0x10 ∷ 0x10 ∷ 0x10 ∷ 0x10 ∷ 0x10 ∷ 0x10 ∷ 0x10 ∷ 0x10 ∷ 0x10 ∷ 0x11 ∷ 0x10 ∷ 0x10 ∷ 0x10 ∷ 0x10
    ∷ 0x10 ∷ 0x10 ∷ 0x10 ∷ 0x10 ∷ 0x10 ∷ 0x10 ∷ 0x10 ∷ 0x10 ∷ 0x10 ∷ 0x10 ∷ 0x10 ∷ 0x10 ∷ 0x10
    ∷ 0x10 ∷ 0x10 ∷ 0x10 ∷ 0x10 ∷ 0x10 ∷ 0x11 ∷ 0x12 ∷ 0x13 ∷ 0x14 ∷ 0x15 ∷ 0x16 ∷ 0x17 ∷ 0x18
    ∷ 0x19 ∷ 0x1a ∷ 0x1b ∷ 0x1c ∷ 0x1d ∷ 0x1e ∷ 0x1f ∷ 0x20 ∷ 0x56 ∷ 0x57 ∷ 0x58 ∷ 0x59 ∷ 0x5a
    ∷ 0x5b ∷ 0x5c ∷ 0x5d ∷ 0x5e ∷ 0x5f ∷ 0x21 ∷ 0x22 ∷ 0x23 ∷ 0x24 ∷ 0x25 ∷ 0x26 ∷ 0x27 ∷ 0x60
    ∷ 0x61 ∷ 0x62 ∷ 0x64 ∷ 0x66 ∷ 0x67 ∷ 0x68 ∷ 0x69 ∷ 0x6a ∷ 0x6b ∷ 0x6c ∷ 0x6d ∷ 0x6f ∷ 0x70
    ∷ 0x72 ∷ 0x73 ∷ 0x74 ∷ 0x75 ∷ 0x76 ∷ 0x77 ∷ 0x78 ∷ 0x7a ∷ 0x7b ∷ 0x7c ∷ 0x7d ∷ 0x7e ∷ 0x28
    ∷ 0x29 ∷ 0x2a ∷ 0x2b ∷ 0x2c ∷ 0x2d ∷ 0x60 ∷ 0x61 ∷ 0x62 ∷ 0x64 ∷ 0x66 ∷ 0x67 ∷ 0x68 ∷ 0x69
    ∷ 0x6a ∷ 0x6b ∷ 0x6c ∷ 0x6d ∷ 0x6f ∷ 0x70 ∷ 0x72 ∷ 0x73 ∷ 0x74 ∷ 0x75 ∷ 0x76 ∷ 0x77 ∷ 0x78
    ∷ 0x7a ∷ 0x7b ∷ 0x7c ∷ 0x7d ∷ 0x7e ∷ 0x2e ∷ 0x2f ∷ 0x30 ∷ 0x31 ∷ 0x10 ∷ 0x10 ∷ 0 ∷ 0x18 ∷ 0x32
    ∷ 0x13 ∷ 0x33 ∷ 0x34 ∷ 0x35 ∷ 0x36 ∷ 0x37 ∷ 0x76 ∷ 0x18 ∷ 0x7266 ∷ 0 ∷ 0x10 ∷ 0 ∷ 0 ∷ 0x18
    ∷ 0x18 ∷ 0x13 ∷ 0x13 ∷ 0x38 ∷ 0x1e ∷ 0x1e ∷ 0x39 ∷ 0x3a ∷ 0x76 ∷ 0x18 ∷ 0x7266 ∷ 0 ∷ 0x10 ∷ 0x7d
    ∷ 0x11 ∷ 0x3b ∷ 0x3c ∷ 0x3d ∷ 0x3e ∷ 0x3f ∷ 0x40 ∷ 0x41 ∷ 0x42 ∷ 0x43 ∷ 0x44 ∷ 0x13 ∷ 0x45
    ∷ 0x1e ∷ 0x46 ∷ 0x47 ∷ 0x48 ∷ 0x49 ∷ 0x58 ∷ 0x59 ∷ 0x4a ∷ 0x4b ∷ 0x4c ∷ 0x4d ∷ 0x4e ∷ 0x57
    ∷ 0x4f ∷ 0x13 ∷ 0x50 ∷ 0x51 ∷ 0x52 ∷ 0x53 ∷ 0x60 ∷ 0x60 ∷ 0x60 ∷ 0x60 ∷ 0x60 ∷ 0x60 ∷ 0x6066
    ∷ 0x62 ∷ 0x66 ∷ 0x66 ∷ 0x66 ∷ 0x66 ∷ 0x6a ∷ 0x6a ∷ 0x6a ∷ 0x6a ∷ 0x65 ∷ 0x70 ∷ 0x72 ∷ 0x72
    ∷ 0x72 ∷ 0x72 ∷ 0x72 ∷ 0x54 ∷ 0x81 ∷ 0x78 ∷ 0x78 ∷ 0x78 ∷ 0x78 ∷ 0x7d ∷ 0x7f ∷ 0x7676 ∷ 0x60
    ∷ 0x60 ∷ 0x60 ∷ 0x60 ∷ 0x60 ∷ 0x60 ∷ 0x6066 ∷ 0x62 ∷ 0x66 ∷ 0x66 ∷ 0x66 ∷ 0x66 ∷ 0x6a ∷ 0x6a
    ∷ 0x6a ∷ 0x6a ∷ 0x65 ∷ 0x70 ∷ 0x72 ∷ 0x72 ∷ 0x72 ∷ 0x72 ∷ 0x72 ∷ 0x55 ∷ 0x81 ∷ 0x78 ∷ 0x78
    ∷ 0x78 ∷ 0x78 ∷ 0x7d ∷ 0x7f ∷ 0x7d ∷ []
