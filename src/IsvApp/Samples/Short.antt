-- ===== src/IsvApp/Samples/Short.antt =====
-- Messages 1, messages 2 and attestation results of isv_app/sample_messages.h.
use sgx_erlang_extension.Prelude.{ℕ, List, [], ◌∷◌}

unfoldable pub msg1_sample1 : List ℕ
msg1_sample1 =
    0xe8 ∷ 0xcf ∷ 0xf ∷ 0x97 ∷ 0x8a ∷ 0xf4 ∷ 0x24 ∷ 0x8a ∷ 0xf5 ∷ 0x5b ∷ 0x56 ∷ 0xf0 ∷ 0xac ∷ 0x7f
    ∷ 0x78 ∷ 0x39 ∷ 0x71 ∷ 0x10 ∷ 0xb8 ∷ 0xdc ∷ 0x88 ∷ 0xd ∷ 0x50 ∷ 0xf0 ∷ 0x39 ∷ 0x85 ∷ 0x37 ∷ 0xfe
    ∷ 0xad ∷ 0x1f ∷ 0xc7 ∷ 0x59 ∷ 0xc7 ∷ 0x23 ∷ 0x81 ∷ 0xfd ∷ 0x4a ∷ 0x2 ∷ 0x48 ∷ 0xdf ∷ 0xd3 ∷ 0x74
    ∷ 0xda ∷ 0x45 ∷ 0x48 ∷ 0x62 ∷ 0xc8 ∷ 0xb6 ∷ 0x73 ∷ 0x43 ∷ 0x26 ∷ 0x42 ∷ 0x8f ∷ 0x1f ∷ 0x89
    ∷ 0x17 ∷ 0xe7 ∷ 0xa9 ∷ 0x2a ∷ 0xf5 ∷ 0x27 ∷ 0xb3 ∷ 0xcc ∷ 0x4d ∷ 0x3 ∷ 0x1 ∷ 0x0 ∷ 0x0 ∷ []

unfoldable pub msg1_sample2 : List ℕ
msg1_sample2 =
    0xa8 ∷ 0x56 ∷ 0x72 ∷ 0xc1 ∷ 0x14 ∷ 0x41 ∷ 0xa ∷ 0x2f ∷ 0xdc ∷ 0xb0 ∷ 0xa8 ∷ 0xa1 ∷ 0x3a ∷ 0x51
    ∷ 0x40 ∷ 0xf9 ∷ 0x12 ∷ 0x9f ∷ 0x11 ∷ 0x86 ∷ 0xe9 ∷ 0x1a ∷ 0xf1 ∷ 0x16 ∷ 0xbc ∷ 0xd4 ∷ 0x6 ∷ 0x2f
    ∷ 0x47 ∷ 0x2c ∷ 0xc3 ∷ 0x37 ∷ 0x8e ∷ 0x65 ∷ 0x7 ∷ 0x29 ∷ 0x85 ∷ 0xb0 ∷ 0x8 ∷ 0x61 ∷ 0x6b ∷ 0x6d
    ∷ 0xc7 ∷ 0x22 ∷ 0x7d ∷ 0x22 ∷ 0x61 ∷ 0x7f ∷ 0x40 ∷ 0x43 ∷ 0x40 ∷ 0x5a ∷ 0x7a ∷ 0xf4 ∷ 0x94 ∷ 0x0
    ∷ 0x60 ∷ 0x36 ∷ 0xf6 ∷ 0xa4 ∷ 0x22 ∷ 0x22 ∷ 0x41 ∷ 0x82 ∷ 0x3 ∷ 0x1 ∷ 0x0 ∷ 0x0 ∷ []

unfoldable pub msg2_sample1 : List ℕ
msg2_sample1 =
    0x2 ∷ 0x0 ∷ 0x0 ∷ 0xa8 ∷ 0x0 ∷ 0x0 ∷ 0x0 ∷ 0x0 ∷ 0x6a ∷ 0x83 ∷ 0xdc ∷ 0x84 ∷ 0xd4 ∷ 0x4c ∷ 0x8a
    ∷ 0xbb ∷ 0x5e ∷ 0x42 ∷ 0xaf ∷ 0xee ∷ 0x8d ∷ 0xe9 ∷ 0xf4 ∷ 0x57 ∷ 0x71 ∷ 0xfd ∷ 0x73 ∷ 0x66
    ∷ 0xd7 ∷ 0xfa ∷ 0xad ∷ 0xfa ∷ 0xf2 ∷ 0x17 ∷ 0x14 ∷ 0xdd ∷ 0x5a ∷ 0xb9 ∷ 0x9e ∷ 0x97 ∷ 0x79
    ∷ 0xa7 ∷ 0x38 ∷ 0x72 ∷ 0xf2 ∷ 0xb8 ∷ 0xd6 ∷ 0xbe ∷ 0x18 ∷ 0x91 ∷ 0x7f ∷ 0xf7 ∷ 0xb5 ∷ 0xd3
    ∷ 0xe5 ∷ 0x64 ∷ 0x9b ∷ 0x12 ∷ 0x18 ∷ 0xaf ∷ 0x39 ∷ 0x29 ∷ 0x6c ∷ 0x24 ∷ 0x19 ∷ 0x38 ∷ 0x29 ∷ 0xb
    ∷ 0xc6 ∷ 0xac ∷ 0xc ∷ 0x62 ∷ 0x53 ∷ 0x65 ∷ 0x72 ∷ 0x76 ∷ 0x69 ∷ 0x63 ∷ 0x65 ∷ 0x20 ∷ 0x58 ∷ 0x0
    ∷ 0x0 ∷ 0x0 ∷ 0x0 ∷ 0x0 ∷ 0x0 ∷ 0x0 ∷ 0x1 ∷ 0x0 ∷ 0x1 ∷ 0x0 ∷ 0x6a ∷ 0x83 ∷ 0xdc ∷ 0x84 ∷ 0xd4
    ∷ 0x4c ∷ 0x8a ∷ 0xbb ∷ 0x5e ∷ 0x42 ∷ 0xaf ∷ 0xee ∷ 0x8d ∷ 0xe9 ∷ 0xf4 ∷ 0x57 ∷ 0x71 ∷ 0xfd
    ∷ 0x73 ∷ 0x66 ∷ 0xd7 ∷ 0xfa ∷ 0xad ∷ 0xfa ∷ 0xf2 ∷ 0x17 ∷ 0x14 ∷ 0xdd ∷ 0x5a ∷ 0xb9 ∷ 0x9e
    ∷ 0x97 ∷ 0x6 ∷ 0x10 ∷ 0x58 ∷ 0x61 ∷ 0xa5 ∷ 0xbf ∷ 0x7d ∷ 0x2e ∷ 0xab ∷ 0xcc ∷ 0x1a ∷ 0x3e ∷ 0x4f
    ∷ 0x44 ∷ 0x15 ∷ 0xe7 ∷ 0x91 ∷ 0xca ∷ 0x64 ∷ 0x2b ∷ 0x42 ∷ 0xb7 ∷ 0x53 ∷ 0xd9 ∷ 0x71 ∷ 0x37
    ∷ 0xf1 ∷ 0x9b ∷ 0x31 ∷ 0xb5 ∷ 0xa5 ∷ 0x6b ∷ 0xf8 ∷ 0xfa ∷ 0x64 ∷ 0xfe ∷ 0x7a ∷ 0x9e ∷ 0xdc
    ∷ 0xf4 ∷ 0xf0 ∷ 0x59 ∷ 0xbd ∷ 0x78 ∷ 0x27 ∷ 0xc2 ∷ 0x55 ∷ 0xb9 ∷ 0x0 ∷ 0x0 ∷ 0x0 ∷ 0x0 ∷ []

unfoldable pub msg2_sample2 : List ℕ
msg2_sample2 =
    0x2 ∷ 0x0 ∷ 0x0 ∷ 0xa8 ∷ 0x0 ∷ 0x0 ∷ 0x0 ∷ 0x0 ∷ 0x6a ∷ 0x83 ∷ 0xdc ∷ 0x84 ∷ 0xd4 ∷ 0x4c ∷ 0x8a
    ∷ 0xbb ∷ 0x5e ∷ 0x42 ∷ 0xaf ∷ 0xee ∷ 0x8d ∷ 0xe9 ∷ 0xf4 ∷ 0x57 ∷ 0x71 ∷ 0xfd ∷ 0x73 ∷ 0x66
    ∷ 0xd7 ∷ 0xfa ∷ 0xad ∷ 0xfa ∷ 0xf2 ∷ 0x17 ∷ 0x14 ∷ 0xdd ∷ 0x5a ∷ 0xb9 ∷ 0x9e ∷ 0x97 ∷ 0x79
    ∷ 0xa7 ∷ 0x38 ∷ 0x72 ∷ 0xf2 ∷ 0xb8 ∷ 0xd6 ∷ 0xbe ∷ 0x18 ∷ 0x91 ∷ 0x7f ∷ 0xf7 ∷ 0xb5 ∷ 0xd3
    ∷ 0xe5 ∷ 0x64 ∷ 0x9b ∷ 0x12 ∷ 0x18 ∷ 0xaf ∷ 0x39 ∷ 0x29 ∷ 0x6c ∷ 0x24 ∷ 0x19 ∷ 0x38 ∷ 0x29 ∷ 0xb
    ∷ 0xc6 ∷ 0xac ∷ 0xc ∷ 0x62 ∷ 0x53 ∷ 0x65 ∷ 0x72 ∷ 0x76 ∷ 0x69 ∷ 0x63 ∷ 0x65 ∷ 0x20 ∷ 0x58 ∷ 0x0
    ∷ 0x0 ∷ 0x0 ∷ 0x0 ∷ 0x0 ∷ 0x0 ∷ 0x0 ∷ 0x1 ∷ 0x0 ∷ 0x1 ∷ 0x0 ∷ 0x6a ∷ 0x83 ∷ 0xdc ∷ 0x84 ∷ 0xd4
    ∷ 0x4c ∷ 0x8a ∷ 0xbb ∷ 0x5e ∷ 0x42 ∷ 0xaf ∷ 0xee ∷ 0x8d ∷ 0xe9 ∷ 0xf4 ∷ 0x57 ∷ 0x71 ∷ 0xfd
    ∷ 0x73 ∷ 0x66 ∷ 0xd7 ∷ 0xfa ∷ 0xad ∷ 0xfa ∷ 0xf2 ∷ 0x17 ∷ 0x14 ∷ 0xdd ∷ 0x5a ∷ 0xb9 ∷ 0x9e
    ∷ 0x97 ∷ 0x75 ∷ 0x39 ∷ 0x23 ∷ 0x1b ∷ 0xc2 ∷ 0x5a ∷ 0xd4 ∷ 0xfa ∷ 0x41 ∷ 0xe9 ∷ 0xd4 ∷ 0x42
    ∷ 0x72 ∷ 0x8a ∷ 0x75 ∷ 0x4b ∷ 0x48 ∷ 0x5a ∷ 0xfb ∷ 0xc0 ∷ 0x90 ∷ 0x42 ∷ 0xef ∷ 0x9c ∷ 0xed
    ∷ 0xcb ∷ 0xc1 ∷ 0x45 ∷ 0x2d ∷ 0xfe ∷ 0x86 ∷ 0xbc ∷ 0xee ∷ 0x3 ∷ 0xa8 ∷ 0x97 ∷ 0x68 ∷ 0xf0 ∷ 0xb4
    ∷ 0xf ∷ 0xa ∷ 0x5b ∷ 0x5f ∷ 0xc1 ∷ 0xe4 ∷ 0xf9 ∷ 0xa9 ∷ 0xa6 ∷ 0x0 ∷ 0x0 ∷ 0x0 ∷ 0x0 ∷ []

unfoldable pub attestation_msg_sample1 : List ℕ
attestation_msg_sample1 =
    0x0 ∷ 0x0 ∷ 0x0 ∷ 0x0 ∷ 0x0 ∷ 0x0 ∷ 0x0 ∷ 0x0 ∷ 0x0 ∷ 0x0 ∷ 0x0 ∷ 0x0 ∷ 0x0 ∷ 0x0 ∷ 0x0 ∷ 0x0
    ∷ 0x0 ∷ 0x0 ∷ 0x0 ∷ 0x0 ∷ 0x0 ∷ 0x0 ∷ 0x0 ∷ 0x0 ∷ 0x0 ∷ 0x0 ∷ 0x0 ∷ 0x0 ∷ 0x0 ∷ 0x0 ∷ 0x0 ∷ 0x0
    ∷ 0x0 ∷ 0x97 ∷ 0x9e ∷ 0xb9 ∷ 0x5a ∷ 0xdd ∷ 0x14 ∷ 0x17 ∷ 0xf2 ∷ 0xfa ∷ 0xad ∷ 0xfa ∷ 0xd7 ∷ 0x66
    ∷ 0x73 ∷ 0xfd ∷ 0x71 ∷ 0x57 ∷ 0xf4 ∷ 0xe9 ∷ 0x8d ∷ 0xee ∷ 0xaf ∷ 0x42 ∷ 0x5e ∷ 0xbb ∷ 0x8a
    ∷ 0x4c ∷ 0xd4 ∷ 0x84 ∷ 0xdc ∷ 0x83 ∷ 0x6a ∷ 0x8 ∷ 0x70 ∷ 0xd ∷ 0xf2 ∷ 0x42 ∷ 0x8b ∷ 0x2b ∷ 0xee
    ∷ 0x42 ∷ 0xb0 ∷ 0x85 ∷ 0xe5 ∷ 0xbf ∷ 0x99 ∷ 0xc5 ∷ 0x22 ∷ 0xf8 ∷ 0x37 ∷ 0xf7 ∷ 0xee ∷ 0xb6
    ∷ 0x2c ∷ 0xd5 ∷ 0x8c ∷ 0x37 ∷ 0xa2 ∷ 0xd2 ∷ 0x51 ∷ 0xed ∷ 0x45 ∷ 0xf9 ∷ 0x65 ∷ 0xf2 ∷ 0x25
    ∷ 0x8a ∷ 0xf9 ∷ 0x9 ∷ 0x2d ∷ 0xdb ∷ 0xdc ∷ 0x4a ∷ 0x73 ∷ 0xbd ∷ 0x15 ∷ 0x49 ∷ 0x2 ∷ 0x10 ∷ 0xd
    ∷ 0x8 ∷ 0x0 ∷ 0x0 ∷ 0x0 ∷ 0x0 ∷ 0x0 ∷ 0x0 ∷ 0x0 ∷ 0x0 ∷ 0x0 ∷ 0x0 ∷ 0x0 ∷ 0x0 ∷ 0x0 ∷ 0x0 ∷ 0x0
    ∷ 0x54 ∷ 0x1c ∷ 0xdd ∷ 0x52 ∷ 0x93 ∷ 0xd8 ∷ 0xd4 ∷ 0x28 ∷ 0x9d ∷ 0x24 ∷ 0x7d ∷ 0x4b ∷ 0xe5
    ∷ 0xcc ∷ 0xe8 ∷ 0xc0 ∷ []

unfoldable pub attestation_msg_sample2 : List ℕ
attestation_msg_sample2 =
    0x0 ∷ 0x0 ∷ 0x0 ∷ 0x0 ∷ 0x0 ∷ 0x0 ∷ 0x0 ∷ 0x0 ∷ 0x0 ∷ 0x0 ∷ 0x0 ∷ 0x0 ∷ 0x0 ∷ 0x0 ∷ 0x0 ∷ 0x0
    ∷ 0x0 ∷ 0x0 ∷ 0x0 ∷ 0x0 ∷ 0x0 ∷ 0x0 ∷ 0x0 ∷ 0x0 ∷ 0x0 ∷ 0x0 ∷ 0x0 ∷ 0x0 ∷ 0x0 ∷ 0x0 ∷ 0x0 ∷ 0x0
    ∷ 0x0 ∷ 0x97 ∷ 0x9e ∷ 0xb9 ∷ 0x5a ∷ 0xdd ∷ 0x14 ∷ 0x17 ∷ 0xf2 ∷ 0xfa ∷ 0xad ∷ 0xfa ∷ 0xd7 ∷ 0x66
    ∷ 0x73 ∷ 0xfd ∷ 0x71 ∷ 0x57 ∷ 0xf4 ∷ 0xe9 ∷ 0x8d ∷ 0xee ∷ 0xaf ∷ 0x42 ∷ 0x5e ∷ 0xbb ∷ 0x8a
    ∷ 0x4c ∷ 0xd4 ∷ 0x84 ∷ 0xdc ∷ 0x83 ∷ 0x6a ∷ 0x8 ∷ 0x70 ∷ 0xd ∷ 0xf2 ∷ 0x42 ∷ 0x8b ∷ 0x2b ∷ 0xee
    ∷ 0x42 ∷ 0xb0 ∷ 0x85 ∷ 0xe5 ∷ 0xbf ∷ 0x99 ∷ 0xc5 ∷ 0x22 ∷ 0xf8 ∷ 0x37 ∷ 0xf7 ∷ 0xee ∷ 0xb6
    ∷ 0x2c ∷ 0xd5 ∷ 0x8c ∷ 0x37 ∷ 0xa2 ∷ 0xd2 ∷ 0x51 ∷ 0xed ∷ 0x45 ∷ 0xf9 ∷ 0x65 ∷ 0x82 ∷ 0x12
    ∷ 0xa8 ∷ 0x53 ∷ 0x84 ∷ 0x65 ∷ 0x62 ∷ 0x33 ∷ 0xc0 ∷ 0x6 ∷ 0x86 ∷ 0x9f ∷ 0x82 ∷ 0xbb ∷ 0x6d ∷ 0xd6
    ∷ 0x8 ∷ 0x0 ∷ 0x0 ∷ 0x0 ∷ 0x0 ∷ 0x0 ∷ 0x0 ∷ 0x0 ∷ 0x0 ∷ 0x0 ∷ 0x0 ∷ 0x0 ∷ 0x0 ∷ 0x0 ∷ 0x0 ∷ 0x0
    ∷ 0xb1 ∷ 0x60 ∷ 0x31 ∷ 0x45 ∷ 0xd1 ∷ 0xa9 ∷ 0x23 ∷ 0x7b ∷ 0x85 ∷ 0x3f ∷ 0x8 ∷ 0x3f ∷ 0x48 ∷ 0x6d
    ∷ 0x2d ∷ 0xad ∷ []
