-- ===== src/Rom/Monitor.antt =====
-- avr/rom_host.c: the 8 KiB monitor ROM, generated by tools/rom_gen.sage; avr/rom.inc holds the same
-- bytes for the chip. All of its bytes are 0 but the code at $E000 and the reset vector.
use sage_apple.Base.{ℕ, ◌-◌, List, [], ◌∷◌, get_or, ltb, ◌==◌, if◌then◌else◌}

-- $E000 to $E176
abbrev pub code_low : List ℕ
code_low =
    0xa9 ∷ 0xa4 ∷ 0x85 ∷ 0x10 ∷ 0xa9 ∷ 0xe3 ∷ 0x85 ∷ 0x11 ∷ 0x20 ∷ 0x6d ∷ 0xe0 ∷ 0x85 ∷ 0x19 ∷ 0x08
    ∷ 0x68 ∷ 0x85 ∷ 0x1f ∷ 0xba ∷ 0x86 ∷ 0x1e ∷ 0x8a ∷ 0x85 ∷ 0x1b ∷ 0x98 ∷ 0x85 ∷ 0x1c ∷ 0xa9
    ∷ 0xbb ∷ 0x85 ∷ 0x10 ∷ 0xa9 ∷ 0xe3 ∷ 0x85 ∷ 0x11 ∷ 0x20 ∷ 0x6d ∷ 0xe0 ∷ 0x20 ∷ 0x2e ∷ 0xe0
    ∷ 0x20 ∷ 0x2d ∷ 0xe1 ∷ 0x4c ∷ 0x0b ∷ 0xe0 ∷ 0xa0 ∷ 0x00 ∷ 0xad ∷ 0x00 ∷ 0x20 ∷ 0x29 ∷ 0x01
    ∷ 0xf0 ∷ 0xf9 ∷ 0xad ∷ 0x01 ∷ 0x20 ∷ 0xc9 ∷ 0x0d ∷ 0xf0 ∷ 0x15 ∷ 0xc9 ∷ 0x0a ∷ 0xf0 ∷ 0x11
    ∷ 0xc9 ∷ 0x20 ∷ 0x90 ∷ 0xea ∷ 0x99 ∷ 0x00 ∷ 0x02 ∷ 0x20 ∷ 0x5c ∷ 0xe0 ∷ 0xc8 ∷ 0xc0 ∷ 0x40
    ∷ 0x90 ∷ 0xdf ∷ 0xa9 ∷ 0x0d ∷ 0xa9 ∷ 0x00 ∷ 0x99 ∷ 0x00 ∷ 0x02 ∷ 0x20 ∷ 0x60 ∷ 0xe0 ∷ 0x60
    ∷ 0x8d ∷ 0x01 ∷ 0x20 ∷ 0x60 ∷ 0x48 ∷ 0xa9 ∷ 0x0d ∷ 0x20 ∷ 0x5c ∷ 0xe0 ∷ 0xa9 ∷ 0x0a ∷ 0x20
    ∷ 0x5c ∷ 0xe0 ∷ 0x68 ∷ 0x60 ∷ 0xa0 ∷ 0x00 ∷ 0xb1 ∷ 0x10 ∷ 0xf0 ∷ 0x07 ∷ 0x20 ∷ 0x5c ∷ 0xe0
    ∷ 0xc8 ∷ 0x4c ∷ 0x6f ∷ 0xe0 ∷ 0x60 ∷ 0x48 ∷ 0x4a ∷ 0x4a ∷ 0x4a ∷ 0x4a ∷ 0x20 ∷ 0x86 ∷ 0xe0
    ∷ 0x68 ∷ 0x29 ∷ 0x0f ∷ 0xc9 ∷ 0x0a ∷ 0xb0 ∷ 0x06 ∷ 0x18 ∷ 0x69 ∷ 0x30 ∷ 0x4c ∷ 0x93 ∷ 0xe0
    ∷ 0x18 ∷ 0x69 ∷ 0x37 ∷ 0x20 ∷ 0x5c ∷ 0xe0 ∷ 0x60 ∷ 0xc9 ∷ 0x30 ∷ 0x90 ∷ 0x14 ∷ 0xc9 ∷ 0x3a
    ∷ 0x90 ∷ 0x12 ∷ 0xc9 ∷ 0x41 ∷ 0x90 ∷ 0x0c ∷ 0xc9 ∷ 0x47 ∷ 0x90 ∷ 0x0e ∷ 0xc9 ∷ 0x61 ∷ 0x90
    ∷ 0x04 ∷ 0xc9 ∷ 0x67 ∷ 0x90 ∷ 0x0a ∷ 0x18 ∷ 0x60 ∷ 0x38 ∷ 0xe9 ∷ 0x30 ∷ 0x60 ∷ 0x38 ∷ 0xe9
    ∷ 0x37 ∷ 0x60 ∷ 0x38 ∷ 0xe9 ∷ 0x57 ∷ 0x60 ∷ 0xa9 ∷ 0x00 ∷ 0x85 ∷ 0x12 ∷ 0x85 ∷ 0x13 ∷ 0xb9
    ∷ 0x00 ∷ 0x02 ∷ 0x20 ∷ 0x97 ∷ 0xe0 ∷ 0x90 ∷ 0x18 ∷ 0x06 ∷ 0x12 ∷ 0x26 ∷ 0x13 ∷ 0x06 ∷ 0x12
    ∷ 0x26 ∷ 0x13 ∷ 0x06 ∷ 0x12 ∷ 0x26 ∷ 0x13 ∷ 0x06 ∷ 0x12 ∷ 0x26 ∷ 0x13 ∷ 0x05 ∷ 0x12 ∷ 0x85
    ∷ 0x12 ∷ 0xc8 ∷ 0x4c ∷ 0xc3 ∷ 0xe0 ∷ 0x60 ∷ 0x20 ∷ 0x97 ∷ 0xe0 ∷ 0x90 ∷ 0x1a ∷ 0x85 ∷ 0x1a
    ∷ 0xc8 ∷ 0xb9 ∷ 0x00 ∷ 0x02 ∷ 0x20 ∷ 0x97 ∷ 0xe0 ∷ 0x90 ∷ 0x0f ∷ 0x85 ∷ 0x1d ∷ 0x06 ∷ 0x1a
    ∷ 0x06 ∷ 0x1a ∷ 0x06 ∷ 0x1a ∷ 0x06 ∷ 0x1a ∷ 0x05 ∷ 0x1a ∷ 0xc8 ∷ 0x38 ∷ 0x60 ∷ 0x18 ∷ 0x60
    ∷ 0xa0 ∷ 0x00 ∷ 0xb1 ∷ 0x10 ∷ 0x85 ∷ 0x16 ∷ 0xc9 ∷ 0x00 ∷ 0xf0 ∷ 0x0b ∷ 0xb9 ∷ 0x00 ∷ 0x02
    ∷ 0xc5 ∷ 0x16 ∷ 0xd0 ∷ 0x13 ∷ 0xc8 ∷ 0x4c ∷ 0x07 ∷ 0xe1 ∷ 0xb9 ∷ 0x00 ∷ 0x02 ∷ 0xc9 ∷ 0x00
    ∷ 0xf0 ∷ 0x0a ∷ 0xc9 ∷ 0x20 ∷ 0xf0 ∷ 0x06 ∷ 0xc9 ∷ 0x0d ∷ 0xf0 ∷ 0x02 ∷ 0x18 ∷ 0x60 ∷ 0x38
    ∷ 0x60 ∷ 0xa9 ∷ 0xc1 ∷ 0x85 ∷ 0x10 ∷ 0xa9 ∷ 0xe3 ∷ 0x85 ∷ 0x11 ∷ 0x20 ∷ 0x05 ∷ 0xe1 ∷ 0x90
    ∷ 0x03 ∷ 0x4c ∷ 0xbc ∷ 0xe1 ∷ 0xa9 ∷ 0xc6 ∷ 0x85 ∷ 0x10 ∷ 0xa9 ∷ 0xe3 ∷ 0x85 ∷ 0x11 ∷ 0x20
    ∷ 0x05 ∷ 0xe1 ∷ 0x90 ∷ 0x03 ∷ 0x4c ∷ 0xd0 ∷ 0xe2 ∷ 0xa9 ∷ 0xcb ∷ 0x85 ∷ 0x10 ∷ 0xa9 ∷ 0xe3
    ∷ 0x85 ∷ 0x11 ∷ 0x20 ∷ 0x05 ∷ 0xe1 ∷ 0x90 ∷ 0x03 ∷ 0x4c ∷ 0x36 ∷ 0xe3 ∷ 0xa9 ∷ 0xd0 ∷ 0x85
    ∷ 0x10 ∷ 0xa9 ∷ 0xe3 ∷ 0x85 ∷ 0x11 ∷ 0x20 ∷ 0x05 ∷ 0xe1 ∷ 0x90 ∷ 0x03 ∷ 0x4c ∷ 0x6a ∷ 0xe3
    ∷ 0xa9 ∷ 0xd5 ∷ 0x85 ∷ 0x10 ∷ 0xa9 ∷ 0xe3 ∷ 0x85 ∷ 0x11 ∷ 0x20 ∷ 0x05 ∷ []

-- $E177 to $E2ED
abbrev pub code_mid : List ℕ
code_mid =
    0xe1 ∷ 0x90 ∷ 0x03 ∷ 0x4c ∷ 0xc8 ∷ 0xe1 ∷ 0xa9 ∷ 0xda ∷ 0x85 ∷ 0x10 ∷ 0xa9 ∷ 0xe3 ∷ 0x85 ∷ 0x11
    ∷ 0x20 ∷ 0x05 ∷ 0xe1 ∷ 0x90 ∷ 0x03 ∷ 0x4c ∷ 0x30 ∷ 0xe2 ∷ 0xa9 ∷ 0xde ∷ 0x85 ∷ 0x10 ∷ 0xa9
    ∷ 0xe3 ∷ 0x85 ∷ 0x11 ∷ 0x20 ∷ 0x05 ∷ 0xe1 ∷ 0x90 ∷ 0x03 ∷ 0x4c ∷ 0xcd ∷ 0xe2 ∷ 0xa9 ∷ 0xe4
    ∷ 0x85 ∷ 0x10 ∷ 0xa9 ∷ 0xe3 ∷ 0x85 ∷ 0x11 ∷ 0x20 ∷ 0x05 ∷ 0xe1 ∷ 0x90 ∷ 0x03 ∷ 0x4c ∷ 0x6e
    ∷ 0xe2 ∷ 0xa9 ∷ 0xe9 ∷ 0x85 ∷ 0x10 ∷ 0xa9 ∷ 0xe3 ∷ 0x85 ∷ 0x11 ∷ 0x20 ∷ 0x6d ∷ 0xe0 ∷ 0x20
    ∷ 0x60 ∷ 0xe0 ∷ 0x60 ∷ 0xa9 ∷ 0xed ∷ 0x85 ∷ 0x10 ∷ 0xa9 ∷ 0xe3 ∷ 0x85 ∷ 0x11 ∷ 0x20 ∷ 0x6d
    ∷ 0xe0 ∷ 0x60 ∷ 0xa9 ∷ 0x35 ∷ 0x85 ∷ 0x10 ∷ 0xa9 ∷ 0xe4 ∷ 0x85 ∷ 0x11 ∷ 0x20 ∷ 0x6d ∷ 0xe0
    ∷ 0xa5 ∷ 0x19 ∷ 0x20 ∷ 0x7b ∷ 0xe0 ∷ 0xa9 ∷ 0x20 ∷ 0x20 ∷ 0x5c ∷ 0xe0 ∷ 0xa9 ∷ 0x38 ∷ 0x85
    ∷ 0x10 ∷ 0xa9 ∷ 0xe4 ∷ 0x85 ∷ 0x11 ∷ 0x20 ∷ 0x6d ∷ 0xe0 ∷ 0xa5 ∷ 0x1b ∷ 0x20 ∷ 0x7b ∷ 0xe0
    ∷ 0xa9 ∷ 0x20 ∷ 0x20 ∷ 0x5c ∷ 0xe0 ∷ 0xa9 ∷ 0x3b ∷ 0x85 ∷ 0x10 ∷ 0xa9 ∷ 0xe4 ∷ 0x85 ∷ 0x11
    ∷ 0x20 ∷ 0x6d ∷ 0xe0 ∷ 0xa5 ∷ 0x1c ∷ 0x20 ∷ 0x7b ∷ 0xe0 ∷ 0xa9 ∷ 0x20 ∷ 0x20 ∷ 0x5c ∷ 0xe0
    ∷ 0xa9 ∷ 0x3e ∷ 0x85 ∷ 0x10 ∷ 0xa9 ∷ 0xe4 ∷ 0x85 ∷ 0x11 ∷ 0x20 ∷ 0x6d ∷ 0xe0 ∷ 0xa5 ∷ 0x1e
    ∷ 0x20 ∷ 0x7b ∷ 0xe0 ∷ 0xa9 ∷ 0x20 ∷ 0x20 ∷ 0x5c ∷ 0xe0 ∷ 0xa9 ∷ 0x42 ∷ 0x85 ∷ 0x10 ∷ 0xa9
    ∷ 0xe4 ∷ 0x85 ∷ 0x11 ∷ 0x20 ∷ 0x6d ∷ 0xe0 ∷ 0xa5 ∷ 0x1f ∷ 0x20 ∷ 0x7b ∷ 0xe0 ∷ 0x20 ∷ 0x60
    ∷ 0xe0 ∷ 0x60 ∷ 0xa0 ∷ 0x00 ∷ 0xb9 ∷ 0x00 ∷ 0x02 ∷ 0xc9 ∷ 0x20 ∷ 0xf0 ∷ 0x17 ∷ 0xc9 ∷ 0x00
    ∷ 0xf0 ∷ 0x04 ∷ 0xc8 ∷ 0x4c ∷ 0x32 ∷ 0xe2 ∷ 0xa9 ∷ 0x22 ∷ 0x85 ∷ 0x10 ∷ 0xa9 ∷ 0xe4 ∷ 0x85
    ∷ 0x11 ∷ 0x20 ∷ 0x6d ∷ 0xe0 ∷ 0x20 ∷ 0x60 ∷ 0xe0 ∷ 0x60 ∷ 0xc8 ∷ 0x20 ∷ 0xbd ∷ 0xe0 ∷ 0xa9
    ∷ 0xe2 ∷ 0x48 ∷ 0xa9 ∷ 0x6a ∷ 0x48 ∷ 0xa5 ∷ 0x12 ∷ 0x38 ∷ 0xe9 ∷ 0x01 ∷ 0x85 ∷ 0x1a ∷ 0xa5
    ∷ 0x13 ∷ 0xe9 ∷ 0x00 ∷ 0x48 ∷ 0xa5 ∷ 0x1a ∷ 0x48 ∷ 0x60 ∷ 0xea ∷ 0x4c ∷ 0x0b ∷ 0xe0 ∷ 0xa0
    ∷ 0x00 ∷ 0xb9 ∷ 0x00 ∷ 0x02 ∷ 0xc9 ∷ 0x20 ∷ 0xf0 ∷ 0x08 ∷ 0xc9 ∷ 0x00 ∷ 0xf0 ∷ 0x51 ∷ 0xc8
    ∷ 0x4c ∷ 0x70 ∷ 0xe2 ∷ 0xc8 ∷ 0x20 ∷ 0xbd ∷ 0xe0 ∷ 0xa5 ∷ 0x12 ∷ 0x85 ∷ 0x0c ∷ 0xa5 ∷ 0x13
    ∷ 0x85 ∷ 0x0d ∷ 0xb9 ∷ 0x00 ∷ 0x02 ∷ 0xc9 ∷ 0x00 ∷ 0xf0 ∷ 0x37 ∷ 0xc9 ∷ 0x20 ∷ 0xf0 ∷ 0x04
    ∷ 0xc8 ∷ 0x4c ∷ 0x8b ∷ 0xe2 ∷ 0xc8 ∷ 0xb9 ∷ 0x00 ∷ 0x02 ∷ 0xc9 ∷ 0x20 ∷ 0xf0 ∷ 0x23 ∷ 0xc9
    ∷ 0x00 ∷ 0xf0 ∷ 0x23 ∷ 0xc9 ∷ 0x0d ∷ 0xf0 ∷ 0x1f ∷ 0x20 ∷ 0xe4 ∷ 0xe0 ∷ 0x90 ∷ 0x1a ∷ 0x85
    ∷ 0x1d ∷ 0x98 ∷ 0x85 ∷ 0x1a ∷ 0xa0 ∷ 0x00 ∷ 0xa5 ∷ 0x1d ∷ 0x91 ∷ 0x0c ∷ 0xa4 ∷ 0x1a ∷ 0xe6
    ∷ 0x0c ∷ 0xd0 ∷ 0xdb ∷ 0xe6 ∷ 0x0d ∷ 0x4c ∷ 0x9b ∷ 0xe2 ∷ 0xc8 ∷ 0x4c ∷ 0x9b ∷ 0xe2 ∷ 0x20
    ∷ 0x60 ∷ 0xe0 ∷ 0x60 ∷ 0x4c ∷ 0x00 ∷ 0xe0 ∷ 0xa0 ∷ 0x00 ∷ 0xb9 ∷ 0x00 ∷ 0x02 ∷ 0xc9 ∷ 0x00
    ∷ 0xf0 ∷ 0x5c ∷ 0xc9 ∷ 0x20 ∷ 0xf0 ∷ 0x04 ∷ 0xc8 ∷ 0x4c ∷ 0xd2 ∷ 0xe2 ∷ 0xc8 ∷ 0x20 ∷ 0xbd
    ∷ 0xe0 ∷ 0xa5 ∷ 0x12 ∷ 0x85 ∷ 0x14 ∷ 0xa5 ∷ 0x13 ∷ 0x85 ∷ 0x15 ∷ 0xb9 ∷ []

-- $E2EE to $E443
abbrev pub code_high : List ℕ
code_high =
    0x00 ∷ 0x02 ∷ 0xc9 ∷ 0x00 ∷ 0xf0 ∷ 0x41 ∷ 0xc9 ∷ 0x20 ∷ 0xf0 ∷ 0x04 ∷ 0xc8 ∷ 0x4c ∷ 0xed ∷ 0xe2
    ∷ 0xc8 ∷ 0x20 ∷ 0xbd ∷ 0xe0 ∷ 0xa5 ∷ 0x15 ∷ 0xc5 ∷ 0x13 ∷ 0x90 ∷ 0x08 ∷ 0xd0 ∷ 0x2d ∷ 0xa5
    ∷ 0x14 ∷ 0xc5 ∷ 0x12 ∷ 0xb0 ∷ 0x27 ∷ 0xa5 ∷ 0x15 ∷ 0x20 ∷ 0x7b ∷ 0xe0 ∷ 0xa5 ∷ 0x14 ∷ 0x20
    ∷ 0x7b ∷ 0xe0 ∷ 0xa9 ∷ 0x3a ∷ 0x20 ∷ 0x5c ∷ 0xe0 ∷ 0xa9 ∷ 0x20 ∷ 0x20 ∷ 0x5c ∷ 0xe0 ∷ 0xa0
    ∷ 0x00 ∷ 0xb1 ∷ 0x14 ∷ 0x20 ∷ 0x7b ∷ 0xe0 ∷ 0x20 ∷ 0x60 ∷ 0xe0 ∷ 0xe6 ∷ 0x14 ∷ 0xd0 ∷ 0xd0
    ∷ 0xe6 ∷ 0x15 ∷ 0x4c ∷ 0x00 ∷ 0xe3 ∷ 0x60 ∷ 0xa0 ∷ 0x00 ∷ 0xb9 ∷ 0x00 ∷ 0x02 ∷ 0xc9 ∷ 0x00
    ∷ 0xf0 ∷ 0x2a ∷ 0xc9 ∷ 0x20 ∷ 0xf0 ∷ 0x04 ∷ 0xc8 ∷ 0x4c ∷ 0x38 ∷ 0xe3 ∷ 0xc8 ∷ 0x20 ∷ 0xbd
    ∷ 0xe0 ∷ 0xa5 ∷ 0x13 ∷ 0x20 ∷ 0x7b ∷ 0xe0 ∷ 0xa5 ∷ 0x12 ∷ 0x20 ∷ 0x7b ∷ 0xe0 ∷ 0xa9 ∷ 0x3a
    ∷ 0x20 ∷ 0x5c ∷ 0xe0 ∷ 0xa9 ∷ 0x20 ∷ 0x20 ∷ 0x5c ∷ 0xe0 ∷ 0xa0 ∷ 0x00 ∷ 0xb1 ∷ 0x12 ∷ 0x20
    ∷ 0x7b ∷ 0xe0 ∷ 0x20 ∷ 0x60 ∷ 0xe0 ∷ 0x60 ∷ 0xa0 ∷ 0x00 ∷ 0xb9 ∷ 0x00 ∷ 0x02 ∷ 0xc9 ∷ 0x00
    ∷ 0xf0 ∷ 0x30 ∷ 0xc9 ∷ 0x20 ∷ 0xf0 ∷ 0x04 ∷ 0xc8 ∷ 0x4c ∷ 0x6c ∷ 0xe3 ∷ 0xc8 ∷ 0x20 ∷ 0xbd
    ∷ 0xe0 ∷ 0xa5 ∷ 0x12 ∷ 0x85 ∷ 0x0c ∷ 0xa5 ∷ 0x13 ∷ 0x85 ∷ 0x0d ∷ 0xb9 ∷ 0x00 ∷ 0x02 ∷ 0xc9
    ∷ 0x00 ∷ 0xf0 ∷ 0x15 ∷ 0xc9 ∷ 0x20 ∷ 0xf0 ∷ 0x04 ∷ 0xc8 ∷ 0x4c ∷ 0x87 ∷ 0xe3 ∷ 0xc8 ∷ 0x20
    ∷ 0xbd ∷ 0xe0 ∷ 0xa5 ∷ 0x12 ∷ 0xa0 ∷ 0x00 ∷ 0x91 ∷ 0x0c ∷ 0x20 ∷ 0x60 ∷ 0xe0 ∷ 0x60 ∷ 0x53
    ∷ 0x61 ∷ 0x67 ∷ 0x65 ∷ 0x41 ∷ 0x70 ∷ 0x70 ∷ 0x6c ∷ 0x65 ∷ 0x20 ∷ 0x4d ∷ 0x6f ∷ 0x6e ∷ 0x69
    ∷ 0x74 ∷ 0x6f ∷ 0x72 ∷ 0x00 ∷ 0x0d ∷ 0x0a ∷ 0x0d ∷ 0x0a ∷ 0x00 ∷ 0x4d ∷ 0x4f ∷ 0x4e ∷ 0x3e
    ∷ 0x20 ∷ 0x00 ∷ 0x68 ∷ 0x65 ∷ 0x6c ∷ 0x70 ∷ 0x00 ∷ 0x64 ∷ 0x75 ∷ 0x6d ∷ 0x70 ∷ 0x00 ∷ 0x70
    ∷ 0x65 ∷ 0x65 ∷ 0x6b ∷ 0x00 ∷ 0x70 ∷ 0x6f ∷ 0x6b ∷ 0x65 ∷ 0x00 ∷ 0x72 ∷ 0x65 ∷ 0x67 ∷ 0x73
    ∷ 0x00 ∷ 0x72 ∷ 0x75 ∷ 0x6e ∷ 0x00 ∷ 0x72 ∷ 0x65 ∷ 0x73 ∷ 0x65 ∷ 0x74 ∷ 0x00 ∷ 0x6c ∷ 0x6f
    ∷ 0x61 ∷ 0x64 ∷ 0x00 ∷ 0x3f ∷ 0x0d ∷ 0x0a ∷ 0x00 ∷ 0x43 ∷ 0x6f ∷ 0x6d ∷ 0x6d ∷ 0x61 ∷ 0x6e
    ∷ 0x64 ∷ 0x73 ∷ 0x3a ∷ 0x20 ∷ 0x68 ∷ 0x65 ∷ 0x6c ∷ 0x70 ∷ 0x20 ∷ 0x64 ∷ 0x75 ∷ 0x6d ∷ 0x70
    ∷ 0x20 ∷ 0x70 ∷ 0x65 ∷ 0x65 ∷ 0x6b ∷ 0x20 ∷ 0x70 ∷ 0x6f ∷ 0x6b ∷ 0x65 ∷ 0x20 ∷ 0x72 ∷ 0x65
    ∷ 0x67 ∷ 0x73 ∷ 0x20 ∷ 0x72 ∷ 0x75 ∷ 0x6e ∷ 0x20 ∷ 0x72 ∷ 0x65 ∷ 0x73 ∷ 0x65 ∷ 0x74 ∷ 0x20
    ∷ 0x6c ∷ 0x6f ∷ 0x61 ∷ 0x64 ∷ 0x00 ∷ 0x0d ∷ 0x0a ∷ 0x00 ∷ 0x6e ∷ 0x6f ∷ 0x20 ∷ 0x75 ∷ 0x73
    ∷ 0x65 ∷ 0x72 ∷ 0x20 ∷ 0x70 ∷ 0x72 ∷ 0x6f ∷ 0x67 ∷ 0x72 ∷ 0x61 ∷ 0x6d ∷ 0x00 ∷ 0x0d ∷ 0x0a
    ∷ 0x00 ∷ 0x41 ∷ 0x3d ∷ 0x00 ∷ 0x58 ∷ 0x3d ∷ 0x00 ∷ 0x59 ∷ 0x3d ∷ 0x00 ∷ 0x53 ∷ 0x50 ∷ 0x3d
    ∷ 0x00 ∷ 0x50 ∷ 0x3d ∷ []

-- `MONROM[offset]`
unfoldable pub monrom : ℕ → ℕ
monrom offset =
    if ltb offset 375
    then get_or code_low offset 0
    else if ltb offset 750
    then get_or code_mid (offset - 375) 0
    else if ltb offset 1092
    then get_or code_high (offset - 750) 0
    else if offset == 0x1ffd
    then 0xe0
    else 0
