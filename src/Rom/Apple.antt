-- ===== src/Rom/Apple.antt =====
-- avr/rom_apple2.c: the 12 KiB ROM of the Apple profile, generated by tools/apple2_rom_gen.sage. All
-- of its bytes but three runs are 0.
use sage_apple.Base.{ℕ, ◌-◌, List, [], ◌∷◌, get_or, ltb, leb, between, if◌then◌else◌}

-- $D000: the signature and the console loop
abbrev pub console : List ℕ
console =
    0xa9 ∷ 0x00 ∷ 0x8d ∷ 0xeb ∷ 0xc0 ∷ 0xa9 ∷ 0x62 ∷ 0x8d ∷ 0xf4 ∷ 0x03 ∷ 0xa9 ∷ 0xfa ∷ 0x8d ∷ 0xf5
    ∷ 0x03 ∷ 0xa9 ∷ 0x41 ∷ 0x8d ∷ 0x80 ∷ 0xc0 ∷ 0xa9 ∷ 0x32 ∷ 0x8d ∷ 0x80 ∷ 0xc0 ∷ 0xa9 ∷ 0x0d
    ∷ 0x8d ∷ 0x80 ∷ 0xc0 ∷ 0xa9 ∷ 0x0a ∷ 0x8d ∷ 0x80 ∷ 0xc0 ∷ 0xa9 ∷ 0xc8 ∷ 0x8d ∷ 0x00 ∷ 0x04
    ∷ 0xa9 ∷ 0xc9 ∷ 0x8d ∷ 0x01 ∷ 0x04 ∷ 0xa9 ∷ 0x48 ∷ 0x8d ∷ 0x80 ∷ 0xc0 ∷ 0xa9 ∷ 0x49 ∷ 0x8d
    ∷ 0x80 ∷ 0xc0 ∷ 0xa9 ∷ 0x0d ∷ 0x8d ∷ 0x80 ∷ 0xc0 ∷ 0xa9 ∷ 0x0a ∷ 0x8d ∷ 0x80 ∷ 0xc0 ∷ 0xa9
    ∷ 0x02 ∷ 0x85 ∷ 0x10 ∷ 0xa9 ∷ 0x04 ∷ 0x85 ∷ 0x11 ∷ 0xa9 ∷ 0x00 ∷ 0x85 ∷ 0x13 ∷ 0xad ∷ 0x10
    ∷ 0xc0 ∷ 0x10 ∷ 0xfb ∷ 0xad ∷ 0x00 ∷ 0xc0 ∷ 0x29 ∷ 0x7f ∷ 0xc9 ∷ 0x0d ∷ 0xf0 ∷ 0x32 ∷ 0xc9
    ∷ 0x0a ∷ 0xf0 ∷ 0x2e ∷ 0xc9 ∷ 0x08 ∷ 0xf0 ∷ 0x55 ∷ 0xc9 ∷ 0x7f ∷ 0xf0 ∷ 0x51 ∷ 0xc9 ∷ 0x20
    ∷ 0x90 ∷ 0xe2 ∷ 0x8d ∷ 0x80 ∷ 0xc0 ∷ 0x09 ∷ 0x80 ∷ 0x85 ∷ 0x12 ∷ 0xa0 ∷ 0x00 ∷ 0xa5 ∷ 0x12
    ∷ 0x91 ∷ 0x10 ∷ 0xe6 ∷ 0x10 ∷ 0xd0 ∷ 0x02 ∷ 0xe6 ∷ 0x11 ∷ 0xe6 ∷ 0x13 ∷ 0xa5 ∷ 0x13 ∷ 0xc9
    ∷ 0x28 ∷ 0xd0 ∷ 0xc7 ∷ 0xa9 ∷ 0x00 ∷ 0x85 ∷ 0x13 ∷ 0x4c ∷ 0x4d ∷ 0xd0 ∷ 0xa9 ∷ 0x0d ∷ 0x8d
    ∷ 0x80 ∷ 0xc0 ∷ 0xa9 ∷ 0x0a ∷ 0x8d ∷ 0x80 ∷ 0xc0 ∷ 0x38 ∷ 0xa5 ∷ 0x10 ∷ 0xe5 ∷ 0x13 ∷ 0x85
    ∷ 0x10 ∷ 0xa5 ∷ 0x11 ∷ 0xe9 ∷ 0x00 ∷ 0x85 ∷ 0x11 ∷ 0x18 ∷ 0xa5 ∷ 0x10 ∷ 0x69 ∷ 0x28 ∷ 0x85
    ∷ 0x10 ∷ 0xa5 ∷ 0x11 ∷ 0x69 ∷ 0x00 ∷ 0x85 ∷ 0x11 ∷ 0xa9 ∷ 0x00 ∷ 0x85 ∷ 0x13 ∷ 0x4c ∷ 0x4d
    ∷ 0xd0 ∷ 0xa5 ∷ 0x13 ∷ 0xf0 ∷ 0x0b ∷ 0xc6 ∷ 0x13 ∷ 0xc6 ∷ 0x10 ∷ 0xd0 ∷ 0x16 ∷ 0xc6 ∷ 0x11
    ∷ 0x4c ∷ 0xd8 ∷ 0xd0 ∷ 0x38 ∷ 0xa5 ∷ 0x10 ∷ 0xe9 ∷ 0x28 ∷ 0x85 ∷ 0x10 ∷ 0xa5 ∷ 0x11 ∷ 0xe9
    ∷ 0x00 ∷ 0x85 ∷ 0x11 ∷ 0xa9 ∷ 0x27 ∷ 0x85 ∷ 0x13 ∷ 0xa9 ∷ 0xa0 ∷ 0xa0 ∷ 0x00 ∷ 0x91 ∷ 0x10
    ∷ 0xa9 ∷ 0x08 ∷ 0x8d ∷ 0x80 ∷ 0xc0 ∷ 0xa9 ∷ 0x20 ∷ 0x8d ∷ 0x80 ∷ 0xc0 ∷ 0xa9 ∷ 0x08 ∷ 0x8d
    ∷ 0x80 ∷ 0xc0 ∷ 0x4c ∷ 0x4d ∷ 0xd0 ∷ []

-- $FA62: the code that the warm start and the vectors name
abbrev pub handlers : List ℕ
handlers =
    0xa9 ∷ 0x00 ∷ 0x8d ∷ 0x50 ∷ 0xc0 ∷ 0xa9 ∷ 0x00 ∷ 0x8d ∷ 0x54 ∷ 0xc0 ∷ 0xa9 ∷ 0x00 ∷ 0x8d ∷ 0x52
    ∷ 0xc0 ∷ 0xa9 ∷ 0x00 ∷ 0x8d ∷ 0x51 ∷ 0xc0 ∷ 0xa9 ∷ 0x00 ∷ 0x85 ∷ 0x10 ∷ 0xa9 ∷ 0x04 ∷ 0x85
    ∷ 0x11 ∷ 0xa2 ∷ 0x03 ∷ 0xa0 ∷ 0x00 ∷ 0xa9 ∷ 0xa0 ∷ 0x91 ∷ 0x10 ∷ 0xc8 ∷ 0xd0 ∷ 0xf9 ∷ 0xe6
    ∷ 0x10 ∷ 0xca ∷ 0xd0 ∷ 0xf2 ∷ 0xa0 ∷ 0x00 ∷ 0xa9 ∷ 0xa0 ∷ 0x91 ∷ 0x10 ∷ 0xc8 ∷ 0xc0 ∷ 0xc0
    ∷ 0xd0 ∷ 0xf7 ∷ 0xa9 ∷ 0x41 ∷ 0x8d ∷ 0x80 ∷ 0xc0 ∷ 0xa9 ∷ 0x55 ∷ 0x8d ∷ 0x80 ∷ 0xc0 ∷ 0xa9
    ∷ 0x54 ∷ 0x8d ∷ 0x80 ∷ 0xc0 ∷ 0xa9 ∷ 0x4f ∷ 0x8d ∷ 0x80 ∷ 0xc0 ∷ 0xa9 ∷ 0x53 ∷ 0x8d ∷ 0x80
    ∷ 0xc0 ∷ 0xa9 ∷ 0x54 ∷ 0x8d ∷ 0x80 ∷ 0xc0 ∷ 0xa9 ∷ 0x41 ∷ 0x8d ∷ 0x80 ∷ 0xc0 ∷ 0xa9 ∷ 0x52
    ∷ 0x8d ∷ 0x80 ∷ 0xc0 ∷ 0xa9 ∷ 0x54 ∷ 0x8d ∷ 0x80 ∷ 0xc0 ∷ 0xa9 ∷ 0x0d ∷ 0x8d ∷ 0x80 ∷ 0xc0
    ∷ 0xa9 ∷ 0x0a ∷ 0x8d ∷ 0x80 ∷ 0xc0 ∷ 0xad ∷ 0x10 ∷ 0xc0 ∷ 0x10 ∷ 0xfb ∷ 0xad ∷ 0x00 ∷ 0xc0
    ∷ 0x29 ∷ 0x7f ∷ 0xc9 ∷ 0x0d ∷ 0xf0 ∷ 0x0e ∷ 0xc9 ∷ 0x0a ∷ 0xf0 ∷ 0x0a ∷ 0xc9 ∷ 0x20 ∷ 0x90
    ∷ 0xea ∷ 0x8d ∷ 0x80 ∷ 0xc0 ∷ 0x4c ∷ 0xd0 ∷ 0xfa ∷ 0xa9 ∷ 0x0d ∷ 0x8d ∷ 0x80 ∷ 0xc0 ∷ 0xa9
    ∷ 0x0a ∷ 0x8d ∷ 0x80 ∷ 0xc0 ∷ 0x4c ∷ 0xd0 ∷ 0xfa ∷ []

-- $FFFA: the NMI, reset and IRQ vectors
abbrev pub vectors : List ℕ
vectors = 0x00 ∷ 0xd0 ∷ 0x00 ∷ 0xd0 ∷ 0x00 ∷ 0xd0 ∷ []

-- `APPLE2ROM[offset]`
unfoldable pub apple2rom : ℕ → ℕ
apple2rom offset =
    if ltb offset 0xf0
    then get_or console offset 0
    else if between 0x2a62 0x2af8 offset
    then get_or handlers (offset - 0x2a62) 0
    else if leb 0x2ffa offset
    then get_or vectors (offset - 0x2ffa) 0
    else 0
