-- ===== src/Apple/Card.antt =====
-- avr/bus_apple2.c:167-205: the language card.
use sage_apple.Base.{
  ℕ, ◌+◌, ◌-◌, Bool, true, false, ◌||◌, ◌&&◌, bit_and, u16, set, get_or, ltb, leb, ◌==◌,
  if◌then◌else◌,
}
use sage_apple.Apple.State.{Card}

abbrev pub language_card_bank_size : ℕ
language_card_bank_size = 0x80

abbrev pub language_card_bank2_base : ℕ
language_card_bank2_base = 0x80

abbrev pub language_card_shared_base : ℕ
language_card_shared_base = 0x100

-- the size of `language_card_ram`
abbrev pub language_card_ram_size : ℕ
language_card_ram_size = 512

unfoldable pub language_card_offset : ℕ → Card → ℕ
language_card_offset address c =
    if leb 0xd000 address && ltb address (0xd000 + language_card_bank_size)
    then (if c.bank == 1 then 0 else language_card_bank2_base)
    else if leb 0xe000 address && ltb address 0xe200
    then u16 (language_card_shared_base + u16 (address - 0xe000))
    else 0xffff

-- `a == b` as a `uint8_t`
abbrev pub truth : Bool → ℕ
truth true = 1
truth false = 0

unfoldable pub language_card_switch : ℕ → Bool → Card → Card
language_card_switch address writing c =
    let mode = bit_and address 0x03 in
    let enabled = truth (mode == 1 || mode == 2) in
    let c' = record c {
      bank = if bit_and address 0x08 == 0 then 1 else 2;
      read_ram = truth (mode == 0 || mode == 1);
    } in
    if writing
    then record c' { prewrite = 0; write_ram = 0 }
    else if bit_and address 0x01 == 0
    then record c' { prewrite = 0; write_ram = enabled }
    else if c.prewrite == 0
    then record c' { prewrite = 1; write_ram = 0 }
    else record c' { write_ram = enabled }

-- A read past the end of `language_card_ram`, which C leaves undefined, gives 0 here, and a write
-- past its end is dropped.
unfoldable pub language_card_read : ℕ → Card → ℕ
unfolding language_card_offset
language_card_read address c =
    let offset = language_card_offset address c in
    if offset == 0xffff then 0 else get_or c.card_ram offset 0

unfoldable pub language_card_write : ℕ → ℕ → Card → Card
unfolding language_card_offset
language_card_write address value c =
    let offset = language_card_offset address c in
    if offset == 0xffff then c else record c { card_ram = set c.card_ram offset value }
