-- ===== src/Apple/Banks.antt =====
-- The language card behind the Apple memory map.
use sage_apple.Base.{
  ℕ, ◌<◌, ◌≤◌, ◌≡◌, ◌≢◌, refl, sym, ap, ◌∙◌, arith, Bool, true, false, not, ◌&&◌, length, set,
  get_or-set_self, leb, ltb, ◌==◌, if◌then◌else◌,
}
use sage_apple.Uart.{Uart}
use sage_apple.Apple.State.{Board, Card}
use sage_apple.Apple.Card.{
  language_card_offset, language_card_read, language_card_write, language_card_ram_size,
}
use sage_apple.Apple.Map.{bus_read, bus_write}

-- the addresses whose cell of the card is inside its 512 bytes
abbrev pub is_backed : ℕ → Bool
is_backed address =
    if leb 0xd000 address
    then (if ltb address 0xd080
        then true
        else (if leb 0xe000 address then ltb address 0xe100 else false))
    else false

offset_bound :
    (address : ℕ) (c : Card) → is_backed address ≡ true → language_card_offset address c < 512
unfolding language_card_offset
offset_bound address c h = ground arith

backed_region : (address : ℕ) → is_backed address ≡ true → (0xd000 ≤ address) × (address < 0xf800)
backed_region address h = ground arith

module _ (uart : Uart) (rom : ℕ → ℕ) where
  card_read :
      (address : ℕ) (b : Board uart.Port)
      → 0xd000 ≤ address
      → address < 0xf800
      → b.card.read_ram ≢ 0
      → bus_read uart rom address b ≡ (language_card_read address b.card, b)
  unfolding bus_read
  card_read address b lo hi reads = rw (ram, top, low, card) refl
    where
      ram : ltb address 0x0400 ≡ false
      ram = ground arith

      top : leb 0xd000 address ≡ true
      top = ground arith

      low : leb 0xf800 address ≡ false
      low = ground arith

      card : not (b.card.read_ram == 0) ≡ true
      card = ground arith

  card_write :
      (address value : ℕ) (b : Board uart.Port)
      → 0xd000 ≤ address
      → address < 0xf800
      → b.card.write_ram ≢ 0
      → bus_write uart rom address value b
        ≡ record b { card = language_card_write address value b.card }
  unfolding bus_write
  card_write address value b lo hi writes = rw (ram, top, card) refl
    where
      ram : ltb address 0x0400 ≡ false
      ram = ground arith

      top : leb 0xd000 address ≡ true
      top = ground arith

      card : (ltb address 0xf800 && not (b.card.write_ram == 0)) ≡ true
      card = ground arith

  written :
      (address value : ℕ) (c : Card)
      → is_backed address ≡ true
      → language_card_write address value c
        ≡ record c { card_ram = set c.card_ram (language_card_offset address c) value }
  unfolding language_card_write
  written address value c h = ground (arith, offset_bound address c h)

  -- the board after a write into the card's memory
  abbrev stored_board : ℕ → ℕ → Board uart.Port → Board uart.Port
  stored_board address value b = record b {
    card = record b.card {
      card_ram = set b.card.card_ram (language_card_offset address b.card) value;
    };
  }

  stored_value :
      (address value : ℕ) (b : Board uart.Port)
      → is_backed address ≡ true
      → length b.card.card_ram ≡ language_card_ram_size
      → language_card_read address (stored_board address value b).card ≡ value
  unfolding language_card_read language_card_offset
  stored_value address value b h full = rw inside (
      get_or-set_self b.card.card_ram (language_card_offset address b.card) value 0
        (omega (arith, offset_bound address b.card h)))
    where
      inside : (language_card_offset address b.card == 0xffff) ≡ false
      inside = ground (arith, offset_bound address b.card h)

  -- With the language card enabled for reading and writing and its memory of 512 bytes, a value
  -- written to $D000-$D07F or $E000-$E0FF is read back from there at once, and the read changes
  -- nothing.
  pub bus_read-bus_write_card :
      (address value : ℕ) (b : Board uart.Port)
      → is_backed address ≡ true
      → b.card.read_ram ≢ 0
      → b.card.write_ram ≢ 0
      → length b.card.card_ram ≡ language_card_ram_size
      → bus_read uart rom address (bus_write uart rom address value b)
        ≡ (value, bus_write uart rom address value b)
  bus_read-bus_write_card address value b h reads writes full =
      ap (bus_read uart rom address) put
      ∙ (card_read address (stored_board address value b) lo hi reads
          ∙ (λ t. (stored_value address value b h full t, (sym put) t)))
    where
      lo : 0xd000 ≤ address
      lo = (backed_region address h).0

      hi : address < 0xf800
      hi = (backed_region address h).1

      put : bus_write uart rom address value b ≡ stored_board address value b
      put =
          card_write address value b lo hi writes
          ∙ ap (λ (c : Card). record b { card = c }) (written address value b.card h)
