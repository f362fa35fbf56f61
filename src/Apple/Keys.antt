-- ===== src/Apple/Keys.antt =====
-- The keyboard of the Apple profile: the key code of a byte, and the delivery of typed bytes.
use sage_apple.Base.{
  ℕ, zero, suc, ◌+◌, ◌-◌, ◌%◌, ◌<◌, ◌≡◌, refl, ap, ◌∙◌, arith, true, List, [], ◌∷◌, map, bit_and,
  ltb, between, ◌==◌, ==→eq, if◌then◌else◌, all_below, all_below_sound, bit_and_0x7f, length,
}
use sage_apple.Uart.Line.{line_uart, Line}
use sage_apple.Apple.State.{Keys, Board}
use sage_apple.Apple.Keyboard.{apple_key_from_uart, keyboard_read_strobe, keyboard_read_data}
use sage_apple.Apple.Map.{bus_read}

-- The key code that Apple software expects of an ASCII byte: the capital letter with bit 7 set, and
-- a return for a line feed.
abbrev pub apple_code : ℕ → ℕ
apple_code b =
    if b == 0x0a
    then 0x8d
    else (let capital = if between 0x61 0x7a b then b - 0x20 else b in
        if ltb capital 0x80 then capital + 0x80 else capital)

key_table : all_below 256 (λ b. apple_key_from_uart b == apple_code b) ≡ true
unfolding all_below apple_key_from_uart
key_table = refl

-- Every byte of the serial port becomes its Apple key code: the capital letter with bit 7 set, and
-- a return for a line feed.
pub apple_key-apple_code : (b : ℕ) → b < 256 → apple_key_from_uart b ≡ apple_code b
apple_key-apple_code b h = ==→eq _ _ (all_below_sound 256 _ b key_table h)

module _ (apple2rom : ℕ → ℕ) where
  -- What a program does for a key: it reads $C010, and then $C000.
  unfoldable pub read_key : Board Line → ℕ × ℕ × Board Line
  read_key b =
      let (strobe, b') = bus_read line_uart apple2rom 0xc010 b in
      let (key, b'') = bus_read line_uart apple2rom 0xc000 b' in (strobe, key, b'')

  -- The keys that `n` such reads give, with their strobes.
  unfoldable pub read_keys : ℕ → Board Line → List (ℕ × ℕ)
  read_keys zero b = []
  read_keys (suc n) b = let (strobe, key, b') = read_key b in (strobe, key) ∷ read_keys n b'

-- No key waits to be read.
pub record IsIdle (k : Keys) : Type 0 where
  pub no_strobe : k.keyboard_strobe ≡ 0
  pub no_latch : k.keyboard_latch_valid ≡ 0

-- The board after a key was read: the latch holds it, and the line lost it.
abbrev after_key : Board Line → ℕ → List ℕ → Board Line
after_key b c bs = record b {
  keys = record {
    keyboard_latch = apple_key_from_uart c % 128;
    keyboard_strobe = 0;
    keyboard_latch_valid = 0;
  };
  port = record b.port { waiting = bs };
}

read_key-cons :
    (rom : ℕ → ℕ) (b : Board Line) (c : ℕ) (bs : List ℕ)
    → IsIdle b.keys
    → b.port.waiting ≡ c ∷ bs
    → read_key rom b ≡ (0x80, apple_key_from_uart c % 128, after_key b c bs)
unfolding read_key bus_read keyboard_read_strobe keyboard_read_data
read_key-cons rom b c bs h e =
    ap (read_key rom) (λ t. record b {
      keys = record b.keys { keyboard_strobe = h.no_strobe t; keyboard_latch_valid = h.no_latch t };
      port = record b.port { waiting = e t };
    })
    ∙ (λ t. (0x80, twice t, latched (once t)))
  where
    latched : ℕ → Board Line
    latched n = record b {
      keys = record { keyboard_latch = n; keyboard_strobe = 0; keyboard_latch_valid = 0 };
      port = record b.port { waiting = bs };
    }

    once : bit_and (apple_key_from_uart c) 0x7f ≡ apple_key_from_uart c % 128
    once = bit_and_0x7f (apple_key_from_uart c)

    twice : bit_and (bit_and (apple_key_from_uart c) 0x7f) 0x7f ≡ apple_key_from_uart c % 128
    twice = omega (
      arith,
      bit_and_0x7f (bit_and (apple_key_from_uart c) 0x7f),
      bit_and_0x7f (apple_key_from_uart c),
    )

-- what the reads should give for the bytes that wait
abbrev pub typed : List ℕ → List (ℕ × ℕ)
typed = map (λ c. (0x80, apple_key_from_uart c % 128))

-- When no key waits, reading $C010 and then $C000 once for each byte on the serial line gives the
-- bytes in order, each once, each with its strobe and as its key code without bit 7.
pub read_keys-typed :
    (rom : ℕ → ℕ) (b : Board Line) (bs : List ℕ)
    → IsIdle b.keys
    → b.port.waiting ≡ bs
    → read_keys rom (length bs) b ≡ typed bs
unfolding read_keys
read_keys-typed rom b [] h e = refl
read_keys-typed rom b (c ∷ bs) h e = rw (read_key-cons rom b c bs h e) (
    ap (◌∷◌ (0x80, apple_key_from_uart c % 128)) (
      read_keys-typed rom (after_key b c bs) bs (record { no_strobe = refl; no_latch = refl })
        refl))
