-- ===== src/Apple/Overrun.antt =====
-- avr/bus_apple2.c:167-175: the language card's cells against the size of its memory.
use sage_apple.Base.{ℕ, ◌≤◌, ◌<◌, ◌≡◌, arith, not, ◌&&◌, leb, between, ◌==◌}
use sage_apple.Apple.State.{Card}
use sage_apple.Apple.Card.{language_card_offset, language_card_ram_size}

-- Of the addresses from $D000 on, exactly $E100-$E1FF have a cell past the end of the language
-- card's 512 bytes.
pub language_card_offset_overrun :
    (address : ℕ) (c : Card)
    → 0xd000 ≤ address
    → address < 0x10000
    → (leb language_card_ram_size (language_card_offset address c)
        && not (language_card_offset address c == 0xffff))
      ≡ between 0xe100 0xe1ff address
unfolding language_card_offset
language_card_offset_overrun address c lo hi = ground arith
