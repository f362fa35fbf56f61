-- ===== src/Apple/Laws.antt =====
-- avr/bus_apple2.c keeps the promises that the CPU core relies on: every read of it gives a byte.
use sage_apple.Base.{
  ℕ, ◌-◌, ◌<◌, ◌≡◌, sym, subst, arith, Bool, true, false, not, ◌&&◌, bit_and-le, ltb, leb, between,
  ◌==◌, if◌then◌else◌, if_both, All, All-set, All-get_or,
}
use sage_apple.Bus.{BusLaws}
use sage_apple.Uart.{Uart, UartLaws}
use sage_apple.Apple.State.{Board, Keys, Card, Video, bus_reset}
use sage_apple.Apple.Keyboard.{
  apple_key_from_uart, to_upper, keyboard_read_strobe, keyboard_poll_uart, acknowledge,
  keyboard_read_data,
}
use sage_apple.Apple.Card.{
  language_card_offset, language_card_read, language_card_write, language_card_switch,
}
use sage_apple.Apple.Video.{video_read, is_video_write}
use sage_apple.Apple.Map.{bus_read, bus_write, apple_bus, is_card_switch}

key-lt : (byte : ℕ) → apple_key_from_uart byte < 256
unfolding apple_key_from_uart to_upper
key-lt byte = ground arith

module _ {uart : Uart} (port_laws : UartLaws uart) where
  -- The memories and the latch hold bytes and the port is sound.
  pub record HoldsBytes (b : Board uart.Port) : Type 0 where
    pub ram_bytes : All (λ n. n < 256) b.ram
    pub latch_byte : b.keys.keyboard_latch < 256
    pub card_bytes : All (λ n. n < 256) b.card.card_ram
    pub port_sound : port_laws.IsSound b.port

  -- what a read of the keyboard gives
  record ByteKey (t : ℕ × Keys × uart.Port) : Type 0 where
    value : t.0 < 256
    latch : t.1.keyboard_latch < 256
    sound : port_laws.IsSound t.2

  data_byte :
      (k : Keys) (p : uart.Port)
      → k.keyboard_latch < 256
      → port_laws.IsSound p
      → ByteKey (let (v, k') = keyboard_read_data k in (v, k', p))
  unfolding keyboard_read_data
  data_byte k p h s = ground (arith, bit_and-le k.keyboard_latch 0x7f)

  acknowledge_byte :
      (k : Keys) (p : uart.Port)
      → k.keyboard_latch < 256
      → port_laws.IsSound p
      → ByteKey (let (v, k') = acknowledge uart k in (v, k', p))
  unfolding acknowledge
  acknowledge_byte k p h s = ground (arith, bit_and-le k.keyboard_latch 0x7f)

  poll_byte :
      (k : Keys) (p : uart.Port)
      → k.keyboard_latch < 256
      → port_laws.IsSound p
      → ByteKey (let (k', p') = keyboard_poll_uart uart (k, p) in (0, k', p'))
  unfolding keyboard_poll_uart
  poll_byte k p h s =
      if_both (λ (t : Keys × uart.Port). ByteKey (0, t.0, t.1))
        (k.keyboard_strobe == 0 && k.keyboard_latch_valid == 0 && uart.rx_ready p)
        (record {
          value = omega arith;
          latch = key-lt (uart.rx p).0;
          sound = port_laws.rx-IsSound p s;
        })
        (record { value = omega arith; latch = h; sound = s })

  strobe_byte :
      (k : Keys) (p : uart.Port)
      → k.keyboard_latch < 256
      → port_laws.IsSound p
      → ByteKey (keyboard_read_strobe uart (k, p))
  unfolding keyboard_read_strobe
  strobe_byte k p h s = if_both ByteKey (not (k.keyboard_strobe == 0)) (acknowledge_byte k p h s) (
      if_both ByteKey (not (k.keyboard_latch_valid == 0))
        (record { value = omega arith; latch = h; sound = s })
        (acknowledge_byte _ _ (poll_byte k p h s).latch (poll_byte k p h s).sound))

  card_byte :
      (address : ℕ) (c : Card) → All (λ n. n < 256) c.card_ram → language_card_read address c < 256
  unfolding language_card_read
  card_byte address c h =
      if_both (λ n. n < 256) (language_card_offset address c == 0xffff) (omega arith)
        (All-get_or (λ n. n < 256) c.card_ram _ 0 h (omega arith))

  switch-card_ram :
      (address : ℕ) (writing : Bool) (c : Card)
      → (language_card_switch address writing c).card_ram ≡ c.card_ram
  unfolding language_card_switch
  switch-card_ram address writing c = ground arith

  record ByteRead (t : ℕ × Board uart.Port) : Type 0 where
    value : t.0 < 256
    holds : HoldsBytes t.1

  key_read :
      (b : Board uart.Port) (v : ℕ) (k : Keys) (p : uart.Port)
      → HoldsBytes b
      → ByteKey (v, k, p)
      → ByteRead (v, record b { keys = k; port = p })
  key_read b v k p h r = record {
    value = r.value;
    holds = record {
      ram_bytes = h.ram_bytes;
      latch_byte = r.latch;
      card_bytes = h.card_bytes;
      port_sound = r.sound;
    };
  }

  switch_holds :
      (address : ℕ) (writing : Bool) (b : Board uart.Port)
      → HoldsBytes b
      → HoldsBytes (record b { card = language_card_switch address writing b.card })
  switch_holds address writing b h = record {
    ram_bytes = h.ram_bytes;
    latch_byte = h.latch_byte;
    card_bytes =
        subst (All (λ n. n < 256)) (sym (switch-card_ram address writing b.card)) h.card_bytes;
    port_sound = h.port_sound;
  }

  card_holds :
      (address v : ℕ) (b : Board uart.Port)
      → v < 256
      → HoldsBytes b
      → HoldsBytes (record b { card = language_card_write address v b.card })
  unfolding language_card_write
  card_holds address v b hv h =
      if_both (λ (c : Card). HoldsBytes (record b { card = c }))
        (language_card_offset address b.card == 0xffff) h
        (record {
          ram_bytes = h.ram_bytes;
          latch_byte = h.latch_byte;
          card_bytes = All-set _ b.card.card_ram _ v h.card_bytes hv;
          port_sound = h.port_sound;
        })

  module _ (rom : ℕ → ℕ) (rom_bytes : (n : ℕ) → rom n < 256) where
    zero_read : (b : Board uart.Port) → HoldsBytes b → ByteRead (0, b)
    zero_read b h = record { value = omega arith; holds = h }

    read_sound :
        (address : ℕ) (b : Board uart.Port) → HoldsBytes b → ByteRead (bus_read uart rom address b)
    unfolding bus_read video_read
    read_sound address b h =
        if_both ByteRead (ltb address 0x0400)
          (record {
            value = All-get_or (λ n. n < 256) b.ram address 0 h.ram_bytes (omega arith);
            holds = h;
          })
          (if_both ByteRead (leb 0xd000 address)
            (if_both ByteRead (leb 0xf800 address) from_rom (
              if_both ByteRead (not (b.card.read_ram == 0))
                (record { value = card_byte address b.card h.card_bytes; holds = h }) from_rom))
            (if_both ByteRead (address == 0xc000)
              (key_read b _ _ b.port h (data_byte b.keys b.port h.latch_byte h.port_sound))
              (if_both ByteRead (address == 0xc010)
                (key_read b _ _ _ h (strobe_byte b.keys b.port h.latch_byte h.port_sound))
                (if_both ByteRead (address == 0xc030) (speaker _) (
                  if_both ByteRead (between 0xc050 0xc057 address)
                    (record { value = bit_value _; holds = same })
                    (if_both ByteRead (address == 0xc081)
                      (if_both ByteRead (uart.rx_ready b.port)
                        (record {
                          value = omega arith;
                          holds = record {
                            ram_bytes = h.ram_bytes;
                            latch_byte = h.latch_byte;
                            card_bytes = h.card_bytes;
                            port_sound = port_laws.rx-IsSound b.port h.port_sound;
                          };
                        })
                        (zero_read b h))
                      (if_both ByteRead (is_card_switch address)
                        (record { value = omega arith; holds = switch_holds address false b h })
                        (zero_read b h))))))))
      where
        from_rom : ByteRead (rom (address - 0xd000), b)
        from_rom = record { value = rom_bytes (address - 0xd000); holds = h }

        same : {v : Video} → HoldsBytes (record b { video = v })
        same = record {
          ram_bytes = h.ram_bytes;
          latch_byte = h.latch_byte;
          card_bytes = h.card_bytes;
          port_sound = h.port_sound;
        }

        bit_value : (t : Bool) → (if t then 0x00 else 0x80) < 256
        bit_value t = if_both (λ n. n < 256) t (omega arith) (omega arith)

        speaker : (on : ℕ) → ByteRead (if on == 0 then 0x00 else 0x80, record b { speaker_on = on })
        speaker on = record {
          value = bit_value (on == 0);
          holds = record {
            ram_bytes = h.ram_bytes;
            latch_byte = h.latch_byte;
            card_bytes = h.card_bytes;
            port_sound = h.port_sound;
          };
        }

    write_sound :
        (address v : ℕ) (b : Board uart.Port)
        → v < 256
        → HoldsBytes b
        → HoldsBytes (bus_write uart rom address v b)
    unfolding bus_write
    write_sound address v b hv h =
        if_both HoldsBytes (ltb address 0x0400)
          (record {
            ram_bytes = All-set _ b.ram address v h.ram_bytes hv;
            latch_byte = h.latch_byte;
            card_bytes = h.card_bytes;
            port_sound = h.port_sound;
          })
          (if_both HoldsBytes (leb 0xd000 address)
            (if_both HoldsBytes (ltb address 0xf800 && not (b.card.write_ram == 0))
              (card_holds address v b hv h) h)
            (if_both HoldsBytes (is_video_write address) (other _ _) (
              if_both HoldsBytes (address == 0xc010)
                (key_read b _ _ _ h (strobe_byte b.keys b.port h.latch_byte h.port_sound)).holds
                (if_both HoldsBytes (address == 0xc030) (other _ _) (
                  if_both HoldsBytes (between 0xc050 0xc057 address) (other _ _) (
                    if_both HoldsBytes (address == 0xc080)
                      (record {
                        ram_bytes = h.ram_bytes;
                        latch_byte = h.latch_byte;
                        card_bytes = h.card_bytes;
                        port_sound = port_laws.tx-IsSound v b.port hv h.port_sound;
                      })
                      (if_both HoldsBytes (is_card_switch address) (switch_holds address true b h)
                        h)))))))
      where
        other : (on : ℕ) (video : Video) → HoldsBytes (record b { speaker_on = on; video = video })
        other on video = record {
          ram_bytes = h.ram_bytes;
          latch_byte = h.latch_byte;
          card_bytes = h.card_bytes;
          port_sound = h.port_sound;
        }

    pub apple_laws : BusLaws (apple_bus uart rom)
    apple_laws = record {
      IsSound = HoldsBytes;
      read-lt = λ address b h. (read_sound address b h).value;
      read-IsSound = λ address b h. (read_sound address b h).holds;
      write-IsSound = write_sound;
    }

    pub apple_sound : (b : Board uart.Port) → HoldsBytes b → apple_laws.IsSound b
    unfolding apple_laws
    apple_sound b h = h

    pub bus_reset-IsSound :
        (b : Board uart.Port) → apple_laws.IsSound b → apple_laws.IsSound (bus_reset b)
    unfolding apple_laws bus_reset
    bus_reset-IsSound b h = record {
      ram_bytes = h.ram_bytes;
      latch_byte = omega arith;
      card_bytes = h.card_bytes;
      port_sound = h.port_sound;
    }
