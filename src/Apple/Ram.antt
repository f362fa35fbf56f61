-- ===== src/Apple/Ram.antt =====
-- avr/bus_apple2.c over its first 1 KiB: plain memory, as the stack of the CPU core needs it.
use sage_apple.Base.{
  ℕ, ◌<◌, ◌≡◌, ◌∙◌, refl, arith, true, not, ◌&&◌, length, length-set, get_or, set, ltb, leb,
  between, ◌==◌, if_both, get_or-set_self, get_or-set_ne,
}
use sage_apple.Bus.{RamLaws}
use sage_apple.Uart.{Uart}
use sage_apple.Apple.State.{Board}
use sage_apple.Apple.Video.{is_video_write}
use sage_apple.Apple.Map.{bus_read, bus_write, apple_bus, is_card_switch}

below_0x0400 : (address : ℕ) → address < 0x0400 → ltb address 0x0400 ≡ true
below_0x0400 address h = ground arith

module _ (uart : Uart) (rom : ℕ → ℕ) where
  read_low :
      (address : ℕ) (b : Board uart.Port)
      → address < 0x0400
      → bus_read uart rom address b ≡ (get_or b.ram address 0, b)
  unfolding bus_read
  read_low address b h = rw (below_0x0400 address h) refl

  write_low :
      (address v : ℕ) (b : Board uart.Port)
      → address < 0x0400
      → bus_write uart rom address v b ≡ record b { ram = set b.ram address v }
  unfolding bus_write
  write_low address v b h = rw (below_0x0400 address h) refl

  -- A read leaves the memory.
  record KeepsRam (b : Board uart.Port) (t : ℕ × Board uart.Port) : Type 0 where
    same : t.1.ram ≡ b.ram

  read-KeepsRam : (address : ℕ) (b : Board uart.Port) → KeepsRam b (bus_read uart rom address b)
  unfolding bus_read
  read-KeepsRam address b =
      if_both (KeepsRam b) (ltb address 0x0400) (record { same = refl })
        (if_both (KeepsRam b) (leb 0xd000 address)
          (if_both (KeepsRam b) (leb 0xf800 address) (record { same = refl })
            (if_both (KeepsRam b) (not (b.card.read_ram == 0)) (record { same = refl })
              (record { same = refl })))
          (if_both (KeepsRam b) (address == 0xc000) (record { same = refl })
            (if_both (KeepsRam b) (address == 0xc010) (record { same = refl })
              (if_both (KeepsRam b) (address == 0xc030) (record { same = refl })
                (if_both (KeepsRam b) (between 0xc050 0xc057 address) (record { same = refl })
                  (if_both (KeepsRam b) (address == 0xc081)
                    (if_both (KeepsRam b) (uart.rx_ready b.port) (record { same = refl })
                      (record { same = refl }))
                    (if_both (KeepsRam b) (is_card_switch address) (record { same = refl })
                      (record { same = refl }))))))))

  pub record HasFullRam (b : Board uart.Port) : Type 0 where
    pub size : length b.ram ≡ 1024

  write-HasFullRam :
      (address v : ℕ) (b : Board uart.Port)
      → HasFullRam b
      → HasFullRam (bus_write uart rom address v b)
  unfolding bus_write
  write-HasFullRam address v b h =
      if_both HasFullRam (ltb address 0x0400)
        (record { size = length-set b.ram address v ∙ h.size })
        (if_both HasFullRam (leb 0xd000 address)
          (if_both HasFullRam (ltb address 0xf800 && not (b.card.write_ram == 0))
            (record { size = h.size }) h)
          (if_both HasFullRam (is_video_write address) (record { size = h.size })
            (if_both HasFullRam (address == 0xc010) (record { size = h.size })
              (if_both HasFullRam (address == 0xc030) (record { size = h.size })
                (if_both HasFullRam (between 0xc050 0xc057 address) (record { size = h.size })
                  (if_both HasFullRam (address == 0xc080) (record { size = h.size })
                    (if_both HasFullRam (is_card_switch address) (record { size = h.size }) h)))))))

  pub apple_ram_laws : RamLaws (apple_bus uart rom)
  apple_ram_laws = record {
    HasRam = HasFullRam;
    write-HasRam = write-HasFullRam;
    read_pure = λ address b h. rw (read_low address b h) refl;
    read-write_self = λ address v b h hr.
        rw (write_low address v b hr, read_low address _ hr)
          (get_or-set_self b.ram address v 0 (omega (arith, h.size)));
    read-write_ne = λ address other v b ha ho ne.
        rw (write_low address v b ha, read_low other _ ho, read_low other b ho)
          (get_or-set_ne b.ram address other v 0 ne);
    read_keeps = λ address other b ho.
        rw (read_low other _ ho, read_low other b ho, (read-KeepsRam address b).same) refl;
  }
