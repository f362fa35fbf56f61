-- ===== src/Apple/Map.antt =====
-- avr/bus_apple2.c:155-165 and 227-314: `bus_read` and `bus_write`. The ROM's bytes, generated in
-- avr/rom_apple2.c, are a parameter.
use sage_apple.Base.{
  ℕ, ◌-◌, Bool, true, false, ◌||◌, ◌&&◌, not, bit_or, u8, set, get_or, ltb, leb, between, ◌==◌,
  if◌then◌else◌,
}
use sage_apple.Bus.{Bus}
use sage_apple.Uart.{Uart}
use sage_apple.Apple.State.{Board}
use sage_apple.Apple.Keyboard.{keyboard_read_strobe, keyboard_read_data}
use sage_apple.Apple.Video.{is_video_write, record_video_write, video_read, video_write}
use sage_apple.Apple.Card.{language_card_switch, language_card_read, language_card_write, truth}

unfoldable pub toggle_speaker : ℕ → ℕ
toggle_speaker on = truth (on == 0)

abbrev pub is_card_switch : ℕ → Bool
is_card_switch address = between 0xc300 0xc303 address || between 0xc308 0xc30b address

module _ (uart : Uart) (apple2rom : ℕ → ℕ) where
  open uart use {Port, rx_ready, rx, tx}

  unfoldable pub bus_read : ℕ → Board Port → ℕ × Board Port
  bus_read address b =
      if ltb address 0x0400
      then (get_or b.ram address 0, b)
      else if leb 0xd000 address
      then (if leb 0xf800 address
          then (apple2rom (address - 0xd000), b)
          else if not (b.card.read_ram == 0)
          then (language_card_read address b.card, b)
          else (apple2rom (address - 0xd000), b))
      else if address == 0xc000
      then (let (v, k) = keyboard_read_data b.keys in (v, record b { keys = k }))
      else if address == 0xc010
      then (let (v, k, port) = keyboard_read_strobe uart (b.keys, b.port) in
          (v, record b { keys = k; port = port }))
      else if address == 0xc030
      then (let on = toggle_speaker b.speaker_on in
          (if on == 0 then 0x00 else 0x80, record b { speaker_on = on }))
      else if between 0xc050 0xc057 address
      then (let (v, video) = video_read address b.video in (v, record b { video = video }))
      else if address == 0xc081
      then (if rx_ready b.port
          then (let (c, port) = rx b.port in (u8 (bit_or 0x80 c), record b { port = port }))
          else (0x00, b))
      else if is_card_switch address
      then (0x00, record b { card = language_card_switch address false b.card })
      else (0x00, b)

  unfoldable pub bus_write : ℕ → ℕ → Board Port → Board Port
  bus_write address value b =
      if ltb address 0x0400
      then record b { ram = set b.ram address value }
      else if leb 0xd000 address
      then (if ltb address 0xf800 && not (b.card.write_ram == 0)
          then record b { card = language_card_write address value b.card }
          else b)
      else if is_video_write address
      then record b { video = record_video_write address value b.video }
      else if address == 0xc010
      then (let (v, k, port) = keyboard_read_strobe uart (b.keys, b.port) in
          record b { keys = k; port = port })
      else if address == 0xc030
      then record b { speaker_on = toggle_speaker b.speaker_on }
      else if between 0xc050 0xc057 address
      then record b { video = video_write address value b.video }
      else if address == 0xc080
      then record b { port = tx value b.port }
      else if is_card_switch address
      then record b { card = language_card_switch address true b.card }
      else b

  abbrev pub apple_bus : Bus
  apple_bus = record { State = Board Port; read = bus_read; write = bus_write }
