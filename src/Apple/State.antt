-- ===== src/Apple/State.antt =====
-- avr/bus_apple2.c:10-32 and 207-225: the bus's variables and `bus_reset`.
use sage_apple.Base.{ℕ, List, replicate}

abbrev pub video_text : ℕ
video_text = 0x01

abbrev pub video_mixed : ℕ
video_mixed = 0x02

abbrev pub video_page2 : ℕ
video_page2 = 0x04

abbrev pub video_hires : ℕ
video_hires = 0x08

pub record Keys : Type 0 where
  pub keyboard_latch : ℕ
  pub keyboard_strobe : ℕ
  pub keyboard_latch_valid : ℕ

pub record Video : Type 0 where
  pub video_switches : List ℕ
  pub video_values : List ℕ
  pub video_state : ℕ
  pub video_event_count : ℕ
  pub video_last_address : ℕ
  pub video_last_value : ℕ

-- `language_card_bank`, `_read_ram`, `_write_ram`, `_prewrite` and `_ram`
pub record Card : Type 0 where
  pub bank : ℕ
  pub read_ram : ℕ
  pub write_ram : ℕ
  pub prewrite : ℕ
  pub card_ram : List ℕ

pub record Board (P : Type 0) : Type 0 where
  pub ram : List ℕ
  pub keys : Keys
  pub speaker_on : ℕ
  pub video : Video
  pub card : Card
  pub port : P

-- The memories and the port are left alone.
unfoldable pub bus_reset : {P : Type 0} → Board P → Board P
bus_reset b = record b {
  keys = record { keyboard_latch = 0; keyboard_strobe = 0; keyboard_latch_valid = 0 };
  speaker_on = 0;
  video = record {
    video_switches = replicate 8 0;
    video_values = replicate 8 0;
    video_state = video_text;
    video_event_count = 0;
    video_last_address = 0;
    video_last_value = 0;
  };
  card = record { bank = 2; read_ram = 0; write_ram = 1; prewrite = 0; card_ram = b.card.card_ram };
}
