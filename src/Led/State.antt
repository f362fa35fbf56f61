-- ===== src/Led/State.antt =====
-- avr/led.h:43-75 and avr/led.c:31-99: the stages, the faults, and the driver's variables.
use sage_apple.Base.{ℕ, Bool, List}

-- `led_stage_t`; an argument of that type is a number, since the code tests its range.
abbrev pub led_stage_power : ℕ
led_stage_power = 0

abbrev pub led_stage_uart : ℕ
led_stage_uart = 1

abbrev pub led_stage_cpu : ℕ
led_stage_cpu = 2

abbrev pub led_stage_monitor : ℕ
led_stage_monitor = 3

abbrev pub led_stage_count : ℕ
led_stage_count = 4

-- `led_visual_t`
pub data Visual : Type 0 where
  off flash solid fault : Visual

-- `led_fault_t`
abbrev pub led_fault_none : ℕ
led_fault_none = 0

abbrev pub led_fault_brownout : ℕ
led_fault_brownout = 1

abbrev pub led_fault_watchdog : ℕ
led_fault_watchdog = 2

abbrev pub led_fault_external : ℕ
led_fault_external = 3

abbrev pub led_fault_uart_overrun : ℕ
led_fault_uart_overrun = 4

abbrev pub led_fault_uart_framing : ℕ
led_fault_uart_framing = 5

abbrev pub led_fault_count : ℕ
led_fault_count = 6

abbrev pub beat_pulse_short : ℕ
beat_pulse_short = 2

abbrev pub beat_pulse_long : ℕ
beat_pulse_long = 6

abbrev pub beat_between : ℕ
beat_between = 2

abbrev pub beat_group_gap : ℕ
beat_group_gap = 8

abbrev pub led_max : ℕ
led_max = 4

-- LED_PH_IDLE, LED_PH_PULSE, LED_PH_GAP
pub data Phase : Type 0 where
  ph_idle ph_pulse ph_gap : Phase

-- LED_MODE_IDLE, LED_MODE_PATTERN
pub data Mode : Type 0 where
  mode_idle mode_pattern : Mode

-- the single-LED sequencer: `seq_mode`, `seq_phase`, …, all `uint8_t`
pub record Seq : Type 0 where
  pub mode : Mode
  pub phase : Phase
  pub pulse : ℕ
  pub beats : ℕ
  pub left : ℕ
  pub gap : ℕ
  pub repeat : ℕ

-- The driver's variables, and the port registers and the watchdog register that it writes.
pub record Led : Type 0 where
  pub led_n : ℕ
  pub led_state : List Visual
  pub fault_latched : ℕ
  pub fault_now : ℕ
  pub reset_cause : ℕ
  pub monitor_seen : Bool
  pub seq : Seq
  pub flash_phase : ℕ
  pub portb : ℕ
  pub ddrb : ℕ
  pub portd : ℕ
  pub ddrd : ℕ
  pub wdtcsr : ℕ

-- The numbers of three bits of MCUSR, which avr/led.c takes from the header avr/io.h: the chip's own
-- in the firmware, that of avr/avrtest in the host's test.
pub record ResetBits : Type 0 where
  pub borf : ℕ
  pub wdrf : ℕ
  pub extrf : ℕ
