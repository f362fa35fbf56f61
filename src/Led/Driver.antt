-- ===== src/Led/Driver.antt =====
-- avr/led.c:102-325: the painting, the beat interrupt, and the public interface. The hardware
-- registers MCUSR and UCSR0A, which the code reads, are arguments, and so are the bits of MCUSR.
use sage_apple.Base.{
  ℕ, zero, suc, ◌+◌, ◌-◌, ◌^◌, Bool, true, false, not, ◌||◌, List, [], ◌∷◌, get_or, set, bit_and,
  bit_or, u8, ltb, leb, ◌==◌, if◌then◌else◌,
}
use sage_apple.Led.State.{
  Visual, off, flash, solid, fault, ph_idle, mode_idle, mode_pattern, Led, ResetBits,
  led_stage_monitor, led_stage_count, led_fault_none, led_fault_brownout, led_fault_watchdog,
  led_fault_external, led_fault_uart_overrun, led_fault_uart_framing, led_fault_count, led_max,
  beat_pulse_short, beat_pulse_long,
}
use sage_apple.Led.Sequencer.{seq_on, seq_beat, arm}

-- `LED_PINS[i].bit` as a mask: PORTB5, then PORTD2 to PORTD4
unfoldable pub pin_mask : ℕ → ℕ
pin_mask i = get_or (0x20 ∷ 0x04 ∷ 0x08 ∷ 0x10 ∷ []) i 0

-- `led_write(&LED_PINS[i], on)`: clearing the bit lights the LED
unfoldable pub write_port : ℕ → Bool → ℕ → ℕ
write_port mask on port = if on then bit_and port (0xff - mask) else bit_or port mask

unfoldable pub led_write : ℕ → Bool → Led → Led
unfolding pin_mask write_port
led_write i on l =
    if i == 0
    then record l { portb = write_port (pin_mask i) on l.portb }
    else record l { portd = write_port (pin_mask i) on l.portd }

unfoldable pub led_paint_single : Led → Led
led_paint_single l = led_write 0 (seq_on l.seq.mode l.seq.phase) l

-- the `switch` of `led_paint_multi`
unfoldable pub visual_on : Visual → Bool → Bool
visual_on solid flash_on = true
visual_on flash flash_on = flash_on
visual_on fault flash_on = flash_on
visual_on off flash_on = false

-- The loop from `i`, with `n` rounds left.
unfoldable pub paint_from : ℕ → ℕ → Led → Led
paint_from zero i l = l
paint_from (suc n) i l =
    let on = visual_on (get_or l.led_state i off) (not (bit_and l.flash_phase 1 == 0)) in
    paint_from n (i + 1) (led_write i on l)

-- the rounds of `for (i = 0; i < led_n && i < LED_STAGE_COUNT; i++)`
abbrev pub stages_shown : Led → ℕ
stages_shown l = if ltb l.led_n led_stage_count then l.led_n else led_stage_count

unfoldable pub led_paint_multi : Led → Led
led_paint_multi l = paint_from (stages_shown l) 0 l

-- `ISR(WDT_vect)`
unfoldable pub wdt_vect : Led → Led
wdt_vect l =
    if l.led_n == 1
    then led_paint_single (record l { seq = seq_beat l.seq })
    else led_paint_multi (record l { flash_phase = u8 (l.flash_phase + 1) })

unfoldable pub led_arm : ℕ → ℕ → ℕ → Led → Led
led_arm beats count repeat l = led_paint_single (record l { seq = arm beats count repeat })

-- the last write of `led_timer_start`: WDIE and WDP2
unfoldable pub led_timer_start : Led → Led
led_timer_start l = record l { wdtcsr = 0x44 }

-- `led_state[i] = v` for each `i` below `n`
unfoldable pub fill : ℕ → Visual → List Visual → List Visual
fill zero v states = states
fill (suc n) v [] = []
fill (suc n) v (s ∷ states) = v ∷ fill n v states

unfoldable pub led_fault : ℕ → Led → Led
led_fault code l =
    if code == led_fault_none || leb led_fault_count code
    then l
    else if not (l.fault_latched == led_fault_none)
    then l
    else (let m = record l { fault_latched = code } in
        if m.led_n == 1
        then led_arm beat_pulse_long (u8 code) (u8 code) m
        else (let dark = fill m.led_n off m.led_state in
            led_paint_multi
              (record m { led_state = if ltb code m.led_n then set dark code fault else dark })))

-- The first loop of `led_init` at `i`: the pin becomes an output, and dark.
unfoldable pub init_pins : ℕ → ℕ → Led → Led
init_pins zero i l = l
init_pins (suc n) i l =
    let m =
      if i == 0
      then record l { ddrb = bit_or l.ddrb (pin_mask i); portb = bit_or l.portb (pin_mask i) }
      else record l { ddrd = bit_or l.ddrd (pin_mask i); portd = bit_or l.portd (pin_mask i) } in
    init_pins n (i + 1) m

-- the bits BORF, WDRF and EXTRF by avr/avrtest/avr/io.h, the header of the host's test
abbrev pub stub_bits : ResetBits
stub_bits = record { borf = 0; wdrf = 3; extrf = 1 }

-- the fault that a reset cause stands for
unfoldable pub reset_fault : ResetBits → ℕ → ℕ
reset_fault bits cause =
    if not (bit_and cause (2 ^ bits.borf) == 0)
    then led_fault_brownout
    else if not (bit_and cause (2 ^ bits.wdrf) == 0)
    then led_fault_watchdog
    else if not (bit_and cause (2 ^ bits.extrf) == 0)
    then led_fault_external
    else led_fault_none

-- `led_init` up to the reset faults, for a build with LED_COUNT `count`
unfoldable pub init_state : ℕ → ℕ → Led → Led
init_state count mcusr l =
    let n = u8 (if ltb led_max count then led_max else count) in
    let m = init_pins n 0 (record l {
      reset_cause = mcusr;
      fault_latched = led_fault_none;
      fault_now = led_fault_none;
      led_n = n;
      led_state = fill n off l.led_state;
    }) in
    led_timer_start (record m {
      flash_phase = 0;
      monitor_seen = false;
      seq = record {
        mode = mode_pattern;
        phase = ph_idle;
        pulse = 0;
        left = 0;
        gap = 0;
        repeat = 0;
        beats = beat_pulse_short;
      };
    })

-- `led_fault(LED_FAULT_NONE)` changes nothing, so the absent call is one of it.
unfoldable pub led_init : ResetBits → ℕ → ℕ → Led → Led
led_init bits count mcusr l = led_fault (reset_fault bits mcusr) (init_state count mcusr l)

unfoldable pub led_stage_enter : ℕ → Led → Led
led_stage_enter stage l =
    if leb led_stage_count stage
    then l
    else if l.led_n == 1
    then l
    else record l { led_state = set l.led_state stage flash }

unfoldable pub led_stage_done : ℕ → Led → Led
led_stage_done stage l =
    if leb led_stage_count stage
    then l
    else (let m = if stage == led_stage_monitor then record l { monitor_seen = true } else l in
        if m.led_n == 1
        then led_arm beat_pulse_short (u8 (stage + 1)) 0 m
        else record m { led_state = set m.led_state stage solid })

abbrev pub is_solid : Visual → Bool
is_solid solid = true
is_solid off = false
is_solid flash = false
is_solid fault = false

unfoldable pub led_stage_is_done : ℕ → Led → Bool
led_stage_is_done stage l =
    if leb led_stage_count stage
    then false
    else if not (l.led_n == 1)
    then is_solid (get_or l.led_state stage off)
    else if stage == led_stage_monitor
    then l.monitor_seen
    else true

unfoldable pub led_idle : Led → Led
led_idle l =
    if l.led_n == 1
    then led_write 0 true (record l { seq = record l.seq { mode = mode_idle } })
    else led_paint_multi (record l { led_state = fill (stages_shown l) solid l.led_state })

-- the bits DOR0 and FE0 of UCSR0A, by the same header
abbrev pub dor0 : ℕ
dor0 = 0x08

abbrev pub fe0 : ℕ
fe0 = 0x10

-- the serial fault that UCSR0A shows
unfoldable pub serial_fault : ℕ → ℕ
serial_fault ucsr0a =
    if not (bit_and ucsr0a dor0 == 0)
    then led_fault_uart_overrun
    else if not (bit_and ucsr0a fe0 == 0)
    then led_fault_uart_framing
    else led_fault_none

-- The result is `fault_now` of the new state.
unfoldable pub led_poll : ℕ → Led → Led
led_poll ucsr0a l =
    let m = if l.fault_latched == led_fault_none then led_fault (serial_fault ucsr0a) l else l in
    record m { fault_now = m.fault_latched }

unfoldable pub led_fault_code : Led → ℕ
led_fault_code l = l.fault_latched

unfoldable pub led_count : Led → ℕ
led_count l = l.led_n
