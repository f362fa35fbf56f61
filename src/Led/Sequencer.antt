-- ===== src/Led/Sequencer.antt =====
-- avr/led.c:108-197: the sequencer of the single-LED language, without the painting.
use sage_apple.Base.{ℕ, ◌-◌, Bool, true, false, ltb, ◌==◌, if◌then◌else◌}
use sage_apple.Led.State.{
  Phase, ph_idle, ph_pulse, ph_gap, Mode, mode_idle, mode_pattern, Seq, beat_between,
  beat_group_gap,
}

-- whether `led_paint_single` lights the LED
unfoldable pub seq_on : Mode → Phase → Bool
seq_on mode_idle phase = true
seq_on mode_pattern ph_pulse = true
seq_on mode_pattern ph_idle = false
seq_on mode_pattern ph_gap = false

-- `if (x) { x--; }`
abbrev pub decrement : ℕ → ℕ
decrement x = if x == 0 then 0 else x - 1

-- one beat in LED_PH_PULSE
unfoldable pub pulse_beat : Seq → Seq
pulse_beat s =
    let t = record s { pulse = decrement s.pulse } in
    if t.pulse == 0
    then (if ltb 1 t.left
        then record t { left = t.left - 1; gap = beat_between; phase = ph_gap }
        else record t { left = 0; gap = beat_group_gap; phase = ph_gap })
    else t

-- one beat in LED_PH_GAP
unfoldable pub gap_beat : Seq → Seq
gap_beat s =
    let t = record s { gap = decrement s.gap } in
    if t.gap == 0
    then (if t.left == 0
        then (if t.repeat == 0
            then record t { phase = ph_idle }
            else record t { left = t.repeat; pulse = t.beats; phase = ph_pulse })
        else record t { pulse = t.beats; phase = ph_pulse })
    else t

-- what WDT_vect does to the sequencer, by its mode and phase
unfoldable pub phase_beat : Mode → Phase → Seq → Seq
unfolding pulse_beat gap_beat
phase_beat mode_pattern ph_pulse s = pulse_beat s
phase_beat mode_pattern ph_gap s = gap_beat s
phase_beat mode_pattern ph_idle s = s
phase_beat mode_idle phase s = s

unfoldable pub seq_beat : Seq → Seq
unfolding phase_beat
seq_beat s = phase_beat s.mode s.phase s

-- `led_arm` on the sequencer
unfoldable pub arm : ℕ → ℕ → ℕ → Seq
arm beats count repeat = record {
  mode = mode_pattern;
  phase = ph_pulse;
  pulse = beats;
  beats = beats;
  left = count;
  gap = 0;
  repeat = repeat;
}
