-- ===== src/Led/Patterns.antt =====
-- What the pin of the single LED shows under the beat interrupt.
use sage_apple.Base.{
  ℕ, zero, suc, ◌+◌, ◌*◌, ◌<◌, ◌≡◌, refl, ap, ap₂, ◌∙◌, arith, Bool, true, false, not, ◌||◌, List,
  [], ◌∷◌, ◌++◌, replicate, u8, leb, ◌==◌, if◌then◌else◌,
}
use sage_apple.Cpu.Regs.{flag, put_flag, set_flag, clear_flag}
use sage_apple.Cpu.Status.{flag-put}
use sage_apple.Led.State.{
  Seq, Led, led_stage_count, led_stage_monitor, led_fault_none, led_fault_count, beat_pulse_short,
  beat_pulse_long,
}
use sage_apple.Led.Sequencer.{seq_on, seq_beat, arm}
use sage_apple.Led.Driver.{
  write_port, led_write, led_paint_single, wdt_vect, led_arm, led_fault, led_stage_done,
}
use sage_apple.Led.Trace.{trace, Runs, once-Runs, repeats-Runs, group, groups, group_beats}

-- The LED on PORTB5 is lit while its bit is clear.
abbrev pub lit : Led → Bool
lit l = not (flag 0x20 l.portb)

-- Whether it is lit in each of the next `n` beats.
pub pin_trace : ℕ → Led → List Bool
pin_trace zero l = []
pin_trace (suc n) l = lit l ∷ pin_trace n (wdt_vect l)

not-not : (b : Bool) → not (not b) ≡ b
not-not true = refl
not-not false = refl

write_port-put : (on : Bool) (p : ℕ) → write_port 0x20 on p ≡ put_flag 0x20 (not on) p
unfolding write_port put_flag set_flag clear_flag
write_port-put true p = refl
write_port-put false p = refl

write_lit : (on : Bool) (p : ℕ) → not (flag 0x20 (write_port 0x20 on p)) ≡ on
write_lit on p =
    ap (λ (q : ℕ). not (flag 0x20 q)) (write_port-put on p)
    ∙ (ap not (flag-put 5 5 (not on) p (omega arith) (omega arith) (omega arith)) ∙ not-not on)

-- One LED, and it shows the sequencer's phase.
pub record Shows (l : Led) : Type 0 where
  pub single : l.led_n ≡ 1
  pub painted : lit l ≡ seq_on l.seq.mode l.seq.phase

paint-Shows : (l : Led) → l.led_n ≡ 1 → Shows (led_paint_single l)
unfolding led_paint_single led_write
paint-Shows l h = record { single = h; painted = write_lit _ l.portb }

wdt_single :
    (l : Led) → l.led_n ≡ 1 → wdt_vect l ≡ led_paint_single (record l { seq = seq_beat l.seq })
unfolding wdt_vect
wdt_single l h = rw h refl

seq-paint : (l : Led) → (led_paint_single l).seq ≡ l.seq
unfolding led_paint_single led_write
seq-paint l = refl

-- The driver with the monitor's latch set, if that is the stage.
abbrev pub seen : ℕ → Led → Led
seen stage l = if stage == led_stage_monitor then record l { monitor_seen = true } else l

pub seen-led_n : (stage : ℕ) (l : Led) → (seen stage l).led_n ≡ l.led_n
seen-led_n stage l = ground arith

pub stage_armed :
    (stage : ℕ) (l : Led)
    → l.led_n ≡ 1
    → stage < led_stage_count
    → led_stage_done stage l ≡ led_arm beat_pulse_short (suc stage) 0 (seen stage l)
unfolding led_stage_done
stage_armed stage l h hs = rw (known, single, count) refl
  where
    known : leb led_stage_count stage ≡ false
    known = ground arith

    single : ((seen stage l).led_n == 1) ≡ true
    single = ground (arith, seen-led_n stage l)

    count : u8 (stage + 1) ≡ suc stage
    count = omega arith

fault_armed :
    (code : ℕ) (l : Led)
    → l.led_n ≡ 1
    → suc code < led_fault_count
    → l.fault_latched ≡ led_fault_none
    → led_fault (suc code) l
      ≡ led_arm beat_pulse_long (suc code) (suc code) (record l { fault_latched = suc code })
unfolding led_fault
fault_armed code l h hc none = simp (known, fresh, single, code_byte) refl
  where
    known : (suc code == led_fault_none || leb led_fault_count (suc code)) ≡ false
    known = ground arith

    fresh : not (l.fault_latched == led_fault_none) ≡ false
    fresh = ground arith

    single : (l.led_n == 1) ≡ true
    single = ground arith

    code_byte : u8 (suc code) ≡ suc code
    code_byte = omega arith

armed-latched :
    (beats count repeat : ℕ) (l : Led)
    → (led_arm beats count repeat l).fault_latched ≡ l.fault_latched
unfolding led_arm led_paint_single led_write
armed-latched beats count repeat l = refl

-- The pin follows the sequencer.
pin_trace-trace : (n : ℕ) (l : Led) → Shows l → pin_trace n l ≡ trace n l.seq
unfolding pin_trace trace
pin_trace-trace zero l h = refl
pin_trace-trace (suc n) l h = ap₂ ◌∷◌ h.painted (
    ap (pin_trace n) (wdt_single l h.single)
    ∙ (pin_trace-trace n _ (paint-Shows (record l { seq = seq_beat l.seq }) h.single)
        ∙ ap (trace n) (seq-paint (record l { seq = seq_beat l.seq }))))

-- What an armed pattern shows, from a run of the sequencer.
armed_pattern :
    (beats count repeat n : ℕ) (l : Led) {bs : List Bool} {t : Seq}
    → l.led_n ≡ 1
    → Runs n (arm beats count repeat) bs t
    → pin_trace n (led_arm beats count repeat l) ≡ bs
unfolding led_arm
armed_pattern beats count repeat n l h r =
    pin_trace-trace n _ (paint-Shows (record l { seq = arm beats count repeat }) h)
    ∙ (ap (trace n) (seq-paint (record l { seq = arm beats count repeat })) ∙ r.shows)

-- On one LED, completing a stage shows as many short pulses as the stage's number counted from 1,
-- two beats lit each, two dark between them and eight dark behind them, and then darkness for as
-- long as no other call comes.
pub led_stage_done_pattern :
    (stage n : ℕ) (l : Led)
    → l.led_n ≡ 1
    → stage < led_stage_count
    → pin_trace (group_beats beat_pulse_short stage + n) (led_stage_done stage l)
      ≡ group beat_pulse_short stage ++ replicate n false
led_stage_done_pattern stage n l h hs =
    ap (pin_trace (group_beats beat_pulse_short stage + n)) (stage_armed stage l h hs)
    ∙ armed_pattern 2 (suc stage) 0 _ (seen stage l) (seen-led_n stage l ∙ h) (once-Runs 1 stage n)

-- On one LED, the first fault shows as its code in long pulses, six beats lit each, two dark
-- between them and eight behind them, repeated n times for every n, and the fault is latched.
pub led_fault_pattern :
    (code n : ℕ) (l : Led)
    → l.led_n ≡ 1
    → suc code < led_fault_count
    → l.fault_latched ≡ led_fault_none
    → (pin_trace (n * group_beats beat_pulse_long code) (led_fault (suc code) l)
        ≡ groups n beat_pulse_long code)
      × ((led_fault (suc code) l).fault_latched ≡ suc code)
led_fault_pattern code n l h hc none = (
  ap (pin_trace (n * group_beats beat_pulse_long code)) (fault_armed code l h hc none)
      ∙ armed_pattern 6 (suc code) (suc code) _ (record l { fault_latched = suc code }) h
          (repeats-Runs 5 code n),
  ap (λ (m : Led). m.fault_latched) (fault_armed code l h hc none)
      ∙ armed-latched 6 (suc code) (suc code) _,
)
