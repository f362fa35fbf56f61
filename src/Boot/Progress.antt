-- ===== src/Boot/Progress.antt =====
-- What the main loop shows of the boot stages and of the faults.
use sage_apple.Base.{
  u8, sym, leb, ◌^◌, ◌⊎◌, inl, inr, ◌/◌, ◌%◌, bit, bit_and, bit_and-two_pow, not, Bool-cases, ℕ,
  zero, suc, ◌+◌, ◌<◌, ◌≡◌, ◌≢◌, refl, ◌∙◌, arith, Bool, true, false, List, [], ◌∷◌, ◌==◌,
  if◌then◌else◌, if_both,
}
use native.Mathlib.Nat.{pow-suc}
use sage_apple.Bus.{Bus}
use sage_apple.Led.State.{
  Led, ResetBits, led_fault_none, led_stage_power, led_stage_uart, led_stage_cpu, led_stage_monitor,
  led_stage_count, beat_pulse_short,
}
use sage_apple.Led.Sequencer.{arm}
use sage_apple.Led.Driver.{
  led_init, init_state, init_pins, reset_fault, led_timer_start, led_stage_enter, led_stage_done,
  wdt_vect, led_idle, led_poll, led_fault, led_arm, led_paint_single, led_paint_multi, led_write,
  paint_from,
}
use sage_apple.Led.Patterns.{seen-led_n, stage_armed}
use sage_apple.Led.Faults.{painted-latched, after_none, is_fault}
use sage_apple.Boot.{Firmware, Setup, pass_stage, boot, Event, beat, pass, turn, events}

-- Passing a stage latches no fault.
done-latched : (stage : ℕ) (l : Led) → (led_stage_done stage l).fault_latched ≡ l.fault_latched
unfolding led_stage_done led_arm led_paint_single led_write
done-latched stage l = ground arith

enter-latched : (stage : ℕ) (l : Led) → (led_stage_enter stage l).fault_latched ≡ l.fault_latched
unfolding led_stage_enter
enter-latched stage l = ground arith

pass-latched : (stage : ℕ) (l : Led) → (pass_stage stage l).fault_latched ≡ l.fault_latched
unfolding pass_stage
pass-latched stage l = done-latched stage (led_stage_enter stage l) ∙ enter-latched stage l

idle-latched : (l : Led) → (led_idle l).fault_latched ≡ l.fault_latched
unfolding led_idle led_paint_multi led_write
idle-latched l =
    if_both (λ (m : Led). m.fault_latched ≡ l.fault_latched) (l.led_n == 1) refl
      (painted-latched _ 0 _)

pins-latched : (n i : ℕ) (l : Led) → (init_pins n i l).fault_latched ≡ l.fault_latched
unfolding init_pins
pins-latched zero i l = refl
pins-latched (suc n) i l =
    pins-latched n (i + 1) _
    ∙ if_both (λ (m : Led). m.fault_latched ≡ l.fault_latched) (i == 0) refl refl

-- A reset cause stands for no code that `led_fault` refuses.
reset_fault-accepted :
    (bits : ResetBits) (mcusr : ℕ)
    → (if is_fault (reset_fault bits mcusr) then reset_fault bits mcusr else led_fault_none)
      ≡ reset_fault bits mcusr
unfolding reset_fault
reset_fault-accepted bits mcusr = ground arith

cleared-latched :
    (count mcusr : ℕ) (l : Led) → (init_state count mcusr l).fault_latched ≡ led_fault_none
unfolding init_state led_timer_start
cleared-latched count mcusr l = pins-latched _ 0 _

-- The code of the first of these bits that is set in a reset cause, or none.
abbrev pub first_set : ℕ → List (ℕ × ℕ) → ℕ
first_set cause [] = led_fault_none
first_set cause ((k, code) ∷ rest) = if bit k cause == 1 then code else first_set cause rest

bit_cases : (k a : ℕ) → (bit k a ≡ 0) ⊎ (bit k a ≡ 1)
bit_cases zero a = elim (Bool-cases (a % 2 == 0)) [
  | inl e ↦ inl (ground arith)
  | inr e ↦ inr (ground arith)
]
bit_cases (suc k) a = bit_cases k (a / 2)

two_pow-pos : (k : ℕ) → 0 < 2 ^ k
two_pow-pos zero = omega arith
two_pow-pos (suc k) = omega (arith, pow-suc 2 k, two_pow-pos k)

-- A mask of one bit tests the bit.
masked : (k cause : ℕ) → not (bit_and cause (2 ^ k) == 0) ≡ (bit k cause == 1)
masked k cause = elim (bit_cases k cause) [
  | inl e ↦ ground (arith, bit_and-two_pow k cause, e)
  | inr e ↦ ground (arith, bit_and-two_pow k cause, e, two_pow-pos k)
]

-- A brownout goes before a watchdog reset, and that before an external one.
reset_fault-first_set :
    (bits : ResetBits) (mcusr : ℕ)
    → reset_fault bits mcusr
      ≡ first_set mcusr ((bits.borf, 1) ∷ (bits.wdrf, 2) ∷ (bits.extrf, 3) ∷ [])
unfolding reset_fault
reset_fault-first_set bits mcusr =
    rw (masked bits.borf mcusr, masked bits.wdrf mcusr, masked bits.extrf mcusr) refl

init-latched :
    (bits : ResetBits) (count mcusr : ℕ) (l : Led)
    → (led_init bits count mcusr l).fault_latched ≡ reset_fault bits mcusr
unfolding led_init
init-latched bits count mcusr l =
    after_none (reset_fault bits mcusr) (init_state count mcusr l) (cleared-latched count mcusr l)
    ∙ reset_fault-accepted bits mcusr

noticed-latched :
    (b : Bool) (l : Led)
    → (if b then led_idle (led_stage_done led_stage_monitor l) else l).fault_latched
      ≡ l.fault_latched
noticed-latched true l =
    idle-latched (led_stage_done led_stage_monitor l) ∙ done-latched led_stage_monitor l
noticed-latched false l = refl

poll-latched :
    (polled : ℕ) (l : Led)
    → l.fault_latched ≢ led_fault_none
    → (led_poll polled l).fault_latched ≡ l.fault_latched
unfolding led_poll
poll-latched polled l some = rw known refl
  where
    known : (l.fault_latched == led_fault_none) ≡ false
    known = ground arith

beat-latched : (l : Led) → (wdt_vect l).fault_latched ≡ l.fault_latched
unfolding wdt_vect led_paint_single led_paint_multi led_write
beat-latched l =
    if_both (λ (m : Led). m.fault_latched ≡ l.fault_latched) (l.led_n == 1) refl
      (painted-latched _ 0 (record l { flash_phase = u8 (l.flash_phase + 1) }))

painted-led_n : (n i : ℕ) (l : Led) → (paint_from n i l).led_n ≡ l.led_n
unfolding paint_from led_write
painted-led_n zero i l = refl
painted-led_n (suc n) i l =
    painted-led_n n (i + 1) _ ∙ if_both (λ (m : Led). m.led_n ≡ l.led_n) (i == 0) refl refl

fault-led_n : (code : ℕ) (l : Led) → (led_fault code l).led_n ≡ l.led_n
unfolding led_fault led_arm led_paint_single led_paint_multi led_write
fault-led_n code l =
    if_both Same _ {x = l} refl
      (if_both Same _ {x = l} refl (if_both Same (l.led_n == 1) refl (painted-led_n _ 0 _)))
  where
    Same : Led → Type 0
    Same m = m.led_n ≡ l.led_n

single_init : (bits : ResetBits) (mcusr : ℕ) (l : Led) → (led_init bits 1 mcusr l).led_n ≡ 1
unfolding led_init init_state led_timer_start init_pins
single_init bits mcusr l = fault-led_n (reset_fault bits mcusr) (init_state 1 mcusr l)

single_enter : (stage : ℕ) (l : Led) → l.led_n ≡ 1 → led_stage_enter stage l ≡ l
unfolding led_stage_enter
single_enter stage l single = rw one (if_both (λ m. m ≡ l) (leb led_stage_count stage) refl refl)
  where
    one : (l.led_n == 1) ≡ true
    one = ground arith

-- On one LED, passing a stage shows the stage's pattern.
single_pass :
    (stage : ℕ) (l : Led)
    → l.led_n ≡ 1
    → stage < led_stage_count
    → ((pass_stage stage l).led_n ≡ 1)
      × ((pass_stage stage l).seq ≡ arm beat_pulse_short (suc stage) 0)
unfolding pass_stage led_arm led_paint_single led_write
single_pass stage l single h =
    rw (single_enter stage l single, stage_armed stage l single h)
      (seen-led_n stage l ∙ single, refl)

module _ (bus : Bus) (bus_reset : bus.State → bus.State) where
  -- After the boot sequence, for any number of LEDs and whatever was latched before the reset, the
  -- latched fault is the brownout if that bit of the reset cause is set, or else the watchdog
  -- reset if that bit is, or else the external reset if that bit is, and else there is none. This
  -- holds for whatever numbers the chip's header gives the three bits.
  pub boot-fault_latched :
      (setup : Setup) (count mcusr : ℕ) (s : Firmware bus.State)
      → (boot bus bus_reset setup count mcusr s).led.fault_latched
        ≡ first_set mcusr (
            (setup.reset_bits.borf, 1)
            ∷ (setup.reset_bits.wdrf, 2)
            ∷ (setup.reset_bits.extrf, 3)
            ∷ [])
  unfolding boot
  boot-fault_latched setup count mcusr s =
      pass-latched led_stage_cpu _
      ∙ (pass-latched led_stage_uart _
          ∙ (pass-latched led_stage_power _
              ∙ (init-latched setup.reset_bits count mcusr s.led
                  ∙ reset_fault-first_set setup.reset_bits mcusr)))

  -- On one LED the boot sequence ends with the pattern of the third stage, whatever the reset
  -- cause is, so that a fault which the reset latched is not shown.
  pub boot-seq :
      (setup : Setup) (mcusr : ℕ) (s : Firmware bus.State)
      → (boot bus bus_reset setup 1 mcusr s).led.seq ≡ arm beat_pulse_short (suc led_stage_cpu) 0
  unfolding boot
  boot-seq setup mcusr s =
      (single_pass led_stage_cpu _ (single_pass led_stage_uart _ powered (omega arith)).0
        (omega arith)).1
    where
      powered : (pass_stage led_stage_power (led_init setup.reset_bits 1 mcusr s.led)).led_n ≡ 1
      powered =
          (single_pass led_stage_power _ (single_init setup.reset_bits mcusr s.led) (omega arith)).0

  turn-latched :
      (ucsr0a polled : ℕ) (s : Firmware bus.State)
      → s.led.fault_latched ≢ led_fault_none
      → (turn bus bus_reset ucsr0a polled s).led.fault_latched ≡ s.led.fault_latched
  unfolding turn led_poll
  turn-latched ucsr0a polled s some =
      poll-latched polled _ (λ none. some (sym (noticed-latched _ s.led) ∙ none))
      ∙ noticed-latched _ s.led

  -- A latched fault stays through any sequence of turns of the main loop and beat interrupts,
  -- whatever the serial port shows.
  pub events-fault_latched :
      (es : List Event) (s : Firmware bus.State)
      → s.led.fault_latched ≢ led_fault_none
      → (events bus bus_reset es s).led.fault_latched ≡ s.led.fault_latched
  unfolding events
  events-fault_latched [] s some = refl
  events-fault_latched (beat ∷ es) s some =
      events-fault_latched es _ (λ none. some (sym (beat-latched s.led) ∙ none))
      ∙ beat-latched s.led
  events-fault_latched (pass ucsr0a polled ∷ es) s some =
      events-fault_latched es _ (λ none. some (sym (turn-latched ucsr0a polled s some) ∙ none))
      ∙ turn-latched ucsr0a polled s some
