-- ===== src/Led/Limits.antt =====
-- avr/led.c: calls with arguments out of range, among any calls of the driver.
use sage_apple.Base.{ℕ, Bool, true, ◌&&◌, List, [], ◌∷◌, ltb, if◌then◌else◌}
use sage_apple.Led.State.{Led}
use sage_apple.Led.Driver.{led_fault, led_stage_enter, led_stage_done, led_idle, led_poll, wdt_vect}

-- a call of the driver, with its argument, or a beat
pub data Call : Type 0 where
  enters completes fails polls : ℕ → Call
  idles beats : Call

unfoldable pub call : Call → Led → Led
call (enters stage) l = led_stage_enter stage l
call (completes stage) l = led_stage_done stage l
call (fails code) l = led_fault code l
call (polls ucsr0a) l = led_poll ucsr0a l
call idles l = led_idle l
call beats l = wdt_vect l

unfoldable pub calls : List Call → Led → Led
calls [] l = l
calls (c ∷ cs) l = calls cs (call c l)

-- the stages are 0 to 3, and the faults 1 to 5
abbrev pub in_range : Call → Bool
in_range (enters stage) = ltb stage 4
in_range (completes stage) = ltb stage 4
in_range (fails code) = ltb 0 code && ltb code 6
in_range (polls ucsr0a) = true
in_range idles = true
in_range beats = true

abbrev pub only_in_range : List Call → List Call
only_in_range [] = []
only_in_range (c ∷ cs) = if in_range c then c ∷ only_in_range cs else only_in_range cs
