-- ===== src/Boot/Stepping.antt =====
-- avr/main.c: what the firmware does to the core, from its start on.
use sage_apple.Base.{ℕ, zero, suc, List, [], ◌∷◌}
use sage_apple.Bus.{Bus}
use sage_apple.Boot.{Event, beat, pass}

-- how many turns of the main loop a sequence of events has
abbrev pub passes : List Event → ℕ
passes [] = zero
passes (beat ∷ es) = passes es
passes (pass ucsr0a polled ∷ es) = suc (passes es)
