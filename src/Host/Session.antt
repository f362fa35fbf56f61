-- ===== src/Host/Session.antt =====
-- avr/host_main.c: the host driver of the monitor board, and the port that avr/host_uart.c gives it.
-- The lines that `fgets` gives, of `stdin` and of each file that `fopen` opens, are arguments, and the output is the port's `sent`.
use sage_apple.Base.{
  ℕ, Bool, true, false, ◌&&◌, ◌||◌, List, [], ◌∷◌, Option, none, some, eq_bytes, ◌==◌,
  if◌then◌else◌,
}
use sage_apple.Bus.{Bus}
use sage_apple.Uart.{Uart}
use sage_apple.Uart.Ring.{Ring, hu_feed, hu_rx, hu_rx_ready, hu_tx}
use sage_apple.Cpu.Step.{Machine, cpu_reset}
use sage_apple.Monitor.{Board, monitor_bus}
use sage_apple.Host.{run_steps}

abbrev pub hu_uart : Uart
hu_uart = record { Port = Ring; rx_ready = hu_rx_ready; rx = hu_rx; tx = hu_tx }

abbrev pub is_empty : List ℕ → Bool
is_empty [] = true
is_empty (c ∷ s) = false

-- the line without the newlines and returns at its end
unfoldable pub trim : List ℕ → List ℕ
trim [] = []
trim (c ∷ s) =
    let rest = trim s in if is_empty rest && (c == 0x0a || c == 0x0d) then [] else c ∷ rest

-- The lines that are read for the argument `name`: those of `stdin` for a dash, or else those of the
-- file, if it can be opened.
unfoldable pub source :
    (List ℕ → Option (List (List ℕ))) → List (List ℕ) → List ℕ → Option (List (List ℕ))
source opened stdin name = if eq_bytes name (b'-' ∷ []) then some stdin else opened name

module _ (rom : ℕ → ℕ) where
  abbrev pub bus : Bus
  bus = monitor_bus hu_uart rom

  unfoldable pub run_budget : Machine (Board Ring) → Machine (Board Ring)
  run_budget m = run_steps bus 60000 m

  -- `hu_feed(s); run_budget();`
  unfoldable pub drive : List ℕ → Machine (Board Ring) → Machine (Board Ring)
  unfolding run_budget
  drive s m = run_budget (record m {
    core = record m.core { mem = record m.core.mem { port = hu_feed s m.core.mem.port } };
  })

  -- the loop over the lines
  unfoldable pub drive_lines : List (List ℕ) → Machine (Board Ring) → Machine (Board Ring)
  unfolding drive
  drive_lines [] m = m
  drive_lines (line ∷ lines) m =
      let s = trim line in
      let driven = drive (0x0d ∷ []) (drive s m) in
      drive_lines lines (if is_empty s then m else driven)

  -- the rest of `main` with an argument: a file that cannot be opened ends it with status 2
  unfoldable pub replay : Option (List (List ℕ)) → Machine (Board Ring) → ℕ × Machine (Board Ring)
  unfolding drive_lines
  replay none m = (2, m)
  replay (some lines) m = (0, drive_lines lines m)

  -- `main` with the argument `argv[1]`, if there is one: its exit status and its machine.
  unfoldable pub host_main :
      (List ℕ → Option (List (List ℕ)))
      → List (List ℕ)
      → Option (List ℕ)
      → Machine (Board Ring)
      → ℕ × Machine (Board Ring)
  unfolding run_budget replay source
  host_main opened stdin none m = (0, run_budget (cpu_reset bus m))
  host_main opened stdin (some name) m =
      replay (source opened stdin name) (run_budget (cpu_reset bus m))
