-- ===== src/Host/Endurance.antt =====
-- The sessions of avr/host_main.c as a whole: its port, the monitor board and the core.
use sage_apple.Base.{
  ℕ, ◌<◌, ◌≡◌, refl, ◌∙◌, arith, false, List, [], ◌∷◌, Option, none, some, if_both, All, All-set,
  All-get_or, u8, ◌==◌,
}
use sage_apple.Uart.{UartLaws}
use sage_apple.Uart.Ring.{Ring, hu_feed, hu_rx, hu_tx}
use sage_apple.Bus.{BusLaws}
use sage_apple.Cpu.Step.{Machine, cpu_reset}
use sage_apple.Cpu.Safety.Machine.{IsSoundMachine, cpu_reset-IsSoundMachine}
use sage_apple.Monitor.{Board}
use sage_apple.Monitor.Laws.{monitor_laws, with_port}
use sage_apple.Host.Runs.{full_runs, typed_session, host_main-full_runs}
use sage_apple.Host.Steps.{steps, run_steps-steps, run_steps-IsSoundMachine}
use sage_apple.Host.Session.{
  hu_uart, is_empty, trim, run_budget, drive, drive_lines, source, replay, host_main, bus,
}

abbrev HasBytes : Ring → Type 0
HasBytes r = All (λ n. n < 256) r.buf

received : (r : Ring) → HasBytes r → ((hu_rx r).0 < 256) × HasBytes (hu_rx r).1
unfolding hu_rx
received r h =
    if_both (λ (t : ℕ × Ring). (t.0 < 256) × HasBytes t.1) (r.head == r.tail) (omega arith, h)
      (All-get_or (λ n. n < 256) r.buf r.head 0 h (omega arith), h)

-- The port of avr/host_uart.c holds bytes.
pub hu_laws : UartLaws hu_uart
unfolding hu_tx
hu_laws = record {
  IsSound = HasBytes;
  rx-lt = λ r h. (received r h).0;
  rx-IsSound = λ r h. (received r h).1;
  tx-IsSound = λ v r hv h. h;
}

pub hu_sound : (r : Ring) → All (λ n. n < 256) r.buf → hu_laws.IsSound r
unfolding hu_laws
hu_sound r h = h

hu_feed-IsSound : (s : List ℕ) (r : Ring) → hu_laws.IsSound r → hu_laws.IsSound (hu_feed s r)
unfolding hu_feed hu_laws
hu_feed-IsSound [] r h = h
hu_feed-IsSound (c ∷ s) r h =
    hu_feed-IsSound s _ (All-set (λ n. n < 256) r.buf r.tail (u8 c) h (omega arith))

module _ (rom : ℕ → ℕ) (rom_bytes : (n : ℕ) → rom n < 256) where
  abbrev pub laws : BusLaws (bus rom)
  laws = monitor_laws hu_laws rom rom_bytes

  -- The machine is sound and not halted.
  abbrev Runs : Machine (Board Ring) → Type 0
  Runs m = IsSoundMachine laws m × (m.halted ≡ false)

  run_budget-Runs : (m : Machine (Board Ring)) → Runs m → Runs (run_budget rom m)
  unfolding run_budget
  run_budget-Runs m h = (
    run_steps-IsSoundMachine (bus rom) laws 60000 m h.0,
    (run_steps-steps (bus rom) 60000 m).1 ∙ h.1,
  )

  drive-Runs : (s : List ℕ) (m : Machine (Board Ring)) → Runs m → Runs (drive rom s m)
  unfolding drive
  drive-Runs s m h = run_budget-Runs _ (
    record {
      core_sound = record {
        valid = h.0.core_sound.valid;
        sound =
            with_port hu_laws rom rom_bytes (hu_feed s) (hu_feed-IsSound s) m.core.mem
              h.0.core_sound.sound;
      };
      cycount_word = h.0.cycount_word;
    },
    h.1,
  )

  drive_lines-Runs :
      (lines : List (List ℕ)) (m : Machine (Board Ring)) → Runs m → Runs (drive_lines rom lines m)
  unfolding drive_lines
  drive_lines-Runs [] m h = h
  drive_lines-Runs (line ∷ lines) m h = drive_lines-Runs lines _ (
      if_both Runs (is_empty (trim line)) h (drive-Runs (0x0d ∷ []) _ (drive-Runs (trim line) m h)))

  cpu_reset-Runs : (m : Machine (Board Ring)) → IsSoundMachine laws m → Runs (cpu_reset (bus rom) m)
  unfolding cpu_reset
  cpu_reset-Runs m h = (cpu_reset-IsSoundMachine laws m h, refl)

  booted :
      (m : Machine (Board Ring))
      → IsSoundMachine laws m
      → Runs (run_budget rom (cpu_reset (bus rom) m))
  booted m h = run_budget-Runs (cpu_reset (bus rom) m) (cpu_reset-Runs m h)

  driven :
      (read : Option (List (List ℕ))) (m : Machine (Board Ring))
      → Runs m
      → Runs (replay rom read m).1
  unfolding replay
  driven none m h = h
  driven (some lines) m h = drive_lines-Runs lines m h

  session-Runs :
      (opened : List ℕ → Option (List (List ℕ))) (stdin : List (List ℕ))
      (argument : Option (List ℕ)) (m : Machine (Board Ring))
      → IsSoundMachine laws m
      → Runs (host_main rom opened stdin argument m).1
  unfolding host_main
  session-Runs opened stdin none m h = booted m h
  session-Runs opened stdin (some name) m h =
      driven (source opened stdin name) (run_budget rom (cpu_reset (bus rom) m)) (booted m h)

  -- A session of the host driver on the monitor board, with a ROM of bytes, with or without an
  -- argument and whatever lines it reads, from a sound machine, is the reset and 60000 steps, and
  -- then for each line, less its line end, that is not empty, the line and 60000 steps, and a
  -- return and 60000 steps: no run ends early, and the core is not halted at the end. The
  -- registers, the counters, the memory and the FIFO's buffer stay in their ranges.
  pub host_main-IsSoundMachine :
      (opened : List ℕ → Option (List (List ℕ))) (stdin : List (List ℕ))
      (argument : Option (List ℕ)) (m : Machine (Board Ring))
      → IsSoundMachine laws m
      → IsSoundMachine laws (host_main rom opened stdin argument m).1
        × ((host_main rom opened stdin argument m).1
            ≡ full_runs rom
                (typed_session opened stdin argument)
                (steps (bus rom) 60000 (cpu_reset (bus rom) m)))
        × ((host_main rom opened stdin argument m).1.halted ≡ false)
  host_main-IsSoundMachine opened stdin argument m h =
      let kept = session-Runs opened stdin argument m h in
      (kept.0, host_main-full_runs rom opened stdin argument m, kept.1)
