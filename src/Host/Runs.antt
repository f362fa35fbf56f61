-- ===== src/Host/Runs.antt =====
-- avr/host_main.c: what a session types, and the steps that its runs take.
use sage_apple.Base.{
  ℕ, ◌≡◌, refl, ap, ◌∙◌, false, List, [], ◌∷◌, Option, none, some, if_false, if_agree,
  if◌then◌else◌,
}
use sage_apple.Uart.Ring.{Ring, hu_feed}
use sage_apple.Cpu.Step.{Machine, cpu_reset}
use sage_apple.Monitor.{Board}
use sage_apple.Host.Steps.{steps, steps-halted, run_steps-steps}
use sage_apple.Host.Session.{
  is_empty, trim, run_budget, drive, drive_lines, source, replay, host_main, bus,
}

-- The strings that are typed for these lines: each without its line end and then a return, but
-- nothing for an empty one.
abbrev pub typed_lines : List (List ℕ) → List (List ℕ)
typed_lines [] = []
typed_lines (line ∷ lines) =
    if is_empty (trim line) then typed_lines lines else trim line ∷ (0x0d ∷ []) ∷ typed_lines lines

abbrev pub typed_source : Option (List (List ℕ)) → List (List ℕ)
typed_source none = []
typed_source (some lines) = typed_lines lines

-- the strings that are typed with this argument, if there is one
abbrev pub typed_session :
    (List ℕ → Option (List (List ℕ))) → List (List ℕ) → Option (List ℕ) → List (List ℕ)
typed_session opened stdin none = []
typed_session opened stdin (some name) = typed_source (source opened stdin name)

module _ (rom : ℕ → ℕ) where
  abbrev fed : List ℕ → Machine (Board Ring) → Machine (Board Ring)
  fed s m = record m {
    core = record m.core { mem = record m.core.mem { port = hu_feed s m.core.mem.port } };
  }

  -- Each string typed, and 60000 steps taken after it, whether the core is halted or not.
  unfoldable pub full_runs : List (List ℕ) → Machine (Board Ring) → Machine (Board Ring)
  full_runs [] m = m
  full_runs (s ∷ ss) m = full_runs ss (steps (bus rom) 60000 (fed s m))

  run_budget-steps :
      (m : Machine (Board Ring)) → m.halted ≡ false → run_budget rom m ≡ steps (bus rom) 60000 m
  unfolding run_budget
  run_budget-steps m h = (run_steps-steps (bus rom) 60000 m).0 ∙ if_false m.halted m _ h

  drive-full_runs :
      (s : List ℕ) (m : Machine (Board Ring))
      → m.halted ≡ false
      → drive rom s m ≡ steps (bus rom) 60000 (fed s m)
  unfolding drive
  drive-full_runs s m h = run_budget-steps (fed s m) h

  pub drive_lines-full_runs :
      (lines : List (List ℕ)) (m : Machine (Board Ring))
      → m.halted ≡ false
      → drive_lines rom lines m ≡ full_runs (typed_lines lines) m
  unfolding drive_lines full_runs
  drive_lines-full_runs [] m h = refl
  drive_lines-full_runs (line ∷ lines) m h =
      if_agree
        (λ (n : Machine (Board Ring)) (ss : List (List ℕ)).
          drive_lines rom lines n ≡ full_runs ss m)
        (is_empty (trim line)) _ _ _ _ (drive_lines-full_runs lines m h)
        (ap (drive_lines rom lines) driven
          ∙ drive_lines-full_runs lines twice
              (steps-halted (bus rom) 60000 (fed (0x0d ∷ []) once) ∙ once_running))
    where
      once : Machine (Board Ring)
      once = steps (bus rom) 60000 (fed (trim line) m)

      once_running : once.halted ≡ false
      once_running = steps-halted (bus rom) 60000 (fed (trim line) m) ∙ h

      twice : Machine (Board Ring)
      twice = steps (bus rom) 60000 (fed (0x0d ∷ []) once)

      driven : drive rom (0x0d ∷ []) (drive rom (trim line) m) ≡ twice
      driven =
          ap (drive rom (0x0d ∷ [])) (drive-full_runs (trim line) m h)
          ∙ drive-full_runs (0x0d ∷ []) once once_running

  replayed :
      (read : Option (List (List ℕ))) (m : Machine (Board Ring))
      → m.halted ≡ false
      → (replay rom read m).1 ≡ full_runs (typed_source read) m
  unfolding replay full_runs
  replayed none m h = refl
  replayed (some lines) m h = drive_lines-full_runs lines m h

  booted :
      (m : Machine (Board Ring))
      → run_budget rom (cpu_reset (bus rom) m) ≡ steps (bus rom) 60000 (cpu_reset (bus rom) m)
  unfolding cpu_reset
  booted m = run_budget-steps (cpu_reset (bus rom) m) refl

  reset-running :
      (m : Machine (Board Ring)) → (steps (bus rom) 60000 (cpu_reset (bus rom) m)).halted ≡ false
  unfolding cpu_reset
  reset-running m = steps-halted (bus rom) 60000 (cpu_reset (bus rom) m)

  pub host_main-full_runs :
      (opened : List ℕ → Option (List (List ℕ))) (stdin : List (List ℕ))
      (argument : Option (List ℕ)) (m : Machine (Board Ring))
      → (host_main rom opened stdin argument m).1
        ≡ full_runs
            (typed_session opened stdin argument)
            (steps (bus rom) 60000 (cpu_reset (bus rom) m))
  unfolding host_main full_runs
  host_main-full_runs opened stdin none m = booted m
  host_main-full_runs opened stdin (some name) m =
      ap (λ (n : Machine (Board Ring)). (replay rom (source opened stdin name) n).1) (booted m)
      ∙ replayed (source opened stdin name) (steps (bus rom) 60000 (cpu_reset (bus rom) m))
          (reset-running m)
