-- ===== src/Host/Terminal.antt =====
-- The sessions of avr/host_main.c on the abstract line: what the host's FIFO, the monitor board and
-- the core do together.
use sage_apple.Base.{
  ℕ, zero, suc, ◌+◌, ◌<◌, ◌≡◌, sym, ap, ◌∙◌, arith, Bool, true, false, List, [], ◌∷◌, ◌++◌, map,
  length, length-map, length-append, Option, some, u8, if◌then◌else◌, subst,
}
use sage_apple.Uart.Line.{Line, line_uart, receive, ready, send, take_first}
use sage_apple.Uart.Ring.{Ring, rxcap, hu_feed, hu_tx}
use sage_apple.Uart.Replay.{IsFifo, fifo_line, hu_feed-append, hu_rx-receive}
use sage_apple.Bus.{Bus}
use sage_apple.Cpu.Step.{Machine, cpu_reset, cpu_step, cpu_halted}
use sage_apple.Cpu.Simulation.{Simulation}
use sage_apple.Cpu.Simulation.Machine.{Match, cpu_reset-Match, cpu_step-Match, if_Match}
use sage_apple.Monitor.{Board, monitor_bus}
use sage_apple.Monitor.Simulation.{PortSimulation, board_simulation, related_boards, boards_related}
use sage_apple.Host.{run_steps}
use sage_apple.Host.Session.{
  hu_uart, is_empty, trim, bus, run_budget, drive, drive_lines, replay, source, host_main,
}

-- The loop of steps, on two buses of which one simulates the other.
run_steps-Match :
    {a b : Bus} (sim : Simulation a b) (count : ℕ) (m : Machine a.State) (n : Machine b.State)
    → Match sim m n
    → Match sim (run_steps a count m) (run_steps b count n)
unfolding run_steps cpu_halted
run_steps-Match sim zero m n h = h
run_steps-Match {a} {b} sim (suc count) m n h =
    if_Match sim m.halted n.halted _ _ _ _ h.same_halted h
      (run_steps-Match sim count (cpu_step a m) (cpu_step b n) (cpu_step-Match sim m n h))

received-length :
    (bs sent : List ℕ) (k : ℕ)
    → length bs + k < rxcap
    → length (take_first bs sent).1.waiting + k < rxcap
received-length [] sent k h = h
received-length (b ∷ bs) sent k h = omega (arith, h)

-- A FIFO that stands for the line and has room for `k` bytes more.
abbrev pub Stands : ℕ → Ring → Line → Type 0
Stands k r l = IsFifo r × (Path {0} Line (fifo_line r) l × (length l.waiting + k < rxcap))

pub fifo_simulation : ℕ → PortSimulation hu_uart line_uart
unfolding hu_tx
fifo_simulation k = record {
  Rel = Stands k;
  same_ready = λ r l h. (hu_rx-receive r h.0).0 ∙ ap ready h.1.0;
  same_rx = λ r l h.
      ap (λ (t : ℕ × Line). t.0) (hu_rx-receive r h.0).1.0 ∙ ap (λ (w : Line). (receive w).0) h.1.0;
  rx-Rel = λ r l h. (
    (hu_rx-receive r h.0).1.1,
    (
      ap (λ (t : ℕ × Line). t.1) (hu_rx-receive r h.0).1.0 ∙ ap (λ (w : Line). (receive w).1) h.1.0,
      received-length l.waiting l.sent k h.1.1,
    ),
  );
  tx-Rel = λ v r l h. (
    record {
      full_size = h.0.full_size;
      head_inside = h.0.head_inside;
      tail_inside = h.0.tail_inside;
    },
    (ap (send v) h.1.0, h.1.1),
  );
}

pub standing : (k : ℕ) (r : Ring) (l : Line) → Stands k r l → (fifo_simulation k).Rel r l
unfolding fifo_simulation
standing k r l h = h

-- The string appended to the line, each character cast to a byte.
abbrev typed : List ℕ → Line → Line
typed s l = record l { waiting = l.waiting ++ map u8 s }

fed-Stands :
    (s : List ℕ) (k : ℕ) (r : Ring) (l : Line)
    → Stands (length s + k) r l
    → Stands k (hu_feed s r) (typed s l)
fed-Stands s k r l h = (
  appended.0,
  (
    appended.1 ∙ ap (typed s) h.1.0,
    omega (arith, h.1.1, length-append l.waiting (map u8 s), length-map u8 s),
  ),
)
  where
    room : length (fifo_line r).waiting + length s < rxcap
    room = omega (arith, h.1.1, ap (λ (w : Line). length w.waiting) h.1.0)

    appended :
        IsFifo (hu_feed s r)
        × (fifo_line (hu_feed s r)
            ≡ record { waiting = (fifo_line r).waiting ++ map u8 s; sent = r.sent })
    appended = hu_feed-append s r h.0 room

-- the machine with the board's port changed
abbrev with_port : {P : Type 0} → (P → P) → Machine (Board P) → Machine (Board P)
with_port f m = record m {
  core = record m.core { mem = record m.core.mem { port = f m.core.mem.port } };
}

-- how many bytes a session feeds to the FIFO
abbrev pub fed_length : List (List ℕ) → ℕ
fed_length [] = 0
fed_length (line ∷ lines) =
    if is_empty (trim line)
    then fed_length lines
    else length (trim line) + (length {A = ℕ} (0x0d ∷ []) + fed_length lines)

module _ (rom : ℕ → ℕ) where
  abbrev line_bus : Bus
  line_bus = monitor_bus line_uart rom

  -- A session at a terminal: each line that is not empty is typed, and behind its run a return.
  abbrev enter : List ℕ → Machine (Board Line) → Machine (Board Line)
  enter s n = run_steps line_bus 60000 (with_port (typed s) n)

  unfoldable terminal_lines : List (List ℕ) → Machine (Board Line) → Machine (Board Line)
  terminal_lines [] n = n
  terminal_lines (line ∷ lines) n =
      let s = trim line in
      let entered = enter (0x0d ∷ []) (enter s n) in
      terminal_lines lines (if is_empty s then n else entered)

  unfoldable pub terminal : List (List ℕ) → Machine (Board Line) → Machine (Board Line)
  unfolding terminal_lines
  terminal lines n = terminal_lines lines (run_steps line_bus 60000 (cpu_reset line_bus n))

  -- the machines match, with room for `k` bytes more in the FIFO
  abbrev pub MatchesWith : ℕ → Machine (Board Ring) → Machine (Board Line) → Type 0
  MatchesWith k m n = Match (board_simulation (fifo_simulation k) rom) m n

  fed_match :
      (s : List ℕ) (k : ℕ) (m : Machine (Board Ring)) (n : Machine (Board Line))
      → MatchesWith (length s + k) m n
      → MatchesWith k (with_port (hu_feed s) m) (with_port (typed s) n)
  unfolding fifo_simulation
  fed_match s k m n h = record {
    core_alike = record {
      same_regs = h.core_alike.same_regs;
      related =
          let boards =
            boards_related (fifo_simulation (length s + k)) rom m.core.mem n.core.mem
              h.core_alike.related in
          related_boards (fifo_simulation k) rom _ _
            (boards.0, fed-Stands s k m.core.mem.port n.core.mem.port boards.1);
    };
    same_halted = h.same_halted;
    same_cycount = h.same_cycount;
    same_irq = h.same_irq;
    same_nmi = h.same_nmi;
  }

  drive-enter :
      (s : List ℕ) (k : ℕ) (m : Machine (Board Ring)) (n : Machine (Board Line))
      → MatchesWith (length s + k) m n
      → MatchesWith k (drive rom s m) (enter s n)
  unfolding drive run_budget
  drive-enter s k m n h =
      run_steps-Match (board_simulation (fifo_simulation k) rom) 60000 _ _ (fed_match s k m n h)

  entered_match :
      (skipped : Bool) (s : List ℕ) (k : ℕ) (m : Machine (Board Ring)) (n : Machine (Board Line))
      → MatchesWith (if skipped then k else length s + (length {A = ℕ} (0x0d ∷ []) + k)) m n
      → MatchesWith k
          (if skipped then m else drive rom (0x0d ∷ []) (drive rom s m))
          (if skipped then n else enter (0x0d ∷ []) (enter s n))
  entered_match true s k m n h = h
  entered_match false s k m n h =
      drive-enter (0x0d ∷ []) k _ _ (drive-enter s (length {A = ℕ} (0x0d ∷ []) + k) m n h)

  drive_lines-terminal_lines :
      (lines : List (List ℕ)) (m : Machine (Board Ring)) (n : Machine (Board Line))
      → MatchesWith (fed_length lines) m n
      → MatchesWith 0 (drive_lines rom lines m) (terminal_lines lines n)
  unfolding drive_lines terminal_lines
  drive_lines-terminal_lines [] m n h = h
  drive_lines-terminal_lines (line ∷ lines) m n h =
      drive_lines-terminal_lines lines _ _
        (entered_match (is_empty (trim line)) (trim line) (fed_length lines) m n h)

  -- A session of the host driver that feeds its FIFO of 512 bytes fewer bytes than that in all,
  -- with an argument that gives it these lines, is the session at a terminal with the abstract
  -- line: from matching machines, behind it the registers, the counters, the pending interrupts
  -- and the memory of the board are the same, and the FIFO stands for the line, with the same
  -- bytes sent.
  pub host_main-terminal :
      (opened : List ℕ → Option (List (List ℕ))) (stdin : List (List ℕ)) (name : List ℕ)
      (lines : List (List ℕ)) (m : Machine (Board Ring)) (n : Machine (Board Line))
      → source opened stdin name ≡ some lines
      → MatchesWith (fed_length lines) m n
      → MatchesWith 0 (host_main rom opened stdin (some name) m).1 (terminal lines n)
  unfolding host_main terminal replay run_budget
  host_main-terminal opened stdin name lines m n found h =
      subst
        (λ read.
          MatchesWith 0 (replay rom read (run_budget rom (cpu_reset (bus rom) m))).1
            (terminal lines n))
        (sym found)
        (drive_lines-terminal_lines lines _ _
          (run_steps-Match sim 60000 _ _ (cpu_reset-Match sim m n h)))
    where
      sim : Simulation (bus rom) line_bus
      sim = board_simulation (fifo_simulation (fed_length lines)) rom
