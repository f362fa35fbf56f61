-- ===== src/Host/Main.antt =====
-- avr/apple2_host_main.c: `main`, whose first argument is --dump or not.
use sage_apple.Base.{
  ℕ, ◌+◌, Bool, true, false, ◌&&◌, List, [], ◌∷◌, length, get_or, ◌==◌, if◌then◌else◌,
}
use sage_apple.Bus.{Bus}
use sage_apple.Uart.Ring.{Ring, host_uart_feed}
use sage_apple.Cpu.Step.{Machine, cpu_reset, cpu_pc}
use sage_apple.Apple.State.{Board, bus_reset}
use sage_apple.Apple.Map.{apple_bus}
use sage_apple.Host.{ring_uart, run_steps, check}
use sage_apple.Host.Checks.{Checks, run_keyboard_checks, run_banking_checks, run_video_checks}

-- A\x32\r\nHI\r\n
abbrev pub signature : List ℕ
signature = 0x41 ∷ 0x32 ∷ 0x0d ∷ 0x0a ∷ 0x48 ∷ 0x49 ∷ 0x0d ∷ 0x0a ∷ []

-- `memcmp` of two texts of one length
abbrev pub same_bytes : List ℕ → List ℕ → Bool
same_bytes [] bs = true
same_bytes (a ∷ as') [] = false
same_bytes (a ∷ as') (b ∷ bs) = a == b && same_bytes as' bs

unfoldable pub put_board : (Board Ring → Board Ring) → Machine (Board Ring) → Machine (Board Ring)
put_board f m = record m { core = record m.core { mem = f m.core.mem } }

unfoldable pub feed_machine : ℕ → Machine (Board Ring) → Machine (Board Ring)
feed_machine value = put_board (λ b. record b { port = host_uart_feed value b.port })

-- One group of checks on the machine's board, with the failures counted so far.
unfoldable pub run_checks : Checks (Unit {0}) → ℕ × Machine (Board Ring) → ℕ × Machine (Board Ring)
unfolding put_board
run_checks c (failures, m) =
    let (_, r) = c (record { board = m.core.mem; failures = failures }) in
    (r.failures, put_board (λ b. r.board) m)

abbrev pub tx_bytes : Machine (Board Ring) → List ℕ
tx_bytes m = m.core.mem.port.sent

module _ (rom : ℕ → ℕ) where
  abbrev bus : Bus
  bus = apple_bus ring_uart rom

  -- the start of both branches
  unfoldable pub start : Machine (Board Ring) → Machine (Board Ring)
  unfolding put_board
  start m = cpu_reset bus (put_board bus_reset m)

  unfoldable pub type_and_run : ℕ → Machine (Board Ring) → Machine (Board Ring)
  unfolding feed_machine
  type_and_run value m = run_steps bus 2000 (feed_machine value m)

  -- the transcript that --dump writes
  unfoldable pub dump : Machine (Board Ring) → List ℕ
  unfolding start type_and_run
  dump m = tx_bytes (
      type_and_run b'Z' (
        type_and_run 0x0d (
          type_and_run b'C' (type_and_run b'B' (type_and_run b'A' (run_steps bus 200 (start m)))))))

  -- The exit status without --dump.
  unfoldable pub main_status : Machine (Board Ring) → ℕ
  unfolding start type_and_run check
  main_status m =
      let m1 = start m in
      let pc_failures = check (cpu_pc m1 == 0xd000) in
      let m2 = run_steps bus 200 m1 in
      let signed =
        pc_failures
        + check (length (tx_bytes m2) == length signature && same_bytes signature (tx_bytes m2)) in
      let (typed, m3) = run_checks (run_keyboard_checks rom) (signed, m2) in
      let m4 = type_and_run b'X' m3 in
      let echoed =
        typed
        + check (
            length (tx_bytes m4) == length signature + 1
            && get_or (tx_bytes m4) (length signature) 0 == b'X') in
      let (banked, m5) = run_checks (run_banking_checks rom) (echoed, m4) in
      let (failures, m6) = run_checks (run_video_checks rom) (banked, m5) in
      if failures == 0 then 0 else 1
