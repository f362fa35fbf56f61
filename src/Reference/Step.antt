-- ===== src/Reference/Step.antt =====
-- The reference machine's step: an instruction of the documented set, then a pending interrupt.
use sage_apple.Base.{
  ℕ, zero, suc, ◌≡◌, refl, ◌+◌, ◌%◌, ◌^◌, Bool, true, false, not, ◌&&◌, if◌then◌else◌,
}
use sage_apple.Bus.{Bus, peek}
use sage_apple.Cpu.Step.{Machine}
use sage_apple.Cpu.Opcodes.{documented, table_entry, table_cycles}
use sage_apple.Reference.State.{State, view_core}
use sage_apple.Reference.Memory.{is_sum}
use sage_apple.Reference.Execute.{to_pc, entered, operate}

-- The reference machine with its cycles, counted modulo 2^32, and its two pending interrupts.
pub record Computer (S : Type 0) : Type 0 where
  pub state : State S
  pub cycles : ℕ
  pub irq : Bool
  pub nmi : Bool

-- what the core with its variables stands for
abbrev pub computer : {S : Type 0} → Machine S → Computer S
computer m = record {
  state = view_core m.core;
  cycles = m.cycount;
  irq = m.irq_pending;
  nmi = m.nmi_pending;
}

module _ (bus : Bus) where
  -- the opcode at the program counter
  abbrev pub opcode : State bus.State → ℕ
  opcode s = peek bus s.mem s.pc

  -- Whether an opcode adds or subtracts in the decimal mode, which this machine leaves out.
  abbrev pub is_decimal : ℕ → State bus.State → Bool
  is_decimal code s = is_sum (table_entry (documented code)).0 && s.status.d

  -- The instruction of an opcode, with the cycles that it adds to those of the table.
  abbrev pub execute : ℕ → State bus.State → State bus.State × ℕ
  execute code s =
      let (id, mode) = table_entry (documented code) in
      operate bus id mode (to_pc bus ((s.pc + 1) % 65536) s)

  abbrev pub instruct : Computer bus.State → Computer bus.State
  instruct c =
      let code = opcode c.state in
      let (s, extra) = execute code c.state in
      record c {
        state = s;
        cycles = (c.cycles + (table_cycles code (documented code) + extra)) % 2 ^ 32;
      }

  -- the entry into an interrupt's handler, in seven cycles
  abbrev pub interrupt : ℕ → Computer bus.State → Computer bus.State
  interrupt vector c = record c {
    state = entered bus 0 vector c.state;
    cycles = (c.cycles + 7) % 2 ^ 32;
  }

  -- an NMI goes first, and the flag I holds an IRQ back
  abbrev pub interrupted : Computer bus.State → Computer bus.State
  interrupted c =
      if c.nmi
      then interrupt 0xfffa (record c { nmi = false })
      else if c.irq && not c.state.status.i
      then interrupt 0xfffe (record c { irq = false })
      else c

  unfoldable pub step : Computer bus.State → Computer bus.State
  step c = interrupted (instruct c)

  unfoldable pub run : ℕ → Computer bus.State → Computer bus.State
  run zero c = c
  run (suc count) c = run count (step c)

  -- Whether none of the instructions of a run is a decimal sum or difference.
  unfoldable pub is_binary : ℕ → Computer bus.State → Bool
  is_binary zero c = true
  is_binary (suc count) c = elim (is_decimal (opcode c.state) c.state) [
    | true ↦ false
    | false ↦ is_binary count (step c)
  ]

  split :
      (b rest : Bool) → elim b [ true ↦ false | false ↦ rest ] ≡ true → (b ≡ false) × (rest ≡ true)
  split true rest h = cc
  split false rest h = (refl, h)

  pub is_binary-suc :
      (count : ℕ) (c : Computer bus.State)
      → is_binary (suc count) c ≡ true
      → (is_decimal (opcode c.state) c.state ≡ false) × (is_binary count (step c) ≡ true)
  unfolding is_binary
  is_binary-suc count c h = split (is_decimal (opcode c.state) c.state) (is_binary count (step c)) h
