-- ===== src/Cpu/Interrupts.antt =====
-- Interrupts: what `cpu_step` serves and in which order, what it costs, and the way back by RTI.
use sage_apple.Base.{
  ℕ, ◌+◌, ◌/◌, ◌%◌, ◌<◌, ◌≡◌, ◌≢◌, refl, ap, ◌∙◌, arith, Bool, true, false, ◌&&◌, ◌||◌, ◌≤◌, ◌⊎◌,
  inl, inr, if_both, all_below, all_below_sound, between, bit_or, u32, if◌then◌else◌,
}
use sage_apple.Bus.{Bus, BusLaws, RamLaws}
use sage_apple.Cpu.Regs.{fl_b, fl_i, clear_flag, flag}
use sage_apple.Cpu.Core.{Core, transformers, bus_read, read_word, set_pc}
use sage_apple.Cpu.Exec.{rti, jump_vector, exec_step}
use sage_apple.Cpu.Step.{
  Machine, enter_interrupt, serve_interrupt, run_instruction, service, cpu_step, base_cycles,
}
use sage_apple.Cpu.Safety.Access.{read-Ensures}
use sage_apple.Cpu.Safety.Operations.{exec_step-Ensures}
use sage_apple.Cpu.Safety.Machine.{IsSoundMachine}
use sage_apple.Cpu.Stack.{
  cell, SameStack, push_lem, pull_lem, pull16_lem, push16_lem, pushed16, pushed16_hi, pushed16_lo,
  join_bytes,
}

-- The status byte that an interrupt pushes.
abbrev pub saved_status : ℕ → ℕ
saved_status p = clear_flag fl_b (bit_or p 0x20)

module _ {bus : Bus} (ram : RamLaws bus) where
  open bus use {State}

  -- The memory after an interrupt pushed the program counter and the status.
  abbrev pushed_all : Core State → State
  pushed_all c =
      bus.write (256 + (c.regs.sp + 254) % 256) (saved_status c.regs.p)
        (pushed16 ram c.regs.pc c.regs.sp c.mem)

  enter_stack :
      (vector n : ℕ) (c : Core State)
      → c.regs.sp < 256
      → n < 256
      → ((enter_interrupt bus vector c).1.regs.sp ≡ (c.regs.sp + 253) % 256)
        × (cell ram (enter_interrupt bus vector c).1 n ≡ (bus.read (256 + n) (pushed_all c)).0)
  unfolding enter_interrupt jump_vector read_word bus_read set_pc transformers
  enter_stack vector n c hs hn =
      rw (push16_lem ram c.regs.pc c hs, push_lem ram (saved_status c.regs.p) after (omega arith))
        (omega arith, ram.read_keeps _ _ _ (omega arith) ∙ ram.read_keeps _ _ _ (omega arith))
    where
      after : Core State
      after = record {
        regs = record c.regs { sp = (c.regs.sp + 254) % 256 };
        mem = pushed16 ram c.regs.pc c.regs.sp c.mem;
      }

  -- On a bus with plain memory below $0400, RTI from any core with the stack pointer and the stack
  -- page that the entry into an interrupt handler left restores the stack pointer, the program
  -- counter and the pushed status byte, and changes no other register.
  pub enter_interrupt-rti :
      (vector : ℕ) (c d : Core State)
      → c.regs.sp < 256
      → c.regs.pc < 65536
      → ram.HasRam c.mem
      → d.regs.sp ≡ (enter_interrupt bus vector c).1.regs.sp
      → SameStack ram d (enter_interrupt bus vector c).1
      → (rti bus d).1 ≡ record d {
        regs = record d.regs {
          sp = c.regs.sp;
          pc = c.regs.pc;
          p = bit_or (saved_status c.regs.p) 0x20;
        };
      }
  unfolding rti set_pc transformers
  enter_interrupt-rti vector c d hs hp hr e same =
      rw
        (
          pull_lem ram d (omega (arith, top)),
          saved,
          pull16_lem ram after (omega arith),
          at_hi,
          at_lo,
          hi,
          lo,
          join_bytes c.regs.pc hp,
        )
        refl
    where
      top : d.regs.sp ≡ (c.regs.sp + 253) % 256
      top = e ∙ (enter_stack vector 0 c hs (omega arith)).0

      held : (n : ℕ) → n < 256 → cell ram d n ≡ (bus.read (256 + n) (pushed_all c)).0
      held n h = same n h ∙ (enter_stack vector n c hs h).1

      saved : cell ram d ((d.regs.sp + 1) % 256) ≡ saved_status c.regs.p
      saved = rw at_top (
          held ((c.regs.sp + 254) % 256) (omega arith)
          ∙ ram.read-write_self _ _ _ (ram.write-HasRam _ _ _ (ram.write-HasRam _ _ c.mem hr))
              (omega arith))
        where
          at_top : (d.regs.sp + 1) % 256 ≡ (c.regs.sp + 254) % 256
          at_top = omega (arith, top)

      after : Core State
      after = record d {
        regs = record d.regs {
          sp = (d.regs.sp + 1) % 256;
          p = bit_or (saved_status c.regs.p) 0x20;
        };
      }

      at_hi : ((d.regs.sp + 1) % 256 + 2) % 256 ≡ c.regs.sp
      at_hi = omega (arith, top)

      at_lo : ((d.regs.sp + 1) % 256 + 1) % 256 ≡ (c.regs.sp + 255) % 256
      at_lo = omega (arith, top)

      below :
          (n : ℕ)
          → n < 256
          → n ≢ (c.regs.sp + 254) % 256
          → cell ram d n ≡ (bus.read (256 + n) (pushed16 ram c.regs.pc c.regs.sp c.mem)).0
      below n h other =
          held n h
          ∙ ram.read-write_ne (256 + (c.regs.sp + 254) % 256) (256 + n) _ _ (omega arith)
              (omega arith) (omega arith)

      hi : cell ram d c.regs.sp ≡ c.regs.pc / 256
      hi = below c.regs.sp hs (omega arith) ∙ pushed16_hi ram c.regs.pc c.regs.sp c.mem hs hr

      lo : cell ram d ((c.regs.sp + 255) % 256) ≡ c.regs.pc % 256
      lo =
          below ((c.regs.sp + 255) % 256) (omega arith) (omega arith)
          ∙ pushed16_lo ram c.regs.pc c.regs.sp c.mem hs hr

pub step_running :
    (bus : Bus) (m : Machine bus.State)
    → m.halted ≡ false
    → cpu_step bus m ≡ service bus (run_instruction bus m)
unfolding cpu_step
step_running bus m h = ap (λ (b : Bool). if b then m else service bus (run_instruction bus m)) h

service_pending :
    (bus : Bus) (m : Machine bus.State)
    → ((service bus m).nmi_pending ≡ false)
      × ((service bus m).irq_pending
          ≡ (m.irq_pending && (m.nmi_pending || flag fl_i m.core.regs.p)))
unfolding service serve_interrupt
service_pending bus m = split m.nmi_pending m.irq_pending refl refl
  where
    split :
        (nmi irq : Bool)
        → m.nmi_pending ≡ nmi
        → m.irq_pending ≡ irq
        → ((service bus m).nmi_pending ≡ false)
          × ((service bus m).irq_pending
              ≡ (m.irq_pending && (m.nmi_pending || flag fl_i m.core.regs.p)))
    split nmi irq e g = ground arith

-- A step of a machine that is not halted leaves no NMI pending and drops an IRQ only to serve it:
-- the request stays while an NMI is served or the I flag is set after the instruction.
pub cpu_step_pending :
    (bus : Bus) (m : Machine bus.State)
    → m.halted ≡ false
    → ((cpu_step bus m).nmi_pending ≡ false)
      × ((cpu_step bus m).irq_pending
          ≡ (m.irq_pending && (m.nmi_pending || flag fl_i (run_instruction bus m).core.regs.p)))
unfolding run_instruction
cpu_step_pending bus m h = rw (step_running bus m h) (service_pending bus (run_instruction bus m))

-- The extra cycles of an instruction are at most two, and its base between two and seven.
base_table : all_below 256 (λ code. between 2 7 (base_cycles code)) ≡ true
unfolding all_below base_cycles
base_table = refl

base_bounds : (code : ℕ) → code < 256 → (2 ≤ base_cycles code) × (base_cycles code ≤ 7)
base_bounds code h = ground (arith, all_below_sound 256 _ code base_table h)

-- Serving interrupts costs seven cycles or none.
service_cycles :
    (bus : Bus) (m : Machine bus.State)
    → ((service bus m).cycount ≡ m.cycount) ⊎ ((service bus m).cycount ≡ u32 (m.cycount + 7))
unfolding service serve_interrupt
service_cycles bus m =
    if_both (λ (n : Machine bus.State). (n.cycount ≡ m.cycount) ⊎ (n.cycount ≡ u32 (m.cycount + 7)))
      m.nmi_pending (inr refl)
      (if_both
        (λ (n : Machine bus.State). (n.cycount ≡ m.cycount) ⊎ (n.cycount ≡ u32 (m.cycount + 7))) _
        (inr refl) (inl refl))

add_cycles :
    (start after served n : ℕ)
    → after ≡ u32 (start + n)
    → (served ≡ after) ⊎ (served ≡ u32 (after + 7))
    → 2 ≤ n
    → n ≤ 9
    → (k : ℕ) × (2 ≤ k) × (k ≤ 16) × (served ≡ u32 (start + k))
add_cycles start after served n e (inl s) lo hi = (n, lo, omega arith, omega arith)
add_cycles start after served n e (inr s) lo hi = (n + 7, omega arith, omega arith, omega arith)

module _ {bus : Bus} (laws : BusLaws bus) where
  -- On a bus with laws, a step of a sound machine that is not halted advances the cycle counter by
  -- 2 to 16, modulo 2^32.
  pub cpu_step_cycles :
      (m : Machine bus.State)
      → IsSoundMachine laws m
      → m.halted ≡ false
      → (n : ℕ) × (2 ≤ n) × (n ≤ 16) × ((cpu_step bus m).cycount ≡ u32 (m.cycount + n))
  unfolding run_instruction
  cpu_step_cycles m s h = rw (step_running bus m h) (
      add_cycles m.cycount _ _ (base_cycles code + extra) refl
        (service_cycles bus (run_instruction bus m)) (omega (arith, base_bounds code small))
        (omega (arith, base_bounds code small, few)))
    where
      code : ℕ
      code = (bus_read bus m.core.regs.pc m.core).0

      small : code < 256
      small = (read-Ensures laws m.core.regs.pc).gives m.core s.core_sound

      extra : ℕ
      extra = (exec_step bus code (bus_read bus m.core.regs.pc m.core).1).0

      few : extra < 3
      few =
          (exec_step-Ensures laws code).gives _
            ((read-Ensures laws m.core.regs.pc).keeps m.core s.core_sound)
