-- ===== src/Cpu/Safety/Machine.antt =====
-- `cpu_reset` and `cpu_step` keep the machine valid, over any bus with laws.
use sage_apple.Base.{ℕ, ◌<◌, arith, false, if_both}
use sage_apple.Bus.{Bus, BusLaws}
use sage_apple.Cpu.Regs.{Regs, fl_b, fl_i}
use sage_apple.Cpu.Step.{
  Machine, enter_interrupt, serve_interrupt, reset_core, cpu_reset, run_instruction, service,
  cpu_step,
}
use sage_apple.Cpu.Valid.{IsValid, clear_flag-lt}
use sage_apple.Cpu.Ensures.{
  IsSoundCore, Ensures, Done, Ensures-bind, Ensures-seq, Ensures-regs, Ensures-modify,
}
use sage_apple.Cpu.Safety.Access.{read-Ensures, push-Ensures, push16-Ensures, read_word-Ensures}
use sage_apple.Cpu.Safety.Pieces.{or_small, set_i, jump}
use sage_apple.Cpu.Safety.Operations.{jump_vector-Ensures, exec_step-Ensures}

set_sp_fd : (r : Regs) → IsValid r → IsValid (record r { sp = 0xfd })
set_sp_fd r h = ground arith

set_reset : (r : Regs) → IsValid r → IsValid (record r { p = fl_i; a = 0; x = 0; y = 0 })
set_reset r h = ground arith

module _ {bus : Bus} (laws : BusLaws bus) where
  pub record IsSoundMachine (m : Machine bus.State) : Type 0 where
    pub core_sound : IsSoundCore laws m.core
    pub cycount_word : m.cycount < 4294967296

  pub enter_interrupt-Ensures : (vector : ℕ) → Ensures laws (Done laws) (enter_interrupt bus vector)
  unfolding enter_interrupt
  enter_interrupt-Ensures vector = Ensures-bind laws (Ensures-regs laws) λ r h.
      Ensures-seq laws (push16-Ensures laws r.pc h.pc_word) (
        Ensures-seq laws (push-Ensures laws _ (clear_flag-lt fl_b _ (or_small r.p h.p_byte)))
          (Ensures-seq laws (set_i laws) (jump_vector-Ensures laws vector)))

  reset_core-Ensures : Ensures laws (Done laws) (reset_core bus)
  unfolding reset_core
  reset_core-Ensures = Ensures-seq laws (Ensures-modify laws set_sp_fd) (
      Ensures-bind laws (read_word-Ensures laws 0xfffc 0xfffd)
        λ addr w. Ensures-seq laws (jump laws w) (Ensures-modify laws set_reset))

  serve_sound :
      (vector : ℕ) (m : Machine bus.State)
      → IsSoundMachine m
      → IsSoundMachine (serve_interrupt bus vector m)
  unfolding serve_interrupt
  serve_sound vector m h = record {
    core_sound = (enter_interrupt-Ensures vector).keeps m.core h.core_sound;
    cycount_word = omega arith;
  }

  -- Resetting a machine whose registers and bus are sound leaves it sound.
  pub cpu_reset-IsSoundMachine :
      (m : Machine bus.State) → IsSoundMachine m → IsSoundMachine (cpu_reset bus m)
  unfolding cpu_reset
  cpu_reset-IsSoundMachine m h = record {
    core_sound = reset_core-Ensures.keeps m.core h.core_sound;
    cycount_word = omega arith;
  }

  pub run_instruction-IsSoundMachine :
      (m : Machine bus.State) → IsSoundMachine m → IsSoundMachine (run_instruction bus m)
  unfolding run_instruction
  run_instruction-IsSoundMachine m h = record {
    core_sound =
        (exec_step-Ensures laws _).keeps _ ((read-Ensures laws _).keeps m.core h.core_sound);
    cycount_word = omega arith;
  }

  service-IsSoundMachine :
      (m : Machine bus.State) → IsSoundMachine m → IsSoundMachine (service bus m)
  unfolding service
  service-IsSoundMachine m h =
      if_both IsSoundMachine m.nmi_pending (serve_sound 0xfffa _ again)
        (if_both IsSoundMachine _ (serve_sound 0xfffe _ again') h)
    where
      again : IsSoundMachine (record m { nmi_pending = false })
      again = record { core_sound = h.core_sound; cycount_word = h.cycount_word }

      again' : IsSoundMachine (record m { irq_pending = false })
      again' = record { core_sound = h.core_sound; cycount_word = h.cycount_word }

  -- On a bus that satisfies the memory interface's laws, a step keeps every register a byte, the
  -- program counter a 16-bit word, the cycle counter a 32-bit word and the bus in its invariant,
  -- for every opcode and every pending interrupt.
  pub cpu_step-IsSoundMachine :
      (m : Machine bus.State) → IsSoundMachine m → IsSoundMachine (cpu_step bus m)
  unfolding cpu_step
  cpu_step-IsSoundMachine m h =
      if_both IsSoundMachine m.halted h
        (service-IsSoundMachine _ (run_instruction-IsSoundMachine m h))
