-- ===== src/Reference/Machine.antt =====
-- avr/sage6502.c:473-514 and the harness's loop, against the reference machine: `cpu_step` and any
-- number of steps, on plain memory.
use sage_apple.Base.{
  ℕ, zero, suc, ◌+◌, ◌%◌, ◌<◌, ◌≡◌, refl, sym, ap, subst, ◌∙◌, arith, true, false, not, ◌&&◌,
  bit_or, bit_or-lt, u32, if_agree, if_false,
}
use sage_apple.Bus.{Bus, BusLaws, PlainLaws, peek}
use sage_apple.Cpu.Regs.{Regs, fl_b, fl_d, fl_i, flag, clear_flag}
use sage_apple.Cpu.Core.{Core, transformers, bus_read}
use sage_apple.Cpu.Exec.{exec_step, op_id, op_mode}
use sage_apple.Cpu.Step.{
  Machine, base_cycles, enter_interrupt, serve_interrupt, run_instruction, service, cpu_step,
}
use sage_apple.Cpu.Valid.{IsValid, clear_flag-lt}
use sage_apple.Cpu.Opcodes.{documented, table_entry, opcode-table_cycles}
use sage_apple.Cpu.Safety.Machine.{
  IsSoundMachine, run_instruction-IsSoundMachine, cpu_step-IsSoundMachine,
}
use sage_apple.Host.{run_steps}
use sage_apple.Host.Steps.{steps, step-halted, run_steps-steps}
use sage_apple.Reference.State.{State, view, view_core}
use sage_apple.Reference.Status.{pushed_irq}
use sage_apple.Reference.Stack.{core, reads, push16_plain}
use sage_apple.Reference.Memory.{is_sum}
use sage_apple.Reference.Handler.{handler, enter_plain}
use sage_apple.Reference.Execute.{to_pc, entered, operate}
use sage_apple.Reference.Dispatch.{shown, exec_step-operate}
use sage_apple.Reference.Step.{
  Computer, computer, opcode, is_decimal, execute, instruct, interrupt, interrupted, step, run,
  is_binary, is_binary-suc,
}

-- Plain memory keeps the laws that the core's registers need.
abbrev pub plain_bus_laws : {bus : Bus} → PlainLaws bus → BusLaws bus
plain_bus_laws {bus} laws = record {
  IsSound = laws.IsPlain;
  read-lt = laws.peek-lt;
  read-IsSound = λ addr s h. subst laws.IsPlain (sym (laws.read_pure addr s h)) h;
  write-IsSound = laws.write-IsPlain;
}

module _ {bus : Bus} (laws : PlainLaws bus) where
  -- From valid registers and plain memory, an opcode below 256 that is not a decimal ADC or SBC
  -- leaves the registers, the flags and the memory that the reference machine's instruction of its
  -- documented operation and mode leaves, and adds the cycles that it adds.
  pub exec_step-execute :
      (r : Regs) (s : bus.State) (code : ℕ)
      → IsValid r
      → laws.IsPlain s
      → code < 256
      → is_decimal bus code (view r s) ≡ false
      → shown (exec_step bus code (core bus r s)) ≡ execute bus code (view r s)
  exec_step-execute r s code valid plain h binary =
      exec_step-operate laws r s code valid plain
        (ap (λ (i : ℕ × ℕ). is_sum i.0 && flag fl_d r.p) entry ∙ binary)
      ∙ ap (λ (i : ℕ × ℕ). operate bus i.0 i.1 (to_pc bus ((r.pc + 1) % 65536) (view r s))) entry
    where
      entry : (op_id code, op_mode code) ≡ table_entry (documented code)
      entry = (opcode-table_cycles code h).0

  -- From valid registers and plain memory, the entry into an interrupt's handler leaves what the
  -- reference machine's entry leaves.
  enter_interrupt-entered :
      (vector : ℕ) (r : Regs) (s : bus.State)
      → vector < 65535
      → IsValid r
      → laws.IsPlain s
      → view_core (enter_interrupt bus vector (core bus r s)).1 ≡ entered bus 0 vector (view r s)
  unfolding enter_interrupt transformers
  enter_interrupt-entered vector r s h valid plain =
      ap
        (λ (t : Unit {0} × Core bus.State).
          view_core (handler laws (clear_flag fl_b (bit_or r.p 0x20)) vector t.1).1)
        (push16_plain bus r.pc r s valid.sp_byte)
      ∙ enter_plain laws (clear_flag fl_b (bit_or r.p 0x20)) 0 vector r s
          (pushed_irq r.p valid.p_byte)
          (clear_flag-lt fl_b _ (bit_or-lt 8 r.p 0x20 valid.p_byte (omega arith))) h valid plain

  abbrev pub IsPlainMachine : Machine bus.State → Type 0
  IsPlainMachine m = IsSoundMachine (plain_bus_laws laws) m

  run_instruction-instruct :
      (m : Machine bus.State)
      → IsPlainMachine m
      → is_decimal bus (opcode bus (view_core m.core)) (view_core m.core) ≡ false
      → computer (run_instruction bus m) ≡ instruct bus (computer m)
  unfolding run_instruction bus_read
  run_instruction-instruct m sound binary =
      ap fetched (reads bus laws r.pc s plain)
      ∙ (ap (counted (base_cycles code))
            (exec_step-execute r s code sound.core_sound.valid plain byte binary)
          ∙ ap (λ (n : ℕ). counted n (execute bus code (view r s)))
              (opcode-table_cycles code byte).1)
    where
      r : Regs
      r = m.core.regs

      s : bus.State
      s = m.core.mem

      code : ℕ
      code = peek bus s r.pc

      plain : laws.IsPlain s
      plain = sound.core_sound.sound

      byte : code < 256
      byte = laws.peek-lt r.pc s plain

      counted : ℕ → State bus.State × ℕ → Computer bus.State
      counted base u = record (computer m) { state = u.0; cycles = u32 (m.cycount + (base + u.1)) }

      fetched : ℕ × bus.State → Computer bus.State
      fetched t = counted (base_cycles t.0) (shown (exec_step bus t.0 (core bus r t.1)))

  serve_interrupt-interrupt :
      (vector : ℕ) (m : Machine bus.State)
      → vector < 65535
      → IsPlainMachine m
      → computer (serve_interrupt bus vector m) ≡ interrupt bus vector (computer m)
  unfolding serve_interrupt
  serve_interrupt-interrupt vector m h sound =
      ap (λ (t : State bus.State). record (computer m) { state = t; cycles = u32 (m.cycount + 7) })
        (enter_interrupt-entered vector m.core.regs m.core.mem h sound.core_sound.valid
          sound.core_sound.sound)

  pub service-interrupted :
      (m : Machine bus.State)
      → IsPlainMachine m
      → computer (service bus m) ≡ interrupted bus (computer m)
  unfolding service
  service-interrupted m sound =
      if_agree (λ (n : Machine bus.State) (c : Computer bus.State). computer n ≡ c) m.nmi_pending _
        _ _ _
        (serve_interrupt-interrupt 0xfffa (record m { nmi_pending = false }) (omega arith)
          (record { core_sound = sound.core_sound; cycount_word = sound.cycount_word }))
        (if_agree (λ (n : Machine bus.State) (c : Computer bus.State). computer n ≡ c)
          (m.irq_pending && not (flag fl_i m.core.regs.p)) _ _ _ _
          (serve_interrupt-interrupt 0xfffe (record m { irq_pending = false }) (omega arith)
            (record { core_sound = sound.core_sound; cycount_word = sound.cycount_word }))
          refl)

  -- One step of a machine that is not halted, with its variables in range and plain memory, whose
  -- next instruction is no decimal ADC or SBC, is the reference machine's step: the registers, the
  -- flags, the memory, the cycles and the pending interrupts agree behind the instruction and the
  -- interrupt that is then taken.
  pub cpu_step-step :
      (m : Machine bus.State)
      → IsPlainMachine m
      → m.halted ≡ false
      → is_decimal bus (opcode bus (view_core m.core)) (view_core m.core) ≡ false
      → computer (cpu_step bus m) ≡ step bus (computer m)
  unfolding cpu_step step
  cpu_step-step m sound running binary =
      ap computer (if_false m.halted m (service bus (run_instruction bus m)) running)
      ∙ (service-interrupted (run_instruction bus m)
            (run_instruction-IsSoundMachine (plain_bus_laws laws) m sound)
          ∙ ap (interrupted bus) (run_instruction-instruct m sound binary))

  steps-run :
      (count : ℕ) (m : Machine bus.State)
      → IsPlainMachine m
      → m.halted ≡ false
      → is_binary bus count (computer m) ≡ true
      → computer (steps bus count m) ≡ run bus count (computer m)
  unfolding steps run
  steps-run zero m sound running binary = refl
  steps-run (suc count) m sound running binary =
      steps-run count (cpu_step bus m) (cpu_step-IsSoundMachine (plain_bus_laws laws) m sound)
        (step-halted bus m ∙ running) (ap (is_binary bus count) stepped ∙ parts.1)
      ∙ ap (run bus count) stepped
    where
      parts :
          (is_decimal bus (opcode bus (view_core m.core)) (view_core m.core) ≡ false)
          × (is_binary bus count (step bus (computer m)) ≡ true)
      parts = is_binary-suc bus count (computer m) binary

      stepped : computer (cpu_step bus m) ≡ step bus (computer m)
      stepped = cpu_step-step m sound running parts.0

  -- The harness's loop, on a machine that is not halted, with its variables in range and plain
  -- memory, is the reference machine's run of the same length with the same interrupts pending, if
  -- that run meets no ADC or SBC in the decimal mode: the registers, the flags, the memory, the
  -- cycles and the pending interrupts agree behind it.
  pub run_steps-run :
      (count : ℕ) (m : Machine bus.State)
      → IsPlainMachine m
      → m.halted ≡ false
      → is_binary bus count (computer m) ≡ true
      → computer (run_steps bus count m) ≡ run bus count (computer m)
  run_steps-run count m sound running binary =
      ap computer ((run_steps-steps bus count m).0 ∙ if_false m.halted m _ running)
      ∙ steps-run count m sound running binary
