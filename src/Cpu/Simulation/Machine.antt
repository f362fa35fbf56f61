-- ===== src/Cpu/Simulation/Machine.antt =====
-- avr/sage6502.c:473-514 on two buses: the reset, one step and any number of steps do the same.
use sage_apple.Base.{
  ℕ, ◌+◌, ◌≡◌, refl, ap, ap₂, subst, Bool, false, not, ◌&&◌, u32, if◌then◌else◌, if_agree,
}
use sage_apple.Bus.{Bus}
use sage_apple.Cpu.Regs.{Regs, fl_i, flag}
use sage_apple.Cpu.Core.{M, ◌>>=◌, ret, regs, transformers, bus_read}
use sage_apple.Cpu.Exec.{exec_step}
use sage_apple.Cpu.Step.{
  Machine, base_cycles, enter_interrupt, serve_interrupt, reset_core, cpu_reset, run_instruction,
  service, cpu_step,
}
use sage_apple.Cpu.Simulation.{
  Simulation, Alike, run-Alike, Similar, Similar-bind, Similar-seq, Similar-ret, Similar-regs,
  Similar-modify, Similar-read,
}
use sage_apple.Cpu.Simulation.Access.{push-Similar, push16-Similar, read_word-Similar}
use sage_apple.Cpu.Simulation.Operations.{jump_vector-Similar, exec_step-Similar}

module _ {a b : Bus} (sim : Simulation a b) where
  -- two machines with the same variables and related buses
  pub record Match (m : Machine a.State) (n : Machine b.State) : Type 0 where
    pub core_alike : Alike sim m.core n.core
    pub same_halted : m.halted ≡ n.halted
    pub same_cycount : m.cycount ≡ n.cycount
    pub same_irq : m.irq_pending ≡ n.irq_pending
    pub same_nmi : m.nmi_pending ≡ n.nmi_pending

  enter_interrupt-Similar :
      (vector : ℕ) → Similar sim (enter_interrupt a vector) (enter_interrupt b vector)
  unfolding enter_interrupt
  enter_interrupt-Similar vector = Similar-bind sim (Similar-regs sim) λ r.
      Similar-seq sim (push16-Similar sim r.pc) (
        Similar-seq sim (push-Similar sim _)
          (Similar-seq sim (Similar-modify sim _) (jump_vector-Similar sim vector)))

  reset_core-Similar : Similar sim (reset_core a) (reset_core b)
  unfolding reset_core
  reset_core-Similar = Similar-seq sim (Similar-modify sim _) (
      Similar-bind sim (read_word-Similar sim 0xfffc 0xfffd)
        λ addr. Similar-seq sim (Similar-modify sim _) (Similar-modify sim _))

  -- Resetting two such machines keeps them so.
  pub cpu_reset-Match :
      (m : Machine a.State) (n : Machine b.State)
      → Match m n
      → Match (cpu_reset a m) (cpu_reset b n)
  unfolding cpu_reset
  cpu_reset-Match m n h = record {
    core_alike = (run-Alike sim _ _ m.core n.core reset_core-Similar h.core_alike).1;
    same_halted = refl;
    same_cycount = refl;
    same_irq = refl;
    same_nmi = refl;
  }

  serve_interrupt-Match :
      (vector : ℕ) (m : Machine a.State) (n : Machine b.State)
      → Match m n
      → Match (serve_interrupt a vector m) (serve_interrupt b vector n)
  unfolding serve_interrupt
  serve_interrupt-Match vector m n h = record {
    core_alike = (run-Alike sim _ _ m.core n.core (enter_interrupt-Similar vector) h.core_alike).1;
    same_halted = h.same_halted;
    same_cycount = ap (λ (k : ℕ). u32 (k + 7)) h.same_cycount;
    same_irq = h.same_irq;
    same_nmi = h.same_nmi;
  }

  -- the instruction at the program counter, with its cycles
  abbrev instruction : (c : Bus) → M c.State ℕ
  instruction c = do
    r ← regs
    code ← bus_read c r.pc
    extra ← exec_step c code
    ret (base_cycles code + extra)

  instruction-Similar : Similar sim (instruction a) (instruction b)
  instruction-Similar = Similar-bind sim (Similar-regs sim) λ r.
      Similar-bind sim (Similar-read sim r.pc)
        λ code. Similar-bind sim (exec_step-Similar sim code) λ extra. Similar-ret sim _

  run_instruction-Match :
      (m : Machine a.State) (n : Machine b.State)
      → Match m n
      → Match (run_instruction a m) (run_instruction b n)
  unfolding run_instruction transformers
  run_instruction-Match m n h =
      let both =
        run-Alike sim (instruction a) (instruction b) m.core n.core instruction-Similar
          h.core_alike in
      record {
        core_alike = both.1;
        same_halted = h.same_halted;
        same_cycount = ap₂ (λ (k cycles : ℕ). u32 (k + cycles)) h.same_cycount both.0;
        same_irq = h.same_irq;
        same_nmi = h.same_nmi;
      }

  pub if_Match :
      (test other : Bool) (m k : Machine a.State) (n l : Machine b.State)
      → test ≡ other
      → Match m n
      → Match k l
      → Match (if test then m else k) (if other then n else l)
  if_Match test other m k n l same p q =
      subst (λ (t : Bool). Match (if test then m else k) (if t then n else l)) same
        (if_agree Match test m k n l p q)

  service-Match :
      (m : Machine a.State) (n : Machine b.State) → Match m n → Match (service a m) (service b n)
  unfolding service
  service-Match m n h =
      if_Match m.nmi_pending n.nmi_pending _ _ _ _ h.same_nmi
        (serve_interrupt-Match 0xfffa (record m { nmi_pending = false })
          (record n { nmi_pending = false })
          (record {
            core_alike = h.core_alike;
            same_halted = h.same_halted;
            same_cycount = h.same_cycount;
            same_irq = h.same_irq;
            same_nmi = refl;
          }))
        (if_Match _ _ _ _ _ _
          (ap₂ (λ (irq : Bool) (r : Regs). irq && not (flag fl_i r.p)) h.same_irq
            h.core_alike.same_regs)
          (serve_interrupt-Match 0xfffe (record m { irq_pending = false })
            (record n { irq_pending = false })
            (record {
              core_alike = h.core_alike;
              same_halted = h.same_halted;
              same_cycount = h.same_cycount;
              same_irq = refl;
              same_nmi = h.same_nmi;
            }))
          h)

  -- A step of two such machines keeps them so, for every opcode and every pending interrupt.
  pub cpu_step-Match :
      (m : Machine a.State) (n : Machine b.State) → Match m n → Match (cpu_step a m) (cpu_step b n)
  unfolding cpu_step
  cpu_step-Match m n h =
      if_Match m.halted n.halted _ _ _ _ h.same_halted h
        (service-Match _ _ (run_instruction-Match m n h))
