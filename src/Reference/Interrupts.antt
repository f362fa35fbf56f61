-- ===== src/Reference/Interrupts.antt =====
-- avr/sage6502.c:492-509: the interrupts that `cpu_step` serves, against the reference machine's entry
-- into a handler.
use sage_apple.Base.{
  ◌+◌, ◌≡◌, refl, ap, ◌∙◌, Bool, true, false, not, ◌&&◌, ◌||◌, if◌then◌else◌, u32,
}
use sage_apple.Bus.{Bus, PlainLaws}
use sage_apple.Cpu.Regs.{fl_i, flag}
use sage_apple.Cpu.Step.{Machine, run_instruction, cpu_step}
use sage_apple.Cpu.Interrupts.{cpu_step_pending, step_running}
use sage_apple.Cpu.Safety.Machine.{run_instruction-IsSoundMachine}
use sage_apple.Reference.State.{State, view_core}
use sage_apple.Reference.Execute.{entered}
use sage_apple.Reference.Step.{Computer, computer, interrupted}
use sage_apple.Reference.Machine.{plain_bus_laws, IsPlainMachine, service-interrupted}

-- The state behind the entry into the handler of an NMI, if there is one, else of an IRQ, if there
-- is one.
abbrev pub served : (bus : Bus) → Bool → Bool → State bus.State → State bus.State
served bus nmi irq s =
    if nmi then entered bus 0 0xfffa s else if irq then entered bus 0 0xfffe s else s

-- A function of the branch that two tests choose is the branch of its values.
through :
    {A B : Type 0} (f : A → B) (s t : Bool) (a b c : A)
    → f (if s then a else if t then b else c) ≡ (if s then f a else if t then f b else f c)
through f true t a b c = refl
through f false true a b c = refl
through f false false a b c = refl

either :
    {A : Type 0} (s t : Bool) (a b : A)
    → (if s then a else if t then a else b) ≡ (if s || t then a else b)
either true t a b = refl
either false t a b = refl

state_served :
    (bus : Bus) (c : Computer bus.State)
    → (interrupted bus c).state ≡ served bus c.nmi (c.irq && not c.state.status.i) c.state
state_served bus c =
    through (λ (d : Computer bus.State). d.state) c.nmi (c.irq && not c.state.status.i) _ _ _

cycles_served :
    (bus : Bus) (c : Computer bus.State)
    → (interrupted bus c).cycles
      ≡ (if c.nmi || (c.irq && not c.state.status.i) then u32 (c.cycles + 7) else c.cycles)
cycles_served bus c =
    through (λ (d : Computer bus.State). d.cycles) c.nmi (c.irq && not c.state.status.i) _ _ _
    ∙ either c.nmi (c.irq && not c.state.status.i) (u32 (c.cycles + 7)) c.cycles

module _ {bus : Bus} (laws : PlainLaws bus) where
  -- A step of a machine that is not halted, with its variables in range and plain memory, runs the
  -- instruction, decimal or not, and then enters the handler at $FFFA if an NMI was pending, else
  -- the one at $FFFE if an IRQ was pending and the instruction left the I flag clear, else none:
  -- the registers, the flags and the memory are those of the reference machine's entry, which
  -- takes seven cycles. No NMI is pending behind it, and an IRQ exactly if one was and either an
  -- NMI was served or the instruction left the I flag set.
  pub cpu_step-served :
      (m : Machine bus.State)
      → IsPlainMachine laws m
      → m.halted ≡ false
      → (view_core (cpu_step bus m).core
          ≡ served bus m.nmi_pending
              (m.irq_pending && not (flag fl_i (run_instruction bus m).core.regs.p))
              (view_core (run_instruction bus m).core))
        × ((cpu_step bus m).cycount ≡ (
            if m.nmi_pending
              || (m.irq_pending && not (flag fl_i (run_instruction bus m).core.regs.p))
            then u32 ((run_instruction bus m).cycount + 7)
            else (run_instruction bus m).cycount))
        × ((cpu_step bus m).nmi_pending ≡ false)
        × ((cpu_step bus m).irq_pending
            ≡ (m.irq_pending && (m.nmi_pending || flag fl_i (run_instruction bus m).core.regs.p)))
  unfolding run_instruction
  cpu_step-served m sound running = (
    ap (λ (c : Computer bus.State). c.state) entry
        ∙ state_served bus (computer (run_instruction bus m)),
    ap (λ (c : Computer bus.State). c.cycles) entry
        ∙ cycles_served bus (computer (run_instruction bus m)),
    (cpu_step_pending bus m running).0,
    (cpu_step_pending bus m running).1,
  )
    where
      entry : computer (cpu_step bus m) ≡ interrupted bus (computer (run_instruction bus m))
      entry =
          ap computer (step_running bus m running)
          ∙ service-interrupted laws (run_instruction bus m)
              (run_instruction-IsSoundMachine (plain_bus_laws laws) m sound)
