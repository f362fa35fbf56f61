-- ===== src/Host/Steps.antt =====
-- avr/apple2_host_main.c:52-57 and avr/host_main.c:21-24: the loops that step the core.
use sage_apple.Base.{
  ℕ, zero, suc, ◌&&◌, ◌≡◌, refl, ap, ◌∙◌, not, true, false, Bool-cases, inl, inr, if_both, if_true,
  if_false, sym, if◌then◌else◌,
}
use sage_apple.Bus.{Bus, BusLaws}
use sage_apple.Cpu.Regs.{fl_i, flag}
use sage_apple.Cpu.Step.{Machine, cpu_step, cpu_halted, run_instruction, service, serve_interrupt}
use sage_apple.Cpu.Safety.Machine.{IsSoundMachine, cpu_step-IsSoundMachine}
use sage_apple.Host.{run_steps}

-- `count` steps of the core, whether it is halted or not
unfoldable pub steps : (bus : Bus) → ℕ → Machine bus.State → Machine bus.State
steps bus zero m = m
steps bus (suc count) m = steps bus count (cpu_step bus m)

module _ (bus : Bus) where
  service-halted : (m : Machine bus.State) → (service bus m).halted ≡ m.halted
  unfolding service serve_interrupt
  service-halted m = elim (Bool-cases m.nmi_pending) [
    | inl h ↦ rw h refl
    | inr h ↦ rw h (elim (Bool-cases (m.irq_pending && not (flag fl_i m.core.regs.p))) [
      | inl i ↦ rw i refl
      | inr i ↦ rw i refl
    ])
  ]

  -- No instruction and no interrupt halts the core.
  pub step-halted : (m : Machine bus.State) → (cpu_step bus m).halted ≡ m.halted
  unfolding cpu_step run_instruction
  step-halted m = elim (Bool-cases m.halted) [
    | inl h ↦ ap (λ (n : Machine bus.State). n.halted) (if_true m.halted m _ h)
    | inr h ↦
        ap (λ (n : Machine bus.State). n.halted) (if_false m.halted m _ h)
        ∙ service-halted (run_instruction bus m)
  ]

  halted_steps : (count : ℕ) (m : Machine bus.State) → m.halted ≡ true → run_steps bus count m ≡ m
  unfolding run_steps cpu_halted
  halted_steps zero m h = refl
  halted_steps (suc count) m h = if_true m.halted m _ h

  running_steps :
      (count : ℕ) (m : Machine bus.State)
      → m.halted ≡ false
      → run_steps bus count m ≡ steps bus count m
  unfolding run_steps steps cpu_halted
  running_steps zero m h = refl
  running_steps (suc count) m h =
      if_false m.halted m _ h ∙ running_steps count (cpu_step bus m) (step-halted m ∙ h)

  pub steps-halted : (count : ℕ) (m : Machine bus.State) → (steps bus count m).halted ≡ m.halted
  unfolding steps
  steps-halted zero m = refl
  steps-halted (suc count) m = steps-halted count (cpu_step bus m) ∙ step-halted m

  -- The harness's loop takes all of its steps on a core that is not halted at its start and none
  -- on one that is, and the core is halted after it exactly if it was before: no instruction and
  -- no interrupt halts it.
  pub run_steps-steps :
      (count : ℕ) (m : Machine bus.State)
      → (run_steps bus count m ≡ (if m.halted then m else steps bus count m))
        × ((run_steps bus count m).halted ≡ m.halted)
  run_steps-steps count m = elim (Bool-cases m.halted) [
    | inl h ↦ (
      halted_steps count m h ∙ sym (if_true m.halted m _ h),
      ap (λ (n : Machine bus.State). n.halted) (halted_steps count m h),
    )
    | inr h ↦ (
      running_steps count m h ∙ sym (if_false m.halted m _ h),
      ap (λ (n : Machine bus.State). n.halted) (running_steps count m h) ∙ steps-halted count m,
    )
  ]

  -- On a bus with laws, the loop keeps every register a byte, the program counter and the cycle
  -- counter in range and the bus in its invariant, for any number of steps.
  pub run_steps-IsSoundMachine :
      (laws : BusLaws bus) (count : ℕ) (m : Machine bus.State)
      → IsSoundMachine laws m
      → IsSoundMachine laws (run_steps bus count m)
  unfolding run_steps
  run_steps-IsSoundMachine laws zero m h = h
  run_steps-IsSoundMachine laws (suc count) m h =
      if_both (IsSoundMachine laws) (cpu_halted m) h
        (run_steps-IsSoundMachine laws count (cpu_step bus m) (cpu_step-IsSoundMachine laws m h))
