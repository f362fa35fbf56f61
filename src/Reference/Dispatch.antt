-- ===== src/Reference/Dispatch.antt =====
-- avr/sage6502.c:432-470: `exec_step`, by the kinds of addressing mode, against the reference machine.
use sage_apple.Base.{
  ℕ, ◌+◌, ◌%◌, ◌≡◌, refl, ap, ap₂, ◌∙◌, arith, Bool, false, ◌&&◌, ◌||◌, ◌==◌, if◌then◌else◌,
  if_agree, switch, bit_and_0xffff,
}
use sage_apple.Bus.{Bus, PlainLaws, peek}
use sage_apple.Cpu.Regs.{Regs, m_imm, m_acc, m_rel, m_imp, fl_c, fl_d, flag}
use sage_apple.Cpu.Alu.{shift_result}
use sage_apple.Cpu.Core.{
  Core, M, transformers, ◌>>=◌, ◌>>◌, ret, regs, advance, set_pc, bus_read, bus_write, next_byte,
}
use sage_apple.Cpu.Exec.{
  shift, branch, taken, stored, pays_crossing, op_imm, op0_op, op_with_addr, op_memory, op_id,
  op_mode, exec_step,
}
use sage_apple.Cpu.Valid.{IsValid, set_pc-IsValid}
use sage_apple.Cpu.Operands.{Operand, operand}
use sage_apple.Cpu.Addressing.{behind, fetch-operand}
use sage_apple.Cpu.Branches.{branch_lem}
use sage_apple.Reference.State.{State, view, view_core}
use sage_apple.Reference.Values.{shifted, shift_status}
use sage_apple.Reference.Registers.{shift_flags-shift_status, shift_result-shifted}
use sage_apple.Reference.Stack.{core, reads}
use sage_apple.Reference.Memory.{is_sum, Does, op_imm-immediates, op_with_addr-addressed}
use sage_apple.Reference.Implied.{op0_op-implieds}
use sage_apple.Reference.Execute.{
  index_regs, branches, branched, pays, to_pc, immediates, addressed, implieds, on_memory, operate,
}

-- which operations add a cycle for a crossed page
pays_crossing-pays : (id : ℕ) → pays_crossing id ≡ pays id
unfolding pays_crossing
pays_crossing-pays id = ground arith

behind-IsValid :
    (r : Regs) (o : Operand)
    → IsValid r
    → IsValid (record r { pc = (r.pc + o.bytes) % 65536; fetch_crossed = o.crossed })
behind-IsValid r o valid = ground arith

-- A result of the core with what it shows.
abbrev pub shown : {S : Type 0} → ℕ × Core S → State S × ℕ
shown t = (view_core t.1, t.0)

module _ {bus : Bus} (laws : PlainLaws bus) (r : Regs) (s : bus.State) (valid : IsValid r)
    (plain : laws.IsPlain s) (id : ℕ) where
  -- `m`, from these registers and this memory, leaves and counts what `t` says
  abbrev pub Gives : M bus.State ℕ → State bus.State × ℕ → Type 0
  Gives m t = Path {0} (State bus.State × ℕ) (shown (m (core bus r s))) t

  implied-Gives : Gives (op0_op bus id >> ret 0) (switch id (implieds bus (view r s)) (view r s), 0)
  unfolding transformers
  implied-Gives = ap (λ (t : State bus.State). (t, 0)) (op0_op-implieds laws r s valid plain id)

  accumulator-Gives :
      Gives
        (shift bus id r.a 0 false >> ret 0)
        (record (shift_status id r.a (view r s)) { a = (shifted id r.a (flag fl_c r.p)).0 }, 0)
  unfolding shift transformers
  accumulator-Gives =
      ap (λ (t : State bus.State). (record t { a = (shift_result id r.a (flag fl_c r.p)).0 }, 0))
        (shift_flags-shift_status s id r.a r valid.a_byte)
      ∙ ap (λ (t : ℕ × Bool). (record (shift_status id r.a (view r s)) { a = t.0 }, 0))
          (shift_result-shifted id r.a (flag fl_c r.p) valid.a_byte)

  branch-Gives :
      Gives (branch bus id) (branched bus (switch id (branches (view r s).status) false) (view r s))
  unfolding taken
  branch-Gives =
      ap shown (
        branch_lem bus s (peek bus s) (λ addr. reads bus laws addr s plain)
          (λ addr. laws.peek-lt addr s plain) id r valid.pc_word)
      ∙ if_agree (λ (x : ℕ × Core bus.State) (u : State bus.State × ℕ). shown x ≡ u) (taken id r.p)
          _ _ _ _ refl refl

  module _ (binary : (is_sum id && flag fl_d r.p) ≡ false) where
    immediate-Gives : Gives (next_byte bus >>= (λ operand. op_imm bus id operand >> ret 0)) (
      switch id
          (immediates bus (peek bus s r.pc) (to_pc bus ((r.pc + 1) % 65536) (view r s)))
          (to_pc bus ((r.pc + 1) % 65536) (view r s)),
      0,
    )
    unfolding next_byte bus_read advance set_pc transformers
    immediate-Gives =
        rw (reads bus laws r.pc s plain, bit_and_0xffff)
          (ap (λ (t : State bus.State). (t, 0))
            (op_imm-immediates bus past s (set_pc-IsValid _ r (omega arith) valid) id
              (peek bus s r.pc) (laws.peek-lt r.pc s plain) binary).0)
      where
        past : Regs
        past = record r { pc = (r.pc + 1) % 65536 }

    -- what `op_memory` does at the address of an operand, and the cycles that it then counts
    abbrev at_operand : Operand → M bus.State (Unit {0})
    at_operand o =
        if id == 3 || id == 4 || id == 5
        then bus_write bus o.address (stored id r)
        else (bus_read bus o.address >>= (λ v. op_with_addr bus id v o.address))

    abbrev counted : M bus.State (Unit {0}) → M bus.State ℕ
    counted m = do m; r ← regs; ret (if r.fetch_crossed && pays_crossing id then 1 else 0)

    read-Does :
        (o : Operand)
        → Does bus
            (behind bus s o r).regs
            s
            (bus_read bus o.address >>= (λ v. op_with_addr bus id v o.address))
            (switch id
              (addressed bus
                (peek bus s o.address)
                o.address
                (to_pc bus ((r.pc + o.bytes) % 65536) (view r s)))
              (to_pc bus ((r.pc + o.bytes) % 65536) (view r s)))
    unfolding bus_read transformers
    read-Does o = rw (reads bus laws o.address s plain) (
        op_with_addr-addressed bus (behind bus s o r).regs s (behind-IsValid r o valid) id
          (peek bus s o.address) (laws.peek-lt o.address s plain) binary o.address)

    -- the rest of `op_memory`, behind its fetch
    abbrev after_fetch : ℕ → M bus.State ℕ
    after_fetch addr = do
      r ← regs
      if id == 3 || id == 4 || id == 5
          then bus_write bus addr (stored id r)
          else (do operand ← bus_read bus addr; op_with_addr bus id operand addr)
      r ← regs
      ret (if r.fetch_crossed && pays_crossing id then 1 else 0)

    operand-Does :
        (o : Operand)
        → Does bus (behind bus s o r).regs s (at_operand o) (on_memory bus id o (view r s)).0
    unfolding bus_write stored transformers
    operand-Does o =
        if_agree (Does bus (behind bus s o r).regs s) (id == 3 || id == 4 || id == 5)
          (bus_write bus o.address (stored id r)) _ _ _ (refl, refl) (read-Does o)

    behind_fetch :
        (o : Operand)
        → shown (after_fetch o.address (behind bus s o r)) ≡ on_memory bus id o (view r s)
    unfolding stored transformers
    behind_fetch o =
        ap₂ (λ (t : State bus.State) (b : Bool). (t, if b then 1 else 0)) (operand-Does o).0
          (ap₂ (λ (crossed b : Bool). crossed && b) (operand-Does o).1 (pays_crossing-pays id))

    same_operand :
        (mode : ℕ) → operand (peek bus s) mode r ≡ operand (peek bus s) mode (index_regs (view r s))
    unfolding operand
    same_operand mode = refl

    memory-Gives :
        (mode : ℕ)
        → Gives
            (op_memory bus id mode)
            (on_memory bus id (operand (peek bus s) mode (index_regs (view r s))) (view r s))
    unfolding op_memory transformers
    memory-Gives mode =
        ap (λ (t : ℕ × Core bus.State). shown (after_fetch t.0 t.1))
          (fetch-operand bus s (peek bus s) (λ addr. reads bus laws addr s plain)
            (λ addr. laws.peek-lt addr s plain) r valid mode)
        ∙ (behind_fetch (operand (peek bus s) mode r)
            ∙ ap (λ (o : Operand). on_memory bus id o (view r s)) (same_operand mode))

    -- what `exec_step` does behind the opcode
    abbrev dispatched : ℕ → M bus.State ℕ
    dispatched mode =
        if mode == m_imm
        then (do operand ← next_byte bus; op_imm bus id operand; ret 0)
        else if mode == m_acc
        then (do shift bus id r.a 0 false; ret 0)
        else if mode == m_rel
        then branch bus id
        else if mode == m_imp
        then (do op0_op bus id; ret 0)
        else op_memory bus id mode

    pub dispatched-operate : (mode : ℕ) → Gives (dispatched mode) (operate bus id mode (view r s))
    unfolding operate
    dispatched-operate mode = if_agree Gives (mode == m_imm) _ _ _ _ immediate-Gives (
        if_agree Gives (mode == m_acc) _ _ _ _ accumulator-Gives (
          if_agree Gives (mode == m_rel) _ _ _ _ branch-Gives
            (if_agree Gives (mode == m_imp) _ _ _ _ implied-Gives (memory-Gives mode))))

-- From valid registers and plain memory, an opcode whose operation is not a decimal ADC or SBC
-- leaves what the reference machine's operation leaves, and adds the cycles that it adds.
pub exec_step-operate :
    {bus : Bus} (laws : PlainLaws bus) (r : Regs) (s : bus.State) (code : ℕ)
    → IsValid r
    → laws.IsPlain s
    → (is_sum (op_id code) && flag fl_d r.p) ≡ false
    → shown (exec_step bus code (core bus r s))
      ≡ operate bus (op_id code) (op_mode code) (to_pc bus ((r.pc + 1) % 65536) (view r s))
unfolding exec_step advance set_pc transformers
exec_step-operate {bus} laws r s code valid plain binary = rw (bit_and_0xffff) (
    dispatched-operate laws next s (set_pc-IsValid ((r.pc + 1) % 65536) r (omega arith) valid) plain
      (op_id code) binary (op_mode code))
  where
    next : Regs
    next = record r { pc = (r.pc + 1) % 65536 }
