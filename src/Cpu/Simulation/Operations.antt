-- ===== src/Cpu/Simulation/Operations.antt =====
-- avr/sage6502.c:311-470 on two buses: an instruction does the same on both.
use sage_apple.Base.{◌▸◌, agreed, ℕ, Bool, true, false}
use sage_apple.Bus.{Bus}
use sage_apple.Cpu.Regs.{load_a, upd_nz}
use sage_apple.Cpu.Core.{◌>>◌, modify, advance, set_pc, bus_write}
use sage_apple.Cpu.Exec.{
  op_id, op_mode, shift, op_with_addr, branch, jump_vector, brk, rti, rts, op0_op, op_imm,
  op_memory, exec_step, stored,
}
use sage_apple.Cpu.Simulation.{
  Simulation, Similar, Similar-bind, Similar-seq, Similar-ret, Similar-regs, Similar-modify,
  Similar-read, Similar-write, Similar-if,
}
use sage_apple.Cpu.Simulation.Access.{
  Similar-switch, push-Similar, pull-Similar, push16-Similar, pull16-Similar, next_byte-Similar,
  read_word-Similar, fetch-Similar,
}

module _ {a b : Bus} (sim : Simulation a b) where
  shift-Similar :
      (id operand addr : ℕ) (memop : Bool)
      → Similar sim (shift a id operand addr memop) (shift b id operand addr memop)
  unfolding shift
  shift-Similar id operand addr memop = Similar-bind sim (Similar-regs sim) λ r.
      Similar-seq sim (Similar-modify sim _)
        (Similar-if sim memop (Similar-write sim addr _) (Similar-modify sim _))

  written :
      (addr v : ℕ)
      → Similar sim
          (bus_write a addr v >> modify (upd_nz v))
          (bus_write b addr v >> modify (upd_nz v))
  written addr v = Similar-seq sim (Similar-write sim addr v) (Similar-modify sim _)

  op_with_addr-Similar :
      (id operand addr : ℕ)
      → Similar sim (op_with_addr a id operand addr) (op_with_addr b id operand addr)
  unfolding op_with_addr
  op_with_addr-Similar id operand addr = Similar-bind sim (Similar-regs sim) λ r.
      Similar-switch sim id _ _
        (Similar-modify sim _
          ▸ Similar-modify sim _
          ▸ Similar-modify sim _
          ▸ Similar-write sim addr r.a
          ▸ Similar-write sim addr r.x
          ▸ Similar-write sim addr r.y
          ▸ Similar-modify sim _
          ▸ Similar-modify sim _
          ▸ Similar-modify sim _
          ▸ Similar-modify sim _
          ▸ Similar-modify sim _
          ▸ Similar-modify sim _
          ▸ Similar-modify sim _
          ▸ Similar-modify sim _
          ▸ Similar-modify sim _
          ▸ written addr _
          ▸ written addr _
          ▸ shift-Similar 31 operand addr true
          ▸ shift-Similar 32 operand addr true
          ▸ shift-Similar 33 operand addr true
          ▸ shift-Similar 34 operand addr true
          ▸ Similar-modify sim _
          ▸ Similar-seq sim (push16-Similar sim _) (Similar-modify sim _)
          ▸ agreed)
        (Similar-ret sim tt)

  branch-Similar : (id : ℕ) → Similar sim (branch a id) (branch b id)
  unfolding branch
  branch-Similar id = Similar-bind sim (Similar-regs sim) λ r.
      Similar-bind sim (Similar-read sim r.pc) λ v.
        Similar-seq sim (Similar-modify sim (advance 1)) (
          Similar-bind sim (Similar-regs sim) λ q.
            Similar-if sim _ (Similar-seq sim (Similar-modify sim _) (Similar-ret sim _))
              (Similar-ret sim 0))

  pub jump_vector-Similar : (vector : ℕ) → Similar sim (jump_vector a vector) (jump_vector b vector)
  unfolding jump_vector
  jump_vector-Similar vector =
      Similar-bind sim (read_word-Similar sim _ _) λ addr. Similar-modify sim (set_pc addr)

  brk-Similar : Similar sim (brk a) (brk b)
  unfolding brk
  brk-Similar = Similar-seq sim (Similar-modify sim _) (
      Similar-bind sim (Similar-regs sim) λ r. Similar-seq sim (push16-Similar sim r.pc) (
        Similar-seq sim (push-Similar sim _)
          (Similar-seq sim (Similar-modify sim _) (jump_vector-Similar 0xfffe))))

  rti-Similar : Similar sim (rti a) (rti b)
  unfolding rti
  rti-Similar = Similar-bind sim (pull-Similar sim) λ p.
      Similar-seq sim (Similar-modify sim _)
        (Similar-bind sim (pull16-Similar sim) λ pc. Similar-modify sim (set_pc pc))

  rts-Similar : Similar sim (rts a) (rts b)
  unfolding rts
  rts-Similar = Similar-bind sim (pull16-Similar sim) λ pc. Similar-modify sim _

  op0_op-Similar : (id : ℕ) → Similar sim (op0_op a id) (op0_op b id)
  unfolding op0_op
  op0_op-Similar id = Similar-bind sim (Similar-regs sim) λ r.
      Similar-switch sim id _ _
        (Similar-modify sim _
          ▸ Similar-modify sim _
          ▸ Similar-modify sim _
          ▸ Similar-modify sim _
          ▸ Similar-modify sim _
          ▸ Similar-modify sim _
          ▸ push-Similar sim r.a
          ▸ push-Similar sim _
          ▸ (Similar-bind sim (pull-Similar sim) λ v. Similar-modify sim (load_a v))
          ▸ (Similar-bind sim (pull-Similar sim) λ v. Similar-modify sim _)
          ▸ Similar-modify sim _
          ▸ Similar-modify sim _
          ▸ Similar-modify sim _
          ▸ Similar-modify sim _
          ▸ rts-Similar
          ▸ brk-Similar
          ▸ rti-Similar
          ▸ Similar-modify sim _
          ▸ Similar-modify sim _
          ▸ Similar-modify sim _
          ▸ Similar-modify sim _
          ▸ Similar-modify sim _
          ▸ Similar-modify sim _
          ▸ Similar-modify sim _
          ▸ agreed)
        (Similar-ret sim tt)

  op_imm-Similar : (id operand : ℕ) → Similar sim (op_imm a id operand) (op_imm b id operand)
  unfolding op_imm
  op_imm-Similar id operand = Similar-bind sim (Similar-regs sim) λ r.
      Similar-switch sim id _ _
        (Similar-modify sim _
          ▸ Similar-modify sim _
          ▸ Similar-modify sim _
          ▸ Similar-modify sim _
          ▸ Similar-modify sim _
          ▸ Similar-modify sim _
          ▸ Similar-modify sim _
          ▸ Similar-modify sim _
          ▸ Similar-modify sim _
          ▸ Similar-modify sim _
          ▸ Similar-modify sim _
          ▸ agreed)
        (Similar-ret sim tt)

  op_memory-Similar : (id mode : ℕ) → Similar sim (op_memory a id mode) (op_memory b id mode)
  unfolding op_memory
  op_memory-Similar id mode = Similar-bind sim (fetch-Similar sim mode) λ addr.
      Similar-bind sim (Similar-regs sim) λ r.
        Similar-seq sim
          (Similar-if sim _ (Similar-write sim addr (stored id r)) (
            Similar-bind sim (Similar-read sim addr)
              λ operand. op_with_addr-Similar id operand addr))
          (Similar-bind sim (Similar-regs sim) λ q. Similar-ret sim _)

  -- An instruction does the same on both buses.
  pub exec_step-Similar : (code : ℕ) → Similar sim (exec_step a code) (exec_step b code)
  unfolding exec_step
  exec_step-Similar code = Similar-seq sim (Similar-modify sim (advance 1)) (
      Similar-bind sim (Similar-regs sim) λ r.
        Similar-if sim _
          (Similar-bind sim (next_byte-Similar sim)
            λ operand. Similar-seq sim (op_imm-Similar (op_id code) operand) (Similar-ret sim 0))
          (Similar-if sim _
            (Similar-seq sim (shift-Similar (op_id code) r.a 0 false) (Similar-ret sim 0))
            (Similar-if sim _ (branch-Similar (op_id code)) (
              Similar-if sim _ (Similar-seq sim (op0_op-Similar (op_id code)) (Similar-ret sim 0))
                (op_memory-Similar (op_id code) (op_mode code))))))
