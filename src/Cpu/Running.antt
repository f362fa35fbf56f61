-- ===== src/Cpu/Running.antt =====
-- A test that runs the core names `running` on its `unfolding` line: it computes with every
-- operation of the core.
use sage_apple.Base.{switch}
use sage_apple.Cpu.Regs.{set_flag, clear_flag, put_flag, flag, nz, upd_nz, load_a, load_x, load_y}
use sage_apple.Cpu.Alu.{
  top_bit, decimal_sum, adc_decimal, adc_binary, adc, low_part, high_part, decimal_diff,
  sbc_decimal, sbc_binary, sbc, compare, shift_result, shift_flags,
}
use sage_apple.Cpu.Core.{
  ◌>>=◌, ◌>>◌, ret, regs, modify, advance, set_pc, word, crosses, sbyte, bus_read, bus_write, push,
  pull, push16, pull16, next_byte, next_word, read_word, indexed, fetch,
}
use sage_apple.Cpu.Exec.{
  bit_test, add_offset, taken, op_id, op_mode, pays_crossing, stored, shift, op_with_addr, branch,
  jump_vector, brk, rti, rts, op0_op, op_imm, op_memory, exec_step,
}
use sage_apple.Cpu.Step.{
  base_cycles, enter_interrupt, serve_interrupt, reset_core, cpu_reset, run_instruction, service,
  cpu_step, cpu_halted, cpu_pc,
}

unfoldable pub running : Unit {0}
unfolding switch set_flag clear_flag put_flag flag nz upd_nz load_a load_x load_y top_bit
    decimal_sum adc_decimal adc_binary adc low_part high_part decimal_diff sbc_decimal sbc_binary
    sbc compare shift_result shift_flags ◌>>=◌ ◌>>◌ ret regs modify advance set_pc word crosses
    sbyte bus_read bus_write push pull push16 pull16 next_byte next_word read_word indexed fetch
    bit_test add_offset taken op_id op_mode pays_crossing stored shift op_with_addr branch
    jump_vector brk rti rts op0_op op_imm op_memory exec_step base_cycles enter_interrupt
    serve_interrupt reset_core cpu_reset run_instruction service cpu_step cpu_halted cpu_pc
running = tt
