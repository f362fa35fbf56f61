-- ===== src/Cpu/Safety/Operations.antt =====
-- The operations of an instruction, and `exec_step`, keep the core valid.
use sage_apple.Base.{ℕ, ◌+◌, ◌<◌, arith, true, false, u16}
use sage_apple.Bus.{Bus, BusLaws}
use sage_apple.Cpu.Regs.{fl_c, fl_d, fl_i, fl_v, set_flag, clear_flag}
use sage_apple.Cpu.Core.{ret, modify, sbyte}
use sage_apple.Cpu.Exec.{
  op_with_addr, branch, jump_vector, brk, rti, rts, op0_op, op_imm, op_memory, exec_step,
}
use sage_apple.Cpu.Valid.{
  set_flag-lt, clear_flag-lt, adc-IsValid, sbc-IsValid, compare-IsValid, bit_test-IsValid,
  advance-IsValid, set_p-IsValid, add_offset-lt,
}
use sage_apple.Cpu.Ensures.{
  Ensures, Done, Ensures-bind, Ensures-seq, Ensures-ret, Ensures-regs, Ensures-modify, Ensures-if,
  Ensures-switch,
}
use sage_apple.Cpu.Safety.Access.{
  read-Ensures, write-Ensures, push-Ensures, pull-Ensures, push16-Ensures, pull16-Ensures,
  next_byte-Ensures, read_word-Ensures, fetch-Ensures,
}
use sage_apple.Cpu.Safety.Pieces.{
  and_byte, or_byte, xor_byte, or_small, status_byte, word_mask, sp_byte, pc_word, stored-lt,
  load_a-Ensures, load_x-Ensures, load_y-Ensures, status, jump, set_i, write_nz-Ensures,
  shift-Ensures,
}

module _ {bus : Bus} (laws : BusLaws bus) where
  pub op_imm-Ensures :
      (id operand : ℕ) → operand < 256 → Ensures laws (Done laws) (op_imm bus id operand)
  unfolding op_imm
  op_imm-Ensures id operand b = Ensures-bind laws (Ensures-regs laws) λ r h.
      Ensures-switch laws id _
        (
          load_a-Ensures laws operand b,
          (
            load_x-Ensures laws operand b,
            (
              load_y-Ensures laws operand b,
              (
                Ensures-modify laws (adc-IsValid operand),
                (
                  Ensures-modify laws (sbc-IsValid operand),
                  (
                    load_a-Ensures laws _ (and_byte r operand h),
                    (
                      load_a-Ensures laws _ (or_byte r operand h b),
                      (
                        load_a-Ensures laws _ (xor_byte r operand h b),
                        (
                          Ensures-modify laws (compare-IsValid r.a operand),
                          (
                            Ensures-modify laws (compare-IsValid r.x operand),
                            (Ensures-modify laws (compare-IsValid r.y operand), tt),
                          ),
                        ),
                      ),
                    ),
                  ),
                ),
              ),
            ),
          ),
        )
        (Ensures-ret laws tt tt)

  pub op_with_addr-Ensures :
      (id operand addr : ℕ)
      → operand < 256
      → addr < 65536
      → Ensures laws (Done laws) (op_with_addr bus id operand addr)
  unfolding op_with_addr
  op_with_addr-Ensures id operand addr b w = Ensures-bind laws (Ensures-regs laws) λ r h.
      Ensures-switch laws id _
        (
          load_a-Ensures laws operand b,
          (
            load_x-Ensures laws operand b,
            (
              load_y-Ensures laws operand b,
              (
                write-Ensures laws addr r.a h.a_byte,
                (
                  write-Ensures laws addr r.x h.x_byte,
                  (
                    write-Ensures laws addr r.y h.y_byte,
                    (
                      Ensures-modify laws (adc-IsValid operand),
                      (
                        Ensures-modify laws (sbc-IsValid operand),
                        (
                          load_a-Ensures laws _ (and_byte r operand h),
                          (
                            load_a-Ensures laws _ (or_byte r operand h b),
                            (
                              load_a-Ensures laws _ (xor_byte r operand h b),
                              (
                                Ensures-modify laws (bit_test-IsValid operand),
                                (
                                  Ensures-modify laws (compare-IsValid r.a operand),
                                  (
                                    Ensures-modify laws (compare-IsValid r.x operand),
                                    (
                                      Ensures-modify laws (compare-IsValid r.y operand),
                                      (
                                        write_nz-Ensures laws addr _ (omega arith),
                                        (
                                          write_nz-Ensures laws addr _ (omega arith),
                                          (
                                            shift-Ensures laws 31 operand addr true b,
                                            (
                                              shift-Ensures laws 32 operand addr true b,
                                              (
                                                shift-Ensures laws 33 operand addr true b,
                                                (
                                                  shift-Ensures laws 34 operand addr true b,
                                                  (
                                                    jump laws w,
                                                    (
                                                      Ensures-seq laws
                                                          (push16-Ensures laws _ (word_mask _))
                                                          (jump laws w),
                                                      tt,
                                                    ),
                                                  ),
                                                ),
                                              ),
                                            ),
                                          ),
                                        ),
                                      ),
                                    ),
                                  ),
                                ),
                              ),
                            ),
                          ),
                        ),
                      ),
                    ),
                  ),
                ),
              ),
            ),
          ),
        )
        (Ensures-ret laws tt tt)

  pub branch-Ensures : (id : ℕ) → Ensures laws (λ n. n < 3) (branch bus id)
  unfolding branch
  branch-Ensures id = Ensures-bind laws (Ensures-regs laws) λ r h.
      Ensures-bind laws (read-Ensures laws r.pc) λ b hb.
        Ensures-seq laws (Ensures-modify laws (advance-IsValid 1)) (
          Ensures-bind laws (Ensures-regs laws) λ r h.
            Ensures-if laws _
              (Ensures-seq laws (jump laws (add_offset-lt r.pc (sbyte b)))
                (Ensures-ret laws _ (ground arith)))
              (Ensures-ret laws 0 (omega arith)))

  pub jump_vector-Ensures : (vector : ℕ) → Ensures laws (Done laws) (jump_vector bus vector)
  unfolding jump_vector
  jump_vector-Ensures vector =
      Ensures-bind laws (read_word-Ensures laws vector _) λ addr w. jump laws w

  brk-Ensures : Ensures laws (Done laws) (brk bus)
  unfolding brk
  brk-Ensures =
      Ensures-seq laws (Ensures-modify laws (λ r. pc_word r (u16 (r.pc + 1)) (omega arith))) (
        Ensures-bind laws (Ensures-regs laws) λ r h.
          Ensures-seq laws (push16-Ensures laws r.pc h.pc_word) (
            Ensures-seq laws (push-Ensures laws _ (status_byte r.p h.p_byte))
              (Ensures-seq laws (set_i laws) (jump_vector-Ensures 0xfffe))))

  rti-Ensures : Ensures laws (Done laws) (rti bus)
  unfolding rti
  rti-Ensures = Ensures-bind laws (pull-Ensures laws) λ p hp.
      Ensures-seq laws (status laws (or_small p hp))
        (Ensures-bind laws (pull16-Ensures laws) λ pc w. jump laws w)

  rts-Ensures : Ensures laws (Done laws) (rts bus)
  unfolding rts
  rts-Ensures = Ensures-bind laws (pull16-Ensures laws) λ pc w. jump laws (word_mask _)

  cleared : (f : ℕ) → Ensures laws (Done laws) (modify (λ r. record r { p = clear_flag f r.p }))
  cleared f = Ensures-modify laws (λ r h. set_p-IsValid _ r (clear_flag-lt f r.p h.p_byte) h)

  was_set :
      (f : ℕ) → f < 256 → Ensures laws (Done laws) (modify (λ r. record r { p = set_flag f r.p }))
  was_set f b = Ensures-modify laws (λ r h. set_p-IsValid _ r (set_flag-lt f r.p b h.p_byte) h)

  pub op0_op-Ensures : (id : ℕ) → Ensures laws (Done laws) (op0_op bus id)
  unfolding op0_op
  op0_op-Ensures id = Ensures-bind laws (Ensures-regs laws) λ r h.
      Ensures-switch laws id _
        (
          load_x-Ensures laws r.a h.a_byte,
          (
            load_a-Ensures laws r.x h.x_byte,
            (
              load_y-Ensures laws r.a h.a_byte,
              (
                load_a-Ensures laws r.y h.y_byte,
                (
                  load_x-Ensures laws r.sp h.sp_byte,
                  (
                    Ensures-modify laws (λ q g. sp_byte q q.x g.x_byte g),
                    (
                      push-Ensures laws r.a h.a_byte,
                      (
                        push-Ensures laws _ (status_byte _ h.p_byte),
                        (
                          (Ensures-bind laws (pull-Ensures laws) λ v hv. load_a-Ensures laws v hv),
                          (
                            (Ensures-bind laws (pull-Ensures laws)
                                λ v hv. status laws (or_small v hv)),
                            (
                              load_x-Ensures laws _ (omega arith),
                              (
                                load_y-Ensures laws _ (omega arith),
                                (
                                  load_x-Ensures laws _ (omega arith),
                                  (
                                    load_y-Ensures laws _ (omega arith),
                                    (
                                      rts-Ensures,
                                      (
                                        brk-Ensures,
                                        (
                                          rti-Ensures,
                                          (
                                            cleared fl_c,
                                            (
                                              cleared fl_d,
                                              (
                                                cleared fl_i,
                                                (
                                                  cleared fl_v,
                                                  (
                                                    was_set fl_c (omega arith),
                                                    (
                                                      was_set fl_d (omega arith),
                                                      (was_set fl_i (omega arith), tt),
                                                    ),
                                                  ),
                                                ),
                                              ),
                                            ),
                                          ),
                                        ),
                                      ),
                                    ),
                                  ),
                                ),
                              ),
                            ),
                          ),
                        ),
                      ),
                    ),
                  ),
                ),
              ),
            ),
          ),
        )
        (Ensures-ret laws tt tt)

  op_memory-Ensures : (id mode : ℕ) → Ensures laws (λ n. n < 3) (op_memory bus id mode)
  unfolding op_memory
  op_memory-Ensures id mode = Ensures-bind laws (fetch-Ensures laws mode) λ addr w.
      Ensures-bind laws (Ensures-regs laws) λ r h.
        Ensures-seq laws
          (Ensures-if laws _ (write-Ensures laws addr _ (stored-lt id r h)) (
            Ensures-bind laws (read-Ensures laws addr)
              λ operand b. op_with_addr-Ensures id operand addr b w))
          (Ensures-bind laws (Ensures-regs laws) λ r h. Ensures-ret laws _ (ground arith))

  -- Every instruction keeps the core valid, and asks for at most two extra cycles.
  pub exec_step-Ensures : (code : ℕ) → Ensures laws (λ n. n < 3) (exec_step bus code)
  unfolding exec_step
  exec_step-Ensures code = Ensures-seq laws (Ensures-modify laws (advance-IsValid 1)) (
      Ensures-bind laws (Ensures-regs laws) λ r h.
        Ensures-if laws _
          (Ensures-bind laws (next_byte-Ensures laws)
            λ operand b. Ensures-seq laws (op_imm-Ensures _ operand b) none)
          (Ensures-if laws _ (Ensures-seq laws (shift-Ensures laws _ r.a 0 false h.a_byte) none) (
            Ensures-if laws _ (branch-Ensures _) (
              Ensures-if laws _ (Ensures-seq laws (op0_op-Ensures _) none)
                (op_memory-Ensures _ _)))))
    where
      none : Ensures laws (λ n. n < 3) (ret 0)
      none = Ensures-ret laws 0 (omega arith)
