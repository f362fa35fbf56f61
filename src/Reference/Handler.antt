-- ===== src/Reference/Handler.antt =====
-- The entry into an interrupt's handler, by BRK or by an interrupt, against the reference machine's.
use sage_apple.Base.{ℕ, ◌+◌, ◌%◌, ◌<◌, ◌≡◌, ap, ◌∙◌, arith, true, u16}
use sage_apple.Bus.{Bus, PlainLaws, peek}
use sage_apple.Cpu.Regs.{Regs, fl_i, set_flag, put_flag}
use sage_apple.Cpu.Core.{Core, M, transformers, ◌>>◌, modify, set_pc, push}
use sage_apple.Cpu.Exec.{jump_vector}
use sage_apple.Cpu.Valid.{IsValid}
use sage_apple.Cpu.Operands.{word_at}
use sage_apple.Cpu.Status.{Flags, flags, flags-put_i}
use sage_apple.Reference.State.{State, view, view_core, status_byte}
use sage_apple.Reference.Stack.{after_push16, push_plain, read_word_plain}
use sage_apple.Reference.Execute.{entered}

module _ {bus : Bus} (laws : PlainLaws bus) where
  -- the memory with the program counter and a status byte pushed on it
  abbrev pub stacked : ℕ → Regs → bus.State → bus.State
  stacked v r s =
      bus.write (256 + ((r.sp + 255) % 256 + 255) % 256) v (after_push16 bus r.pc r s).mem

  stacked-IsPlain :
      (v : ℕ) (r : Regs) (s : bus.State)
      → v < 256
      → r.pc < 65536
      → laws.IsPlain s
      → laws.IsPlain (stacked v r s)
  stacked-IsPlain v r s hv hp plain =
      laws.write-IsPlain _ v _ hv
        (laws.write-IsPlain _ _ _ (omega arith) (laws.write-IsPlain _ _ _ (omega arith) plain))

  -- The entry into a handler, from the push of the program counter on.
  abbrev pub handler : ℕ → ℕ → M bus.State (Unit {0})
  handler v vector = do
    push bus v
    modify (λ r. record r { p = set_flag fl_i r.p })
    jump_vector bus vector

  pub enter_plain :
      (v b vector : ℕ) (r : Regs) (s : bus.State)
      → v ≡ status_byte b (flags r.p)
      → v < 256
      → vector < 65535
      → IsValid r
      → laws.IsPlain s
      → view_core (handler v vector (after_push16 bus r.pc r s)).1 ≡ entered bus b vector (view r s)
  unfolding jump_vector set_pc put_flag transformers
  enter_plain v b vector r s e hv hvec valid plain =
      ap after_push (
        push_plain bus v (after_push16 bus r.pc r s).regs (after_push16 bus r.pc r s).mem
          (omega arith))
      ∙ (ap jumped (read_word_plain bus laws vector (u16 (vector + 1)) held (stacked v r s) still)
          ∙ (ap (λ (q : ℕ). shown q (flags held.p)) e
              ∙ ap (shown (status_byte b (flags r.p))) (flags-put_i true r.p)))
    where
      held : Regs
      held = record r { sp = (((r.sp + 255) % 256 + 255) % 256 + 255) % 256; p = set_flag fl_i r.p }

      still : laws.IsPlain (stacked v r s)
      still = stacked-IsPlain v r s hv valid.pc_word plain

      after_push : Unit {0} × Core bus.State → State bus.State
      after_push t =
          view_core
            (jump_vector bus vector
              (record t.1 { regs = record t.1.regs { p = set_flag fl_i t.1.regs.p } })).1

      jumped : ℕ × Core bus.State → State bus.State
      jumped t = view_core (record t.1 { regs = record t.1.regs { pc = t.0 } })

      shown : ℕ → Flags → State bus.State
      shown q f = record (view held (stacked q r s)) {
        pc = word_at (peek bus (stacked q r s)) vector;
        status = f;
      }
