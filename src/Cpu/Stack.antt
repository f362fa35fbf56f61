-- ===== src/Cpu/Stack.antt =====
-- The stack over plain memory: what is pushed is pulled, a subroutine returns behind its call, and
-- an interrupt handler returns to the interrupted instruction with its flags.
use sage_apple.Base.{
  ℕ, ◌+◌, ◌-◌, ◌/◌, ◌%◌, ◌<◌, ◌≡◌, refl, ap, ◌∙◌, arith, bit_and, bit_or, bit_or_fields,
  bit_and_0xff, bit_and_0xffff, bit_or_bytes,
}
use sage_apple.Bus.{Bus, RamLaws}
use sage_apple.Cpu.Core.{
  Core, transformers, bus_read, bus_write, push, pull, push16, pull16, word, set_pc,
}
use sage_apple.Cpu.Exec.{op_with_addr, rts}

pub stack_cell : (sp : ℕ) → sp < 256 → bit_or 0x0100 sp ≡ 256 + sp
stack_cell sp h = bit_or_fields 8 1 sp h

pub join_bytes : (v : ℕ) → v < 65536 → word (v / 256) (v % 256) ≡ v
unfolding word
join_bytes v h = omega (arith, bit_or_bytes (v / 256) (v % 256) (omega arith))

module _ {bus : Bus} (ram : RamLaws bus) where
  open bus use {State}

  -- what is in a cell of the stack page
  abbrev pub cell : Core State → ℕ → ℕ
  cell c n = (bus.read (256 + n) c.mem).0

  pub push_lem :
      (v : ℕ) (c : Core State)
      → c.regs.sp < 256
      → (push bus v c).1 ≡ record {
        regs = record c.regs { sp = (c.regs.sp + 255) % 256 };
        mem = bus.write (256 + c.regs.sp) v c.mem;
      }
  unfolding push bus_write transformers
  push_lem v c h = rw (stack_cell c.regs.sp h, bit_and_0xff) (ground arith)

  pub pull_lem :
      (c : Core State)
      → c.regs.sp < 256
      → pull bus c ≡ (
        cell c ((c.regs.sp + 1) % 256),
        record c { regs = record c.regs { sp = (c.regs.sp + 1) % 256 } },
      )
  unfolding pull bus_read transformers
  pull_lem c h =
      rw
        (
          bit_and_0xff,
          stack_cell ((c.regs.sp + 1) % 256) (omega arith),
          ram.read_pure (256 + (c.regs.sp + 1) % 256) c.mem (omega arith),
        )
        refl

  -- the core with another stack pointer
  abbrev pub with_sp : Core State → ℕ → Core State
  with_sp c n = record c { regs = record c.regs { sp = n % 256 } }

  pub pull16_lem :
      (c : Core State)
      → c.regs.sp < 256
      → pull16 bus c ≡ (
        word (cell c ((c.regs.sp + 2) % 256)) (cell c ((c.regs.sp + 1) % 256)),
        with_sp c (c.regs.sp + 2),
      )
  unfolding pull16 transformers
  pull16_lem c h = rw (pull_lem c h, pull_lem (with_sp c (c.regs.sp + 1)) (omega arith), wrap) refl
    where
      wrap : ((c.regs.sp + 1) % 256 + 1) % 256 ≡ (c.regs.sp + 2) % 256
      wrap = omega arith

  -- The memory after a word was pushed with the stack pointer at `sp`.
  abbrev pub pushed16 : ℕ → ℕ → State → State
  pushed16 v sp s = bus.write (256 + (sp + 255) % 256) (v % 256) (bus.write (256 + sp) (v / 256) s)

  pub push16_lem :
      (v : ℕ) (c : Core State)
      → c.regs.sp < 256
      → (push16 bus v c).1 ≡ record {
        regs = record c.regs { sp = (c.regs.sp + 254) % 256 };
        mem = pushed16 v c.regs.sp c.mem;
      }
  unfolding push16 transformers
  push16_lem v c h =
      rw (push_lem (v / 256) c h, bit_and_0xff, push_lem (v % 256) after (omega arith), wrap) refl
    where
      after : Core State
      after = record {
        regs = record c.regs { sp = (c.regs.sp + 255) % 256 };
        mem = bus.write (256 + c.regs.sp) (v / 256) c.mem;
      }

      wrap : ((c.regs.sp + 255) % 256 + 255) % 256 ≡ (c.regs.sp + 254) % 256
      wrap = omega arith

  -- The two cells of a pushed word hold its bytes, also under a byte pushed later.
  pub pushed16_hi :
      (v sp : ℕ) (s : State)
      → sp < 256
      → ram.HasRam s
      → (bus.read (256 + sp) (pushed16 v sp s)).0 ≡ v / 256
  pushed16_hi v sp s h r =
      ram.read-write_ne (256 + (sp + 255) % 256) (256 + sp) (v % 256) _ (omega arith) (omega arith)
        (omega arith)
      ∙ ram.read-write_self (256 + sp) (v / 256) s r (omega arith)

  pub pushed16_lo :
      (v sp : ℕ) (s : State)
      → sp < 256
      → ram.HasRam s
      → (bus.read (256 + (sp + 255) % 256) (pushed16 v sp s)).0 ≡ v % 256
  pushed16_lo v sp s h r =
      ram.read-write_self (256 + (sp + 255) % 256) (v % 256) _ (ram.write-HasRam _ _ s r)
        (omega arith)

  -- The stack pages of two cores hold the same bytes.
  abbrev pub SameStack : Core State → Core State → Type 0
  SameStack c d = (n : ℕ) → n < 256 → cell c n ≡ cell d n

  -- On a bus with plain memory below $0400, a word that was pushed is pulled from any core that
  -- has the stack pointer and the stack page that the push left, and the stack pointer then is the
  -- one from before the push.
  pub pull16-push16 :
      (v : ℕ) (c d : Core State)
      → v < 65536
      → c.regs.sp < 256
      → ram.HasRam c.mem
      → d.regs.sp ≡ (push16 bus v c).1.regs.sp
      → SameStack d (push16 bus v c).1
      → pull16 bus d ≡ (v, record d { regs = record d.regs { sp = c.regs.sp } })
  pull16-push16 v c d hv hs hr e same =
      pull16_lem d (omega (arith, top)) ∙ rw (hi, lo, join_bytes v hv, back) refl
    where
      top : d.regs.sp ≡ (c.regs.sp + 254) % 256
      top = e ∙ ap (λ (k : Core State). k.regs.sp) (push16_lem v c hs)

      back : (d.regs.sp + 2) % 256 ≡ c.regs.sp
      back = omega (arith, top)

      next : (d.regs.sp + 1) % 256 ≡ (c.regs.sp + 255) % 256
      next = omega (arith, top)

      held : (n : ℕ) → n < 256 → cell d n ≡ (bus.read (256 + n) (pushed16 v c.regs.sp c.mem)).0
      held n h =
          same n h ∙ ap (λ (k : Core State). (bus.read (256 + n) k.mem).0) (push16_lem v c hs)

      hi : cell d ((d.regs.sp + 2) % 256) ≡ v / 256
      hi = rw back (held c.regs.sp hs ∙ pushed16_hi v c.regs.sp c.mem hs hr)

      lo : cell d ((d.regs.sp + 1) % 256) ≡ v % 256
      lo =
          rw next
            (held ((c.regs.sp + 255) % 256) (omega arith) ∙ pushed16_lo v c.regs.sp c.mem hs hr)

  -- On a bus with plain memory below $0400, JSR goes to its operand, and RTS from any core with
  -- the stack pointer and the stack page that JSR left restores the stack pointer and the program
  -- counter of before JSR, which is past the call's operand, and changes no other register.
  pub jsr-rts :
      (operand addr : ℕ) (c d : Core State)
      → c.regs.sp < 256
      → c.regs.pc < 65536
      → ram.HasRam c.mem
      → d.regs.sp ≡ (op_with_addr bus 44 operand addr c).1.regs.sp
      → SameStack d (op_with_addr bus 44 operand addr c).1
      → ((op_with_addr bus 44 operand addr c).1.regs.pc ≡ addr)
        × ((rts bus d).1 ≡ record d { regs = record d.regs { sp = c.regs.sp; pc = c.regs.pc } })
  unfolding op_with_addr rts set_pc transformers
  jsr-rts operand addr c d hs hp hr e same = (refl, rw (popped, back) refl)
    where
      ret_addr : ℕ
      ret_addr = bit_and (c.regs.pc + 65536 - 1) 0xffff

      popped : pull16 bus d ≡ (ret_addr, record d { regs = record d.regs { sp = c.regs.sp } })
      popped =
          pull16-push16 ret_addr c d (omega (arith, bit_and_0xffff (c.regs.pc + 65536 - 1))) hs hr e
            same

      back : bit_and (ret_addr + 1) 0xffff ≡ c.regs.pc
      back = omega (
        arith,
        bit_and_0xffff (c.regs.pc + 65536 - 1),
        bit_and_0xffff (bit_and (c.regs.pc + 65536 - 1) 0xffff + 1),
      )
