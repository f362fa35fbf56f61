-- ===== src/Reference/Stack.antt =====
-- The core's stack operations on plain memory, as changes of the stack pointer and the memory.
use sage_apple.Base.{
  ℕ, ◌+◌, ◌-◌, ◌*◌, ◌/◌, ◌%◌, ◌<◌, ◌≡◌, refl, ap, ◌∙◌, arith, bit_and, bit_and_0xff,
}
use sage_apple.Bus.{Bus, PlainLaws, peek}
use sage_apple.Cpu.Regs.{Regs}
use sage_apple.Cpu.Core.{
  Core, transformers, bus_read, bus_write, push, push16, pull, pull16, word, read_word,
}
use sage_apple.Cpu.Addressing.{word_bytes}
use sage_apple.Cpu.Stack.{stack_cell}

module _ (bus : Bus) where
  abbrev pub core : Regs → bus.State → Core bus.State
  core r s = record { regs = r; mem = s }

  -- the registers with the stack pointer moved by `n`, modulo 256
  abbrev pub moved : ℕ → Regs → Regs
  moved n r = record r { sp = (r.sp + n) % 256 }

  pub push_plain :
      (v : ℕ) (r : Regs) (s : bus.State)
      → r.sp < 256
      → push bus v (core r s) ≡ (tt, core (moved 255 r) (bus.write (256 + r.sp) v s))
  unfolding push bus_write transformers
  push_plain v r s h = rw (stack_cell r.sp h, bit_and_0xff, down) refl
    where
      down : (r.sp + 256 - 1) % 256 ≡ (r.sp + 255) % 256
      down = omega arith

  abbrev pub after_push16 : ℕ → Regs → bus.State → Core bus.State
  after_push16 w r s =
      core (moved 255 (moved 255 r))
        (bus.write (256 + (r.sp + 255) % 256) (w % 256) (bus.write (256 + r.sp) (w / 256) s))

  pub push16_plain :
      (w : ℕ) (r : Regs) (s : bus.State)
      → r.sp < 256
      → push16 bus w (core r s) ≡ (tt, after_push16 w r s)
  unfolding push16 transformers
  push16_plain w r s h =
      ap (λ (t : Unit {0} × Core bus.State). push bus (bit_and w 0xff) t.1)
        (push_plain (w / 256) r s h)
      ∙ (push_plain (bit_and w 0xff) (moved 255 r) (bus.write (256 + r.sp) (w / 256) s)
            (omega arith)
          ∙ rw bit_and_0xff refl)

  module _ (laws : PlainLaws bus) where
    pub reads : (addr : ℕ) (s : bus.State) → laws.IsPlain s → bus.read addr s ≡ (peek bus s addr, s)
    reads addr s h = ap (λ (t : bus.State). (peek bus s addr, t)) (laws.read_pure addr s h)

    -- the `k`th byte from the top of the stack
    abbrev pub cell : ℕ → Regs → bus.State → ℕ
    cell k r s = peek bus s (256 + (r.sp + k) % 256)

    pub pull_plain :
        (r : Regs) (s : bus.State)
        → r.sp < 256
        → laws.IsPlain s
        → pull bus (core r s) ≡ (cell 1 r s, core (moved 1 r) s)
    unfolding pull bus_read transformers
    pull_plain r s h plain =
        rw
          (
            bit_and_0xff,
            stack_cell ((r.sp + 1) % 256) (omega arith),
            reads (256 + (r.sp + 1) % 256) s plain,
          )
          refl

    pub pull16_plain :
        (r : Regs) (s : bus.State)
        → r.sp < 256
        → laws.IsPlain s
        → pull16 bus (core r s) ≡ (cell 1 r s + 256 * cell 2 r s, core (moved 2 r) s)
    unfolding pull16 transformers
    pull16_plain r s h plain =
        ap (λ (t : ℕ × Core bus.State). let (hi, c) = pull bus t.1 in (word hi t.0, c))
          (pull_plain r s h plain)
        ∙ (ap (λ (t : ℕ × Core bus.State). (word t.0 (cell 1 r s), t.1))
              (pull_plain (moved 1 r) s (omega arith) plain)
            ∙ rw
                (
                  second,
                  word_bytes (cell 2 r s) (cell 1 r s) (laws.peek-lt _ s plain)
                      (laws.peek-lt _ s plain),
                )
                refl)
      where
        second : ((r.sp + 1) % 256 + 1) % 256 ≡ (r.sp + 2) % 256
        second = omega arith

    pub read_word_plain :
        (lo hi : ℕ) (r : Regs) (s : bus.State)
        → laws.IsPlain s
        → read_word bus lo hi (core r s) ≡ (peek bus s lo + 256 * peek bus s hi, core r s)
    unfolding read_word bus_read transformers
    read_word_plain lo hi r s plain =
        rw
          (
            reads lo s plain,
            reads hi s plain,
            word_bytes (peek bus s hi) (peek bus s lo) (laws.peek-lt hi s plain)
                (laws.peek-lt lo s plain),
          )
          refl
