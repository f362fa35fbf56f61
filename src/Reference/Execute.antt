-- ===== src/Reference/Execute.antt =====
-- The reference machine's instructions: the stack, the operations by their numbers, and one step.
use sage_apple.Base.{
  ℕ, ◌+◌, ◌*◌, ◌/◌, ◌%◌, Bool, true, false, not, ◌&&◌, ◌||◌, List, [], ◌∷◌, bit_and, bit_or,
  bit_xor, between, leb, ◌==◌, if◌then◌else◌, switch,
}
use sage_apple.Bus.{Bus, peek}
use sage_apple.Cpu.Regs.{Regs, m_imm, m_acc, m_rel, m_imp}
use sage_apple.Cpu.Status.{Flags}
use sage_apple.Cpu.Operands.{Operand, word_at, operand}
use sage_apple.Cpu.Branches.{displaced}
use sage_apple.Reference.State.{State, status_byte, flags_of}
use sage_apple.Reference.Values.{
  with_nz, put_a, put_x, put_y, add, subtract, compare_with, test_bits, shifted, shift_status,
}

-- the registers that an operand's address depends on
abbrev pub index_regs : {S : Type 0} → State S → Regs
index_regs s = record {
  a = s.a;
  x = s.x;
  y = s.y;
  sp = s.sp;
  pc = s.pc;
  p = 0;
  fetch_crossed = false;
}

-- the branches by their numbers
abbrev pub branches : Flags → List (ℕ × Bool)
branches f =
    (35, not f.c)
    ∷ (36, f.c)
    ∷ (37, f.z)
    ∷ (38, f.n)
    ∷ (39, not f.z)
    ∷ (40, not f.n)
    ∷ (41, not f.v)
    ∷ (42, f.v)
    ∷ []

-- whether an operation takes another cycle when its index crosses a page
abbrev pub pays : ℕ → Bool
pays id = leb id 2 || between 16 20 id || id == 22

module _ (bus : Bus) where
  abbrev pub Memory : Type 0
  Memory = State bus.State

  abbrev pub store : ℕ → ℕ → Memory → Memory
  store addr v s = record s { mem = bus.write addr v s.mem }

  abbrev pub to_pc : ℕ → Memory → Memory
  to_pc pc s = record s { pc = pc }

  -- a byte pushed on the stack page, and a word, high byte first
  abbrev pub pushed : ℕ → Memory → Memory
  pushed v s = record s { sp = (s.sp + 255) % 256; mem = bus.write (256 + s.sp) v s.mem }

  abbrev pub pushed_word : ℕ → Memory → Memory
  pushed_word w s = pushed (w % 256) (pushed (w / 256) s)

  -- the `k`th byte from the top, and the stack without its `k` top bytes
  abbrev pub top : ℕ → Memory → ℕ
  top k s = peek bus s.mem (256 + (s.sp + k) % 256)

  abbrev pub popped : ℕ → Memory → Memory
  popped k s = record s { sp = (s.sp + k) % 256 }

  -- the operations on a value
  abbrev pub immediates : ℕ → Memory → List (ℕ × Memory)
  immediates o s =
      (0, put_a o s)
      ∷ (1, put_x o s)
      ∷ (2, put_y o s)
      ∷ (16, add o s)
      ∷ (17, subtract o s)
      ∷ (18, put_a (bit_and s.a o) s)
      ∷ (19, put_a (bit_or s.a o) s)
      ∷ (20, put_a (bit_xor s.a o) s)
      ∷ (22, compare_with s.a o s)
      ∷ (23, compare_with s.x o s)
      ∷ (24, compare_with s.y o s)
      ∷ []

  abbrev pub store_shift : ℕ → ℕ → ℕ → Memory → Memory
  store_shift id o addr s = store addr (shifted id o s.status.c).0 (shift_status id o s)

  -- the operations on the memory cell `addr`, which holds `o`
  abbrev pub addressed : ℕ → ℕ → Memory → List (ℕ × Memory)
  addressed o addr s =
      (0, put_a o s)
      ∷ (1, put_x o s)
      ∷ (2, put_y o s)
      ∷ (3, store addr s.a s)
      ∷ (4, store addr s.x s)
      ∷ (5, store addr s.y s)
      ∷ (16, add o s)
      ∷ (17, subtract o s)
      ∷ (18, put_a (bit_and s.a o) s)
      ∷ (19, put_a (bit_or s.a o) s)
      ∷ (20, put_a (bit_xor s.a o) s)
      ∷ (21, test_bits o s)
      ∷ (22, compare_with s.a o s)
      ∷ (23, compare_with s.x o s)
      ∷ (24, compare_with s.y o s)
      ∷ (25, with_nz ((o + 1) % 256) (store addr ((o + 1) % 256) s))
      ∷ (26, with_nz ((o + 255) % 256) (store addr ((o + 255) % 256) s))
      ∷ (31, store_shift 31 o addr s)
      ∷ (32, store_shift 32 o addr s)
      ∷ (33, store_shift 33 o addr s)
      ∷ (34, store_shift 34 o addr s)
      ∷ (43, to_pc addr s)
      ∷ (44, to_pc addr (pushed_word ((s.pc + 65535) % 65536) s))
      ∷ []

  abbrev pub with_status : Flags → Memory → Memory
  with_status f s = record s { status = f }

  -- the entry into a handler, with bit 4 of the pushed status byte
  abbrev pub entered : ℕ → ℕ → Memory → Memory
  entered b vector s =
      let t = pushed (status_byte b s.status) (pushed_word s.pc s) in
      record t { status = record t.status { i = true }; pc = word_at (peek bus t.mem) vector }

  -- the operations without an operand
  abbrev pub implieds : Memory → List (ℕ × Memory)
  implieds s =
      (6, put_x s.a s)
      ∷ (7, put_a s.x s)
      ∷ (8, put_y s.a s)
      ∷ (9, put_a s.y s)
      ∷ (10, put_x s.sp s)
      ∷ (11, record s { sp = s.x })
      ∷ (12, pushed s.a s)
      ∷ (13, pushed (status_byte 1 s.status) s)
      ∷ (14, put_a (top 1 s) (popped 1 s))
      ∷ (15, with_status (flags_of (top 1 s)) (popped 1 s))
      ∷ (27, put_x ((s.x + 1) % 256) s)
      ∷ (28, put_y ((s.y + 1) % 256) s)
      ∷ (29, put_x ((s.x + 255) % 256) s)
      ∷ (30, put_y ((s.y + 255) % 256) s)
      ∷ (45, to_pc ((top 1 s + 256 * top 2 s + 1) % 65536) (popped 2 s))
      ∷ (46, entered 1 0xfffe (to_pc ((s.pc + 1) % 65536) s))
      ∷ (47, to_pc (top 2 s + 256 * top 3 s) (with_status (flags_of (top 1 s)) (popped 3 s)))
      ∷ (49, with_status (record s.status { c = false }) s)
      ∷ (50, with_status (record s.status { d = false }) s)
      ∷ (51, with_status (record s.status { i = false }) s)
      ∷ (52, with_status (record s.status { v = false }) s)
      ∷ (53, with_status (record s.status { c = true }) s)
      ∷ (54, with_status (record s.status { d = true }) s)
      ∷ (55, with_status (record s.status { i = true }) s)
      ∷ []

  -- A branch whose offset is at the program counter, with the cycles that it adds.
  abbrev pub branched : Bool → Memory → Memory × ℕ
  branched jumps s =
      let next = (s.pc + 1) % 65536 in
      let target = displaced next (peek bus s.mem s.pc) in
      if jumps
      then (to_pc target s, if target / 256 == next / 256 then 1 else 2)
      else (to_pc next s, 0)

  -- an operation on memory, with the cycles that it adds
  abbrev pub on_memory : ℕ → Operand → Memory → Memory × ℕ
  on_memory id o s =
      let t = to_pc ((s.pc + o.bytes) % 65536) s in
      (
        if id == 3 || id == 4 || id == 5
            then store o.address (if id == 3 then s.a else if id == 4 then s.x else s.y) t
            else switch id (addressed (peek bus s.mem o.address) o.address t) t,
        if o.crossed && pays id then 1 else 0,
      )

  -- The operation `id` in a mode, with the program counter behind the opcode, and its added cycles.
  unfoldable pub operate : ℕ → ℕ → Memory → Memory × ℕ
  unfolding switch
  operate id mode s =
      let t = to_pc ((s.pc + 1) % 65536) s in
      if mode == m_imm
      then (switch id (immediates (peek bus s.mem s.pc) t) t, 0)
      else if mode == m_acc
      then (record (shift_status id s.a s) { a = (shifted id s.a s.status.c).0 }, 0)
      else if mode == m_rel
      then branched (switch id (branches s.status) false) s
      else if mode == m_imp
      then (switch id (implieds s) s, 0)
      else on_memory id (operand (peek bus s.mem) mode (index_regs s)) s
