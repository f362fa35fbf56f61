-- ===== src/Cpu/Simulation/Access.antt =====
-- avr/sage6502.c:155-244 on two buses: the stack helpers and `fetch` do the same on both.
use sage_apple.Base.{◌▸◌, agreed, ℕ, ◌+◌, ◌/◌, bit_and, List, switch, switch_agree, Agree}
use sage_apple.Bus.{Bus}
use sage_apple.Cpu.Core.{
  M, ◌>>=◌, ret, advance, push, pull, push16, pull16, next_byte, next_word, read_word, indexed,
  fetch,
}
use sage_apple.Cpu.Simulation.{
  Simulation, Similar, Similar-bind, Similar-seq, Similar-ret, Similar-regs, Similar-modify,
  Similar-read, Similar-write,
}

module _ {a b : Bus} (sim : Simulation a b) where
  pub Similar-switch :
      {A : Type 0} (id : ℕ) (cs : List (ℕ × M a.State A)) (ds : List (ℕ × M b.State A))
      {m : M a.State A} {n : M b.State A}
      → Agree (Similar sim) cs ds
      → Similar sim m n
      → Similar sim (switch id cs m) (switch id ds n)
  Similar-switch id cs ds {m} {n} h last = switch_agree (Similar sim) id cs ds m n h last

  pub push-Similar : (v : ℕ) → Similar sim (push a v) (push b v)
  unfolding push
  push-Similar v =
      Similar-bind sim (Similar-regs sim)
        λ r. Similar-seq sim (Similar-write sim _ v) (Similar-modify sim _)

  pub pull-Similar : Similar sim (pull a) (pull b)
  unfolding pull
  pull-Similar =
      Similar-seq sim (Similar-modify sim _)
        (Similar-bind sim (Similar-regs sim) λ r. Similar-read sim _)

  pub push16-Similar : (v : ℕ) → Similar sim (push16 a v) (push16 b v)
  unfolding push16
  push16-Similar v = Similar-seq sim (push-Similar (v / 256)) (push-Similar (bit_and v 0xff))

  pub pull16-Similar : Similar sim (pull16 a) (pull16 b)
  unfolding pull16
  pull16-Similar =
      Similar-bind sim pull-Similar λ lo. Similar-bind sim pull-Similar λ hi. Similar-ret sim _

  pub next_byte-Similar : Similar sim (next_byte a) (next_byte b)
  unfolding next_byte
  next_byte-Similar = Similar-bind sim (Similar-regs sim) λ r.
      Similar-bind sim (Similar-read sim r.pc)
        λ v. Similar-seq sim (Similar-modify sim (advance 1)) (Similar-ret sim v)

  next_word-Similar : Similar sim (next_word a) (next_word b)
  unfolding next_word
  next_word-Similar = Similar-bind sim (Similar-regs sim) λ r.
      Similar-bind sim (Similar-read sim r.pc) λ lo.
        Similar-bind sim (Similar-read sim _)
          λ hi. Similar-seq sim (Similar-modify sim (advance 2)) (Similar-ret sim _)

  pub read_word-Similar : (lo hi : ℕ) → Similar sim (read_word a lo hi) (read_word b lo hi)
  unfolding read_word
  read_word-Similar lo hi =
      Similar-bind sim (Similar-read sim lo)
        λ l. Similar-bind sim (Similar-read sim hi) λ h. Similar-ret sim _

  indexed-Similar : (base index : ℕ) → Similar sim (indexed a base index) (indexed b base index)
  unfolding indexed
  indexed-Similar base index = Similar-seq sim (Similar-modify sim _) (Similar-ret sim _)

  zero_page-Similar :
      (index : ℕ)
      → Similar sim
          (next_byte a >>= (λ zp. ret (bit_and (zp + index) 0xff)))
          (next_byte b >>= (λ zp. ret (bit_and (zp + index) 0xff)))
  zero_page-Similar index = Similar-bind sim next_byte-Similar λ zp. Similar-ret sim _

  absolute-Similar :
      (index : ℕ)
      → Similar sim
          (next_word a >>= (λ base. indexed a base index))
          (next_word b >>= (λ base. indexed b base index))
  absolute-Similar index = Similar-bind sim next_word-Similar λ base. indexed-Similar base index

  pub fetch-Similar : (mode : ℕ) → Similar sim (fetch a mode) (fetch b mode)
  unfolding fetch
  fetch-Similar mode = Similar-seq sim (Similar-modify sim _) (
      Similar-bind sim (Similar-regs sim) λ r.
        Similar-switch mode _ _
          (next_byte-Similar
            ▸ zero_page-Similar r.x
            ▸ zero_page-Similar r.y
            ▸ next_word-Similar
            ▸ absolute-Similar r.x
            ▸ absolute-Similar r.y
            ▸ (Similar-bind sim next_byte-Similar λ zp. read_word-Similar _ _)
            ▸ (Similar-bind sim next_byte-Similar
                λ zp. Similar-bind sim (read_word-Similar _ _) λ base. indexed-Similar base r.y)
            ▸ (Similar-bind sim next_word-Similar λ ptr. read_word-Similar _ _)
            ▸ agreed)
          (Similar-ret sim 0))
