-- ===== src/Cpu/Status.antt =====
-- The status byte as independent flags: what each update leaves of each flag.
use sage_apple.Base.{
  ℕ, zero, suc, ◌-◌, ◌/◌, ◌^◌, ◌<◌, ◌≡◌, refl, arith, Bool, true, false, bit_and, bit_or, ◌==◌,
  ==→eq, leb, if◌then◌else◌, bit, bit_and-two_pow, bit_and-bit, bit_or-bit, all_below,
  all_below_sound, bit_and_0x80,
}
use sage_apple.Cpu.Regs.{
  fl_n, fl_v, fl_d, fl_i, fl_z, fl_c, set_flag, clear_flag, put_flag, flag, nz,
}
use sage_apple.Cpu.Alu.{top_bit}

bit-lt : (k a : ℕ) → bit k a < 2
bit-lt zero a = omega arith
bit-lt (suc k) a = bit-lt k (a / 2)

-- A flag is a bit.
flag-bit : (k p : ℕ) → 0 < 2 ^ k → flag (2 ^ k) p ≡ (bit k p == 1)
unfolding flag
flag-bit k p h = ground (arith, bit_and-two_pow k p, bit-lt k p)

-- The masks of the eight bits and their complements, bit by bit.
mask_table : all_below 8 (λ k. all_below 8 (λ j. bit k (2 ^ j) == (if k == j then 1 else 0))) ≡ true
unfolding all_below
mask_table = refl

rest_table :
    all_below 8 (λ k. all_below 8 (λ j. bit k (0xff - 2 ^ j) == (if k == j then 0 else 1))) ≡ true
unfolding all_below
rest_table = refl

bit-mask : (k j : ℕ) → k < 8 → j < 8 → bit k (2 ^ j) ≡ (if k == j then 1 else 0)
bit-mask k j hk hj = ==→eq _ _ (all_below_sound 8 _ j (all_below_sound 8 _ k mask_table hk) hj)

bit-rest : (k j : ℕ) → k < 8 → j < 8 → bit k (0xff - 2 ^ j) ≡ (if k == j then 0 else 1)
bit-rest k j hk hj = ==→eq _ _ (all_below_sound 8 _ j (all_below_sound 8 _ k rest_table hk) hj)

-- Writing bit `j` of the status byte writes that flag and no other.
pub flag-put :
    (k j : ℕ) (b : Bool) (p : ℕ)
    → k < 8
    → j < 8
    → 0 < 2 ^ k
    → flag (2 ^ k) (put_flag (2 ^ j) b p) ≡ (if k == j then b else flag (2 ^ k) p)
unfolding put_flag set_flag clear_flag
flag-put k j true p hk hj h = ground (
  arith,
  flag-bit k p h,
  flag-bit k (bit_or p (2 ^ j)) h,
  bit_or-bit k p (2 ^ j),
  bit-mask k j hk hj,
  bit-lt k p,
)
flag-put k j false p hk hj h = ground (
  arith,
  flag-bit k p h,
  flag-bit k (bit_and p (0xff - 2 ^ j)) h,
  bit_and-bit k p (0xff - 2 ^ j),
  bit-rest k j hk hj,
  bit-lt k p,
)

-- What software sees of the status byte.
pub record Flags : Type 0 where
  pub n : Bool
  pub v : Bool
  pub d : Bool
  pub i : Bool
  pub z : Bool
  pub c : Bool

abbrev pub flags : ℕ → Flags
flags p = record {
  n = flag fl_n p;
  v = flag fl_v p;
  d = flag fl_d p;
  i = flag fl_i p;
  z = flag fl_z p;
  c = flag fl_c p;
}

-- The flags of a byte whose bit `j` was written, `j` being given by `h`.
flags_put :
    (j : ℕ) (b : Bool) (p : ℕ)
    → j < 8
    → flags (put_flag (2 ^ j) b p) ≡ record {
      n = if 7 == j then b else flag fl_n p;
      v = if 6 == j then b else flag fl_v p;
      d = if 3 == j then b else flag fl_d p;
      i = if 2 == j then b else flag fl_i p;
      z = if 1 == j then b else flag fl_z p;
      c = if 0 == j then b else flag fl_c p;
    }
flags_put j b p h = λ t. record {
  n = flag-put 7 j b p (omega arith) h (omega arith) t;
  v = flag-put 6 j b p (omega arith) h (omega arith) t;
  d = flag-put 3 j b p (omega arith) h (omega arith) t;
  i = flag-put 2 j b p (omega arith) h (omega arith) t;
  z = flag-put 1 j b p (omega arith) h (omega arith) t;
  c = flag-put 0 j b p (omega arith) h (omega arith) t;
}

pub flags-put_n : (b : Bool) (p : ℕ) → flags (put_flag fl_n b p) ≡ record (flags p) { n = b }
flags-put_n b p = flags_put 7 b p (omega arith)

pub flags-put_v : (b : Bool) (p : ℕ) → flags (put_flag fl_v b p) ≡ record (flags p) { v = b }
flags-put_v b p = flags_put 6 b p (omega arith)

pub flags-put_d : (b : Bool) (p : ℕ) → flags (put_flag fl_d b p) ≡ record (flags p) { d = b }
flags-put_d b p = flags_put 3 b p (omega arith)

pub flags-put_i : (b : Bool) (p : ℕ) → flags (put_flag fl_i b p) ≡ record (flags p) { i = b }
flags-put_i b p = flags_put 2 b p (omega arith)

pub flags-put_z : (b : Bool) (p : ℕ) → flags (put_flag fl_z b p) ≡ record (flags p) { z = b }
flags-put_z b p = flags_put 1 b p (omega arith)

pub flags-put_c : (b : Bool) (p : ℕ) → flags (put_flag fl_c b p) ≡ record (flags p) { c = b }
flags-put_c b p = flags_put 0 b p (omega arith)

pub flags-nz : (v p : ℕ) → flags (nz v p) ≡ record (flags p) { n = top_bit v; z = v == 0 }
unfolding nz top_bit
flags-nz v p =
    ground (arith, flags-put_z (v == 0) (put_flag fl_n (top_bit v) p), flags-put_n (top_bit v) p)

-- Bit 7 of a byte.
pub top_bit_byte : (v : ℕ) → v < 256 → top_bit v ≡ leb 128 v
unfolding top_bit
top_bit_byte v h = ground (arith, bit_and_0x80 v)
