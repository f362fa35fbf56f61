-- ===== src/Cpu/Regs.antt =====
-- avr/sage6502.c:20-66: the addressing modes, the registers and the status flags.
use sage_apple.Base.{ℕ, ◌-◌, Bool, true, false, bit_and, bit_or, ◌==◌, if◌then◌else◌}

abbrev pub m_imm : ℕ
m_imm = 0

abbrev pub m_zp : ℕ
m_zp = 1

abbrev pub m_zpx : ℕ
m_zpx = 2

abbrev pub m_zpy : ℕ
m_zpy = 3

abbrev pub m_abs : ℕ
m_abs = 4

abbrev pub m_absx : ℕ
m_absx = 5

abbrev pub m_absy : ℕ
m_absy = 6

abbrev pub m_indx : ℕ
m_indx = 7

abbrev pub m_indy : ℕ
m_indy = 8

abbrev pub m_acc : ℕ
m_acc = 9

abbrev pub m_ind : ℕ
m_ind = 10

abbrev pub m_rel : ℕ
m_rel = 11

abbrev pub m_imp : ℕ
m_imp = 12

-- `rA rX rY rSP rP` are `uint8_t`, `rPC` is `uint16_t`; `fetch_crossed` only ever is 0 or 1.
pub record Regs : Type 0 where
  pub a : ℕ
  pub x : ℕ
  pub y : ℕ
  pub sp : ℕ
  pub pc : ℕ
  pub p : ℕ
  pub fetch_crossed : Bool

abbrev pub fl_n : ℕ
fl_n = 0x80

abbrev pub fl_v : ℕ
fl_v = 0x40

abbrev pub fl_b : ℕ
fl_b = 0x10

abbrev pub fl_d : ℕ
fl_d = 0x08

abbrev pub fl_i : ℕ
fl_i = 0x04

abbrev pub fl_z : ℕ
fl_z = 0x02

abbrev pub fl_c : ℕ
fl_c = 0x01

-- `rP |= f` and `rP &= ~f`, on the byte.
unfoldable pub set_flag : ℕ → ℕ → ℕ
set_flag f p = bit_or p f

unfoldable pub clear_flag : ℕ → ℕ → ℕ
clear_flag f p = bit_and p (0xff - f)

-- `if (b) rP |= f; else rP &= ~f;`
unfoldable pub put_flag : ℕ → Bool → ℕ → ℕ
put_flag f b p = if b then set_flag f p else clear_flag f p

-- `(rP & f) ? 1 : 0`, the body of F_N, F_V, F_I, F_Z and F_C.
unfoldable pub flag : ℕ → ℕ → Bool
flag f p = if bit_and p f == 0 then false else true

abbrev pub to_ℕ : Bool → ℕ
to_ℕ false = 0
to_ℕ true = 1

-- `upd_nz` on the status byte
unfoldable pub nz : ℕ → ℕ → ℕ
nz v p = put_flag fl_z (v == 0) (put_flag fl_n (if bit_and v 0x80 == 0 then false else true) p)

unfoldable pub upd_nz : ℕ → Regs → Regs
unfolding nz
upd_nz v r = record r { p = nz v r.p }

-- `x = v; upd_nz(x)` for each register
unfoldable pub load_a : ℕ → Regs → Regs
unfolding upd_nz
load_a v r = upd_nz v (record r { a = v })

unfoldable pub load_x : ℕ → Regs → Regs
unfolding upd_nz
load_x v r = upd_nz v (record r { x = v })

unfoldable pub load_y : ℕ → Regs → Regs
unfolding upd_nz
load_y v r = upd_nz v (record r { y = v })
