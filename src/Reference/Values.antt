-- ===== src/Reference/Values.antt =====
-- The reference operations on a value: loads, arithmetic, logic, comparisons and shifts.
use sage_apple.Base.{
  ℕ, List, [], ◌∷◌, switch, ◌+◌, ◌-◌, ◌*◌, ◌/◌, ◌%◌, Bool, not, bit_and, leb, between, ◌==◌,
}
use sage_apple.Cpu.Regs.{to_ℕ}
use sage_apple.Cpu.Arithmetic.{biased}
use sage_apple.Reference.State.{State}

module _ {S : Type 0} where
  -- N and Z for a result
  abbrev pub with_nz : ℕ → State S → State S
  with_nz v s = record s { status = record s.status { n = leb 128 v; z = v == 0 } }

  abbrev pub put_a : ℕ → State S → State S
  put_a v s = with_nz v (record s { a = v })

  abbrev pub put_x : ℕ → State S → State S
  put_x v s = with_nz v (record s { x = v })

  abbrev pub put_y : ℕ → State S → State S
  put_y v s = with_nz v (record s { y = v })

  -- The accumulator becomes `a`, with this carry and overflow.
  abbrev pub put_sum : ℕ → Bool → Bool → State S → State S
  put_sum a c v s = record s {
    a = a;
    status = record s.status { n = leb 128 a; v = v; z = a == 0; c = c };
  }

  abbrev pub add : ℕ → State S → State S
  add o s =
      let sum = s.a + o + to_ℕ s.status.c in
      let signed = biased s.a + biased o + to_ℕ s.status.c in
      put_sum (sum % 256) (leb 256 sum) (not (between 128 383 signed)) s

  abbrev pub subtract : ℕ → State S → State S
  subtract o s =
      let owed = o + (1 - to_ℕ s.status.c) in
      let signed = biased s.a + (255 - biased o) + to_ℕ s.status.c in
      put_sum ((s.a + 256 - owed) % 256) (leb owed s.a) (not (between 128 383 signed)) s

  abbrev pub compare_with : ℕ → ℕ → State S → State S
  compare_with reg o s = record s {
    status = record s.status { n = leb 128 ((reg + 256 - o) % 256); z = reg == o; c = leb o reg };
  }

  abbrev pub test_bits : ℕ → State S → State S
  test_bits o s = record s {
    status = record s.status { n = leb 128 o; v = o / 64 % 2 == 1; z = bit_and s.a o == 0 };
  }

-- The shifts by their numbers, ASL, LSR, ROL and ROR: the result for the carry `c`, and the carry
-- that is shifted out.
abbrev pub shifts : ℕ → Bool → List (ℕ × (ℕ × Bool))
shifts v c =
    (31, (v * 2 % 256, leb 128 v))
    ∷ (32, (v / 2, v % 2 == 1))
    ∷ (33, (v * 2 % 256 + to_ℕ c, leb 128 v))
    ∷ (34, (v / 2 + 128 * to_ℕ c, v % 2 == 1))
    ∷ []

unfoldable pub shifted : ℕ → ℕ → Bool → ℕ × Bool
shifted id v c = switch id (shifts v c) (0, c)

-- N, Z and C after a shift
abbrev pub shift_status : {S : Type 0} → ℕ → ℕ → State S → State S
shift_status id v s =
    let (w, c) = shifted id v s.status.c in
    record s { status = record s.status { n = leb 128 w; z = w == 0; c = c } }
