-- ===== src/Reference/Registers.antt =====
-- The core's operations on its registers, against the reference machine's.
use sage_apple.Base.{
  ◌▸◌, agreed, ℕ, ◌+◌, ◌-◌, ◌*◌, ◌/◌, ◌%◌, ◌<◌, ◌≡◌, refl, sym, ap, ◌∙◌, arith, Bool, true, false,
  not, bit_and, bit_or, leb, ltb, between, ◌==◌, u8, bit_and-two_pow, bit_and_mask, bit_or_fields,
  bit_or-zero, List, [], ◌∷◌, ap₂, all_below, all_below_sound, ==→eq, switch_agree,
}
use sage_apple.Cpu.Regs.{
  Regs, fl_n, fl_v, fl_z, fl_c, fl_d, flag, put_flag, to_ℕ, nz, upd_nz, load_a, load_x, load_y,
}
use sage_apple.Cpu.Alu.{top_bit, adc_binary, adc, sbc, compare, shift_result, shift_flags}
use sage_apple.Cpu.Exec.{bit_test}
use sage_apple.Cpu.Valid.{IsValid, shift_result-lt}
use sage_apple.Cpu.Status.{
  Flags, flags, flags-nz, flags-put_n, flags-put_v, flags-put_z, flags-put_c, top_bit_byte,
}
use sage_apple.Cpu.Arithmetic.{
  biased, adc_binary_case, sbc_binary_case, masked_sum, added, sbc_difference, compare_lem,
  carry-lt,
}
use sage_apple.Reference.State.{view}
use sage_apple.Reference.Values.{
  put_sum, with_nz, put_a, put_x, put_y, add, subtract, compare_with, test_bits, shifts, shifted,
  shift_status,
}

nz-byte : (v p : ℕ) → v < 256 → flags (nz v p) ≡ record (flags p) { n = leb 128 v; z = v == 0 }
nz-byte v p h =
    flags-nz v p ∙ ap (λ (b : Bool). record (flags p) { n = b; z = v == 0 }) (top_bit_byte v h)

bit_flags :
    (n v z : Bool) (p : ℕ)
    → flags (put_flag fl_v v (put_flag fl_n n (put_flag fl_z z p)))
      ≡ record (flags p) { n = n; v = v; z = z }
bit_flags n v z p = ground (
  arith,
  flags-put_v v (put_flag fl_n n (put_flag fl_z z p)),
  flags-put_n n (put_flag fl_z z p),
  flags-put_z z p,
)

shift_nz :
    (v : ℕ) (c : Bool) (p : ℕ)
    → v < 256
    → flags (nz v (put_flag fl_c c p)) ≡ record (flags p) { n = leb 128 v; z = v == 0; c = c }
shift_nz v c p h = ground (arith, nz-byte v (put_flag fl_c c p) h, flags-put_c c p)

low_bit : (v : ℕ) → not (bit_and v 0x01 == 0) ≡ (v % 2 == 1)
low_bit v = ground (arith, bit_and_mask 1 v)

rolled : (v : ℕ) (c : Bool) → v < 256 → u8 (bit_or (v * 2) (to_ℕ c)) ≡ v * 2 % 256 + to_ℕ c
rolled v c h = omega (arith, bit_or_fields 1 v (to_ℕ c) (carry-lt c), carry-lt c)

top_table : all_below 128 (λ v. bit_or v 128 == v + 128) ≡ true
unfolding all_below
top_table = refl

rotated : (v : ℕ) (c : Bool) → v < 128 → bit_or v (to_ℕ c * 128) ≡ v + 128 * to_ℕ c
rotated v true h = ==→eq _ _ (all_below_sound 128 _ v top_table h)
rotated v false h = omega (arith, bit_or-zero v)

abbrev core_shifts : ℕ → Bool → List (ℕ × (ℕ × Bool))
core_shifts v c =
    (31, (u8 (v * 2), top_bit v))
    ∷ (32, (v / 2, not (bit_and v 0x01 == 0)))
    ∷ (33, (u8 (bit_or (v * 2) (to_ℕ c)), top_bit v))
    ∷ (34, (bit_or (v / 2) (to_ℕ c * 128), not (bit_and v 0x01 == 0)))
    ∷ []

-- The results of the shifts, with their carries.
pub shift_result-shifted : (id v : ℕ) (c : Bool) → v < 256 → shift_result id v c ≡ shifted id v c
unfolding shift_result shifted
shift_result-shifted id v c h =
    switch_agree (◌≡◌) id (core_shifts v c) (shifts v c) (0, c) (0, c)
      ((ap₂ (λ (w : ℕ) (b : Bool). (w, b)) refl (top_bit_byte v h))
        ▸ (ap₂ (λ (w : ℕ) (b : Bool). (w, b)) refl (low_bit v))
        ▸ (ap₂ (λ (w : ℕ) (b : Bool). (w, b)) (rolled v c h) (top_bit_byte v h))
        ▸ (ap₂ (λ (w : ℕ) (b : Bool). (w, b)) (rotated (v / 2) c (omega arith)) (low_bit v))
        ▸ agreed)
      refl

module _ {S : Type 0} (s : S) where
  -- Registers that differ in the status byte alone.
  pub same_status :
      (r : Regs) (p : ℕ) (f : Flags)
      → flags p ≡ f
      → view (record r { p = p }) s ≡ record (view r s) { status = f }
  same_status r p f e = ap (λ (g : Flags). record (view r s) { status = g }) e

  pub upd_nz-with_nz : (v : ℕ) (r : Regs) → v < 256 → view (upd_nz v r) s ≡ with_nz v (view r s)
  unfolding upd_nz
  upd_nz-with_nz v r h = same_status r (nz v r.p) _ (nz-byte v r.p h)

  pub load_a-put_a : (v : ℕ) (r : Regs) → v < 256 → view (load_a v r) s ≡ put_a v (view r s)
  unfolding load_a
  load_a-put_a v r h = upd_nz-with_nz v (record r { a = v }) h

  pub load_x-put_x : (v : ℕ) (r : Regs) → v < 256 → view (load_x v r) s ≡ put_x v (view r s)
  unfolding load_x
  load_x-put_x v r h = upd_nz-with_nz v (record r { x = v }) h

  pub load_y-put_y : (v : ℕ) (r : Regs) → v < 256 → view (load_y v r) s ≡ put_y v (view r s)
  unfolding load_y
  load_y-put_y v r h = upd_nz-with_nz v (record r { y = v }) h

  pub compare-compare_with :
      (reg o : ℕ) (r : Regs)
      → reg < 256
      → o < 256
      → view (compare reg o r) s ≡ compare_with reg o (view r s)
  unfolding compare
  compare-compare_with reg o r hr ho = same_status r _ _ (compare_lem reg o r hr ho).0

  -- The binary sum of the core, by what its result and its flags are.
  sum_lem :
      (o carry a : ℕ) (v c : Bool) (r : Regs)
      → (adc_binary o carry r).a ≡ a
      → flags (adc_binary o carry r).p ≡ record (flags r.p) {
        n = leb 128 (adc_binary o carry r).a;
        v = v;
        z = (adc_binary o carry r).a == 0;
        c = c;
      }
      → view (adc_binary o carry r) s ≡ put_sum a c v (view r s)
  unfolding adc_binary
  sum_lem o carry a v c r ea ef = λ t. record (view r s) {
    a = ea t;
    status = (ef ∙ (λ u. record (flags r.p) { n = leb 128 (ea u); v = v; z = ea u == 0; c = c })) t;
  }

  pub adc-add :
      (o : ℕ) (r : Regs)
      → IsValid r
      → o < 256
      → flag fl_d r.p ≡ false
      → view (adc o r) s ≡ add o (view r s)
  unfolding adc_binary
  adc-add o r h ho e =
      ap (λ (q : Regs). view q s) (adc_binary_case o r e)
      ∙ sum_lem o (to_ℕ (flag fl_c r.p)) _ _ _ r (masked_sum _) (
          (added o r h ho).1
          ∙ ap
              (λ (b : Bool). record (flags r.p) {
                n = leb 128 (adc_binary o (to_ℕ (flag fl_c r.p)) r).a;
                v = not (between 128 383 (biased r.a + biased o + to_ℕ (flag fl_c r.p)));
                z = (adc_binary o (to_ℕ (flag fl_c r.p)) r).a == 0;
                c = b;
              })
              carried)
    where
      carried : ltb 0xff (r.a + o + to_ℕ (flag fl_c r.p)) ≡ leb 256 (r.a + o + to_ℕ (flag fl_c r.p))
      carried = ground arith

  pub sbc-subtract :
      (o : ℕ) (r : Regs)
      → IsValid r
      → o < 256
      → flag fl_d r.p ≡ false
      → view (sbc o r) s ≡ subtract o (view r s)
  unfolding adc_binary
  sbc-subtract o r h ho e =
      ap (λ (q : Regs). view q s) (sbc_binary_case o r ho e)
      ∙ sum_lem (255 - o) (to_ℕ (flag fl_c r.p)) _ _ _ r
          (masked_sum (r.a + (255 - o) + to_ℕ (flag fl_c r.p)) ∙ difference)
          (ap (λ (q : Regs). flags q.p) (sym (sbc_binary_case o r ho e))
            ∙ ((sbc_difference o r h ho e).1
                ∙ ap
                    (λ (a : ℕ). record (flags r.p) {
                      n = leb 128 a;
                      v =
                          not (
                            between 128 383 (biased r.a + (255 - biased o) + to_ℕ (flag fl_c r.p)));
                      z = a == 0;
                      c = leb (o + (1 - to_ℕ (flag fl_c r.p))) r.a;
                    })
                    (ap (λ (q : Regs). q.a) (sbc_binary_case o r ho e))))
    where
      difference :
          (r.a + (255 - o) + to_ℕ (flag fl_c r.p)) % 256
          ≡ (r.a + 256 - (o + (1 - to_ℕ (flag fl_c r.p)))) % 256
      difference = omega (arith, carry-lt (flag fl_c r.p))

  pub bit_test-test_bits :
      (o : ℕ) (r : Regs) → o < 256 → view (bit_test o r) s ≡ test_bits o (view r s)
  unfolding bit_test
  bit_test-test_bits o r ho = same_status r _ _ (
      bit_flags _ _ _ r.p
      ∙ (λ t. record (flags r.p) { n = top_bit_byte o ho t; v = sixth t; z = bit_and r.a o == 0 }))
    where
      sixth : not (bit_and o 0x40 == 0) ≡ (o / 64 % 2 == 1)
      sixth = ground (arith, bit_and-two_pow 6 o)

  pub shift_flags-shift_status :
      (id v : ℕ) (r : Regs)
      → v < 256
      → view (record r { p = shift_flags id v r.p }) s ≡ shift_status id v (view r s)
  unfolding shift_flags
  shift_flags-shift_status id v r h = same_status r _ _ (
      shift_nz _ _ r.p (shift_result-lt id v (flag fl_c r.p) h)
      ∙ ap (λ (t : ℕ × Bool). record (flags r.p) { n = leb 128 t.0; z = t.0 == 0; c = t.1 })
          (shift_result-shifted id v (flag fl_c r.p) h))
