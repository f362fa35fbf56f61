-- ===== src/Reference/Status.antt =====
-- The bytes that stand for the flags, pushed and pulled.
use sage_apple.Base.{
  ℕ, ◌<◌, ◌≡◌, refl, Bool, true, false, not, ◌&&◌, bit_or, ◌==◌, ==→eq, all_below, all_below_sound,
  and_left, and_right,
}
use sage_apple.Cpu.Regs.{fl_b, flag, clear_flag}
use sage_apple.Cpu.Status.{Flags, flags}
use sage_apple.Reference.State.{status_byte, flags_of}

brk_table : all_below 256 (λ p. bit_or (bit_or p 0x20) fl_b == status_byte 1 (flags p)) ≡ true
unfolding all_below flag
brk_table = refl

irq_table : all_below 256 (λ p. clear_flag fl_b (bit_or p 0x20) == status_byte 0 (flags p)) ≡ true
unfolding all_below flag clear_flag
irq_table = refl

-- PHP and BRK push the flags with bit 4, an interrupt pushes them without it.
pub pushed_brk : (p : ℕ) → p < 256 → bit_or (bit_or p 0x20) fl_b ≡ status_byte 1 (flags p)
pushed_brk p h = ==→eq _ _ (all_below_sound 256 _ p brk_table h)

pub pushed_irq : (p : ℕ) → p < 256 → clear_flag fl_b (bit_or p 0x20) ≡ status_byte 0 (flags p)
pushed_irq p h = ==→eq _ _ (all_below_sound 256 _ p irq_table h)

abbrev same : Bool → Bool → Bool
same true b = b
same false b = not b

same_sound : (a b : Bool) → same a b ≡ true → a ≡ b
same_sound true true h = refl
same_sound true false h = cc
same_sound false true h = cc
same_sound false false h = refl

abbrev same_from_z : Flags → Flags → Bool
same_from_z f g = same f.z g.z && same f.c g.c

abbrev same_from_d : Flags → Flags → Bool
same_from_d f g = same f.d g.d && (same f.i g.i && same_from_z f g)

abbrev same_flags : Flags → Flags → Bool
same_flags f g = same f.n g.n && (same f.v g.v && same_from_d f g)

same_flags_sound : (f g : Flags) → same_flags f g ≡ true → f ≡ g
same_flags_sound f g h = λ t. record {
  n = same_sound f.n g.n (and_left (same f.n g.n) _ h) t;
  v = same_sound f.v g.v (and_left (same f.v g.v) _ from_v) t;
  d = same_sound f.d g.d (and_left (same f.d g.d) _ from_d) t;
  i = same_sound f.i g.i (and_left (same f.i g.i) _ from_i) t;
  z = same_sound f.z g.z (and_left (same f.z g.z) _ from_z) t;
  c = same_sound f.c g.c (and_right (same f.z g.z) _ from_z) t;
}
  where
    from_v : (same f.v g.v && same_from_d f g) ≡ true
    from_v = and_right (same f.n g.n) _ h

    from_d : same_from_d f g ≡ true
    from_d = and_right (same f.v g.v) _ from_v

    from_i : (same f.i g.i && same_from_z f g) ≡ true
    from_i = and_right (same f.d g.d) _ from_d

    from_z : same_from_z f g ≡ true
    from_z = and_right (same f.i g.i) _ from_i

pull_table : all_below 256 (λ v. same_flags (flags (bit_or v 0x20)) (flags_of v)) ≡ true
unfolding all_below flag
pull_table = refl

-- PLP and RTI set the flags that the pulled byte stands for.
pub pulled_flags : (v : ℕ) → v < 256 → flags (bit_or v 0x20) ≡ flags_of v
pulled_flags v h = same_flags_sound _ _ (all_below_sound 256 _ v pull_table h)
