-- ===== src/Led/Multi.antt =====
-- avr/led.c:120-185: the progress display of several LEDs, each lit by a clear bit of its
-- port.
use sage_apple.Base.{
  ℕ, zero, suc, ◌+◌, ◌<◌, ◌≤◌, ◌≡◌, refl, sym, ap, ◌∙◌, arith, Bool, true, false, not, ◌&&◌, get_or,
  bit_and, ltb, leb, ◌==◌, if◌then◌else◌, if_false, and_left, and_right, subst, ==→eq, ltb→lt,
  all_below, all_below_sound, Bool-cases, inl, inr,
}
use sage_apple.Led.State.{Led, off}
use sage_apple.Led.Driver.{pin_mask, write_port, led_write, visual_on, paint_from}

abbrev pub port_at : ℕ → Led → ℕ
port_at zero l = l.portb
port_at (suc i) l = l.portd

abbrev pub lit_at : ℕ → Led → Bool
lit_at i l = bit_and (port_at i l) (pin_mask i) == 0

abbrev pub HasBytePorts : Led → Type 0
HasBytePorts l = (l.portb < 256) × (l.portd < 256)

-- the lit half of the flash
abbrev pub flash_on : Led → Bool
flash_on l = not (bit_and l.flash_phase 1 == 0)

abbrev same : Bool → Bool → Bool
same true b = b
same false b = not b

same_sound : (a b : Bool) → same a b ≡ true → a ≡ b
same_sound true true h = refl
same_sound true false h = cc
same_sound false true h = cc
same_sound false false h = refl

-- A write to the bit of pin `i` sets whether it is clear, stays a byte, and leaves the bit of pin `j`.
abbrev written : Bool → ℕ → ℕ → ℕ → Bool
written on port i j =
    same (bit_and (write_port (pin_mask i) on port) (pin_mask j) == 0)
      (if i == j then on else (bit_and port (pin_mask j) == 0))
    && ltb (write_port (pin_mask i) on port) 256

abbrev all_written : Bool → Bool
all_written on = all_below 256 (λ port. all_below 4 (λ i. all_below 4 (λ j. written on port i j)))

on_table : all_written true ≡ true
unfolding all_below write_port pin_mask
on_table = refl

off_table : all_written false ≡ true
unfolding all_below write_port pin_mask
off_table = refl

written_sound : (on : Bool) (port i j : ℕ) → port < 256 → i < 4 → j < 4 → written on port i j ≡ true
written_sound true port i j hp hi hj =
    all_below_sound 4 (λ j. written true port i j) j
      (all_below_sound 4 (λ i. all_below 4 (λ j. written true port i j)) i
        (all_below_sound 256 _ port on_table hp) hi)
      hj
written_sound false port i j hp hi hj =
    all_below_sound 4 (λ j. written false port i j) j
      (all_below_sound 4 (λ i. all_below 4 (λ j. written false port i j)) i
        (all_below_sound 256 _ port off_table hp) hi)
      hj

write_port-bit :
    (on : Bool) (port i j : ℕ)
    → port < 256
    → i < 4
    → j < 4
    → (bit_and (write_port (pin_mask i) on port) (pin_mask j) == 0)
      ≡ (if i == j then on else (bit_and port (pin_mask j) == 0))
write_port-bit on port i j hp hi hj =
    same_sound _ _ (and_left _ _ (written_sound on port i j hp hi hj))

write_port-lt :
    (on : Bool) (port i : ℕ) → port < 256 → i < 4 → write_port (pin_mask i) on port < 256
write_port-lt on port i hp hi =
    ltb→lt (write_port (pin_mask i) on port) 256
      (and_right _ (ltb (write_port (pin_mask i) on port) 256) (written_sound on port i i hp hi hi))

led_write-later :
    (i : ℕ) (on : Bool) (l : Led)
    → led_write (suc i) on l ≡ record l { portd = write_port (pin_mask (suc i)) on l.portd }
unfolding led_write
led_write-later i on l = if_false (suc i == 0) _ _ (ground arith)

led_write-lit :
    (i j : ℕ) (on : Bool) (l : Led)
    → HasBytePorts l
    → i < 4
    → j < 4
    → lit_at j (led_write i on l) ≡ (if i == j then on else lit_at j l)
unfolding led_write
led_write-lit zero zero on l h hi hj = write_port-bit on l.portb 0 0 h.0 hi hj
led_write-lit zero (suc j) on l h hi hj = sym (if_false (0 == suc j) on _ (ground arith))
led_write-lit (suc i) zero on l h hi hj =
    ap (lit_at 0) (led_write-later i on l) ∙ sym (if_false (suc i == 0) on _ (ground arith))
led_write-lit (suc i) (suc j) on l h hi hj =
    ap (lit_at (suc j)) (led_write-later i on l)
    ∙ write_port-bit on l.portd (suc i) (suc j) h.1 hi hj

-- what a write of a port keeps
pub record Kept (l m : Led) : Type 0 where
  pub bytes : HasBytePorts m
  pub states : m.led_state ≡ l.led_state
  pub wired : m.led_n ≡ l.led_n
  pub phase : m.flash_phase ≡ l.flash_phase

led_write-Kept : (i : ℕ) (on : Bool) (l : Led) → HasBytePorts l → i < 4 → Kept l (led_write i on l)
unfolding led_write
led_write-Kept zero on l h hi = record {
  bytes = (write_port-lt on l.portb 0 h.0 hi, h.1);
  states = refl;
  wired = refl;
  phase = refl;
}
led_write-Kept (suc i) on l h hi = subst (Kept l) (sym (led_write-later i on l)) (record {
  bytes = (h.0, write_port-lt on l.portd (suc i) h.1 hi);
  states = refl;
  wired = refl;
  phase = refl;
})

pub paint_from-Kept : (n i : ℕ) (l : Led) → HasBytePorts l → i + n ≤ 4 → Kept l (paint_from n i l)
unfolding paint_from
paint_from-Kept zero i l h le = record { bytes = h; states = refl; wired = refl; phase = refl }
paint_from-Kept (suc n) i l h le =
    let k =
      led_write-Kept i (visual_on (get_or l.led_state i off) (flash_on l)) l h (omega arith) in
    let rest = paint_from-Kept n (i + 1) _ k.bytes (omega arith) in
    record {
      bytes = rest.bytes;
      states = rest.states ∙ k.states;
      wired = rest.wired ∙ k.wired;
      phase = rest.phase ∙ k.phase;
    }

-- whether stage `j` of the display is lit
abbrev pub shown : ℕ → Led → Bool
shown j l = visual_on (get_or l.led_state j off) (flash_on l)

shown-Kept : (j : ℕ) {l m : Led} → Kept l m → shown j m ≡ shown j l
shown-Kept j k = rw (k.states, k.phase) refl

-- One round at `i` and the rounds from `i + 1` on.
first_round :
    (n i j : ℕ) (on : ℕ → Bool) (b : Bool)
    → (if leb (i + 1) j && ltb j (i + 1 + n) then on j else if i == j then on i else b)
      ≡ (if leb i j && ltb j (i + suc n) then on j else b)
first_round n i j on b = elim (Bool-cases (i == j)) [
  | inl h ↦ ground (arith, ap on (==→eq i j h))
  | inr h ↦ ground arith
]

-- The loop lights the LEDs from `i` on by their states, and leaves the others.
pub paint_from-lit :
    (n i j : ℕ) (l : Led)
    → HasBytePorts l
    → i + n ≤ 4
    → j < 4
    → lit_at j (paint_from n i l) ≡ (if leb i j && ltb j (i + n) then shown j l else lit_at j l)
unfolding paint_from
paint_from-lit zero i j l h le hj = ground arith
paint_from-lit (suc n) i j l h le hj =
    let k = led_write-Kept i (shown i l) l h (omega arith) in
    paint_from-lit n (i + 1) j (led_write i (shown i l) l) k.bytes (omega arith) hj
    ∙ rw (shown-Kept j k, led_write-lit i j (shown i l) l h (omega arith) hj)
        (first_round n i j (λ i. shown i l) (lit_at j l))
