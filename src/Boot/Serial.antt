-- ===== src/Boot/Serial.antt =====
-- avr/main.c:18-27: the serial port behind the boot sequence.
use sage_apple.Base.{
  ℕ, zero, suc, ◌/◌, ◌^◌, ◌<◌, ◌≡◌, refl, ap, ◌∙◌, arith, true, ◌||◌, ◌==◌, if◌then◌else◌, bit,
  bit_or, bit_or-bit, bit_or-lt, u8, ltb, ltb→lt, all_below, all_below_sound,
}
use native.Mathlib.Nat.{pow-suc}
use sage_apple.Bus.{Bus}
use sage_apple.Boot.{Firmware, Setup, uart_init, boot}

bit-zero : (k : ℕ) → bit k 0 ≡ 0
bit-zero zero = refl
bit-zero (suc k) = bit-zero k

bit-two_pow : (k i : ℕ) → bit k (2 ^ i) ≡ (if k == i then 1 else 0)
bit-two_pow zero zero = refl
bit-two_pow zero (suc i) = ground (arith, pow-suc 2 i)
bit-two_pow (suc k) zero = bit-zero k ∙ nothing
  where
    nothing : Path {0} ℕ 0 (if suc k == 0 then 1 else 0)
    nothing = ground arith
bit-two_pow (suc k) (suc i) = ap (bit k) halved ∙ (bit-two_pow k i ∙ same)
  where
    halved : 2 ^ suc i / 2 ≡ 2 ^ i
    halved = omega (arith, pow-suc 2 i)

    same : Path {0} ℕ (if k == i then 1 else 0) (if suc k == suc i then 1 else 0)
    same = ground arith

small_powers : all_below 8 (λ i. ltb (2 ^ i) 256) ≡ true
unfolding all_below
small_powers = refl

two_pow-lt : (i : ℕ) → i < 8 → 2 ^ i < 256
two_pow-lt i h = ltb→lt (2 ^ i) 256 (all_below_sound 8 _ i small_powers h)

-- Two bits of a register are set, and no other.
two_bits :
    (k i j : ℕ)
    → i < 8
    → j < 8
    → bit k (u8 (bit_or (2 ^ i) (2 ^ j))) ≡ (if k == i || k == j then 1 else 0)
two_bits k i j hi hj =
    ap (bit k) whole
    ∙ (bit_or-bit k (2 ^ i) (2 ^ j) ∙ ground (arith, bit-two_pow k i, bit-two_pow k j))
  where
    whole : u8 (bit_or (2 ^ i) (2 ^ j)) ≡ bit_or (2 ^ i) (2 ^ j)
    whole = omega (arith, bit_or-lt 8 (2 ^ i) (2 ^ j) (two_pow-lt i hi) (two_pow-lt j hj))

-- With the bits' numbers below 8, the boot sequence turns on the receiver and the transmitter and
-- nothing else in UCSR0B, and sets the two bits of the frame's length and nothing else in UCSR0C.
pub boot-usart :
    (bus : Bus) (bus_reset : bus.State → bus.State) (setup : Setup) (count mcusr k : ℕ)
    (s : Firmware bus.State)
    → setup.rxen0 < 8
    → setup.txen0 < 8
    → setup.ucsz01 < 8
    → setup.ucsz00 < 8
    → (bit k (boot bus bus_reset setup count mcusr s).usart.ucsr0b
        ≡ (if k == setup.rxen0 || k == setup.txen0 then 1 else 0))
      × (bit k (boot bus bus_reset setup count mcusr s).usart.ucsr0c
          ≡ (if k == setup.ucsz01 || k == setup.ucsz00 then 1 else 0))
unfolding boot uart_init
boot-usart bus bus_reset setup count mcusr k s hr ht h1 h0 =
    (two_bits k setup.rxen0 setup.txen0 hr ht, two_bits k setup.ucsz01 setup.ucsz00 h1 h0)
