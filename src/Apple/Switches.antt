-- ===== src/Apple/Switches.antt =====
-- The soft switches and the video events of the Apple profile.
use sage_apple.Base.{
  ℕ, zero, suc, ◌+◌, ◌*◌, ◌^◌, ◌<◌, ◌≡◌, refl, ap, ◌∙◌, arith, Bool, true, false, List, [], ◌∷◌,
  length, All, leb, ltb, ◌==◌, if◌then◌else◌, switch,
}
use sage_apple.Uart.{Uart}
use sage_apple.Cpu.Regs.{flag, put_flag, set_flag, clear_flag, to_ℕ}
use sage_apple.Cpu.Status.{flag-put}
use sage_apple.Apple.State.{Board}
use sage_apple.Apple.Video.{video_switch, record_video_write, is_video_write}
use sage_apple.Apple.Map.{bus_write}

switch-put :
    (k : ℕ) (on : Bool) (state : ℕ)
    → k < 4
    → video_switch (0xc050 + 2 * k + to_ℕ on) state ≡ put_flag (2 ^ k) on state
unfolding video_switch put_flag set_flag clear_flag switch
switch-put zero true state h = refl
switch-put zero false state h = refl
switch-put (suc zero) true state h = refl
switch-put (suc zero) false state h = refl
switch-put (suc (suc zero)) true state h = refl
switch-put (suc (suc zero)) false state h = refl
switch-put (suc (suc (suc zero))) true state h = refl
switch-put (suc (suc (suc zero))) false state h = refl
switch-put (suc (suc (suc (suc k)))) on state h = absurd (omega arith)

power_positive : (j : ℕ) → j < 4 → 0 < 2 ^ j
power_positive zero h = omega arith
power_positive (suc zero) h = omega arith
power_positive (suc (suc zero)) h = omega arith
power_positive (suc (suc (suc zero))) h = omega arith
power_positive (suc (suc (suc (suc j)))) h = absurd (omega arith)

-- The eight soft switches are four pairs, for text, mixed, page 2 and hi-res: the even address of
-- a pair clears its bit of the display state and the odd one sets it, and the bits of the other
-- pairs stay.
pub flag-video_switch :
    (k j : ℕ) (on : Bool) (state : ℕ)
    → k < 4
    → j < 4
    → flag (2 ^ j) (video_switch (0xc050 + 2 * k + to_ℕ on) state)
      ≡ (if j == k then on else flag (2 ^ j) state)
flag-video_switch k j on state hk hj =
    ap (flag (2 ^ j)) (switch-put k on state hk)
    ∙ flag-put j k on state (omega arith) (omega arith) (power_positive j hj)

module _ (uart : Uart) (rom : ℕ → ℕ) where
  -- Writes of these values to these addresses, in order.
  unfoldable pub write_all : List (ℕ × ℕ) → Board uart.Port → Board uart.Port
  write_all [] b = b
  write_all ((address, value) ∷ ws) b = write_all ws (bus_write uart rom address value b)

  video_event :
      (address value : ℕ) (b : Board uart.Port)
      → is_video_write address ≡ true
      → bus_write uart rom address value b
        ≡ record b { video = record_video_write address value b.video }
  unfolding bus_write is_video_write
  video_event address value b h = rw (low, high, h) refl
    where
      low : ltb address 0x0400 ≡ false
      low = ground arith

      high : leb 0xd000 address ≡ false
      high = ground arith

  counted :
      (address value : ℕ) (b : Board uart.Port)
      → is_video_write address ≡ true
      → b.video.video_event_count < 0x10000
      → (bus_write uart rom address value b).video.video_event_count
        ≡ (if b.video.video_event_count == 0xffff then 0xffff else b.video.video_event_count + 1)
  unfolding record_video_write
  counted address value b h small = rw (video_event address value b h) (ground arith)

  -- Any sequence of bus writes into the display memories, from a 16-bit event counter, raises the
  -- counter by their number, up to its limit $FFFF, where it stays.
  pub write_all-video_event_count :
      (ws : List (ℕ × ℕ)) (b : Board uart.Port)
      → All (λ (w : ℕ × ℕ). is_video_write w.0 ≡ true) ws
      → b.video.video_event_count < 0x10000
      → (write_all ws b).video.video_event_count ≡ (
          if leb 0xffff (b.video.video_event_count + length ws)
          then 0xffff
          else b.video.video_event_count + length ws)
  unfolding write_all
  write_all-video_event_count [] b h small = ground arith
  write_all-video_event_count ((address, value) ∷ ws) b h small =
      write_all-video_event_count ws (bus_write uart rom address value b) h.1
        (ground (arith, counted address value b h.0 small))
      ∙ ground (arith, counted address value b h.0 small)
