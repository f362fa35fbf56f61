-- ===== src/Led/Faults.antt =====
-- The latch of faults and the record of boot stages, for any number of LEDs.
use sage_apple.Base.{
  ℕ, zero, suc, ◌+◌, ◌<◌, ◌≡◌, refl, ap, ◌∙◌, arith, Bool, true, false, not, ◌||◌, List, [], ◌∷◌,
  length, get_or-set_self, leb, ltb, ◌==◌, if◌then◌else◌, if_both, Bool-cases, ◌≢◌, inl, inr,
}
use sage_apple.Led.State.{Led, off, solid, led_stage_count, led_fault_none, led_fault_count}
use sage_apple.Led.Driver.{
  led_fault, led_arm, led_paint_single, led_paint_multi, led_write, paint_from, led_stage_done,
  led_stage_is_done, is_solid,
}

-- the faults that `led_fault` accepts
abbrev pub is_fault : ℕ → Bool
is_fault code = if code == led_fault_none then false else ltb code led_fault_count

-- The calls of `led_fault` with these codes, in order.
unfoldable pub led_faults : List ℕ → Led → Led
led_faults [] l = l
led_faults (code ∷ codes) l = led_faults codes (led_fault code l)

-- The first code that is a fault, or none.
abbrev pub first_fault : List ℕ → ℕ
first_fault [] = led_fault_none
first_fault (code ∷ codes) = if is_fault code then code else first_fault codes

pub painted-latched : (n i : ℕ) (l : Led) → (paint_from n i l).fault_latched ≡ l.fault_latched
unfolding paint_from led_write
painted-latched zero i l = refl
painted-latched (suc n) i l =
    painted-latched n (i + 1) _
    ∙ if_both (λ (m : Led). m.fault_latched ≡ l.fault_latched) (i == 0) refl refl

pick-latched :
    (refused latched : Bool) (l : Led) (code : ℕ) (m : Led)
    → m.fault_latched ≡ code
    → (if refused then l else if latched then l else m).fault_latched
      ≡ (if refused || latched then l.fault_latched else code)
pick-latched true latched l code m h = refl
pick-latched false true l code m h = refl
pick-latched false false l code m h = h

-- One call latches its code if it is a fault and none is latched.
fault-latched :
    (code : ℕ) (l : Led)
    → (led_fault code l).fault_latched ≡ (
        if (code == led_fault_none || leb led_fault_count code)
          || not (l.fault_latched == led_fault_none)
        then l.fault_latched
        else code)
unfolding led_fault led_arm led_paint_single led_paint_multi led_write
fault-latched code l =
    pick-latched (code == led_fault_none || leb led_fault_count code) _ l code _
      (if_both (λ (m : Led). m.fault_latched ≡ code) (l.led_n == 1) refl (painted-latched _ 0 _))

pub after_none :
    (code : ℕ) (l : Led)
    → l.fault_latched ≡ led_fault_none
    → (led_fault code l).fault_latched ≡ (if is_fault code then code else led_fault_none)
after_none code l none = ground (arith, fault-latched code l)

pub after_some :
    (code : ℕ) (l : Led)
    → l.fault_latched ≢ led_fault_none
    → (led_fault code l).fault_latched ≡ l.fault_latched
after_some code l some = ground (arith, fault-latched code l)

faults_after_some :
    (codes : List ℕ) (l : Led)
    → l.fault_latched ≢ led_fault_none
    → (led_faults codes l).fault_latched ≡ l.fault_latched
unfolding led_faults
faults_after_some [] l some = refl
faults_after_some (code ∷ codes) l some =
    faults_after_some codes (led_fault code l) (ground (arith, after_some code l))
    ∙ after_some code l some

-- After any sequence of calls of led_fault on a driver with no latched fault, the latched fault is
-- the first of the codes that is a fault, or none.
pub first_fault_wins :
    (codes : List ℕ) (l : Led)
    → l.fault_latched ≡ led_fault_none
    → (led_faults codes l).fault_latched ≡ first_fault codes
unfolding led_faults
first_fault_wins [] l none = none
first_fault_wins (code ∷ codes) l none = elim (Bool-cases (is_fault code)) [
  | inl h ↦
      faults_after_some codes (led_fault code l) (ground (arith, after_none code l))
      ∙ ground (arith, after_none code l)
  | inr h ↦
      first_fault_wins codes (led_fault code l) (ground (arith, after_none code l)) ∙ ground arith
]

-- A stage that was completed is done, on one LED and on several, when the driver has a state for
-- each stage.
pub led_stage_is_done-led_stage_done :
    (stage : ℕ) (l : Led)
    → stage < led_stage_count
    → length l.led_state ≡ led_stage_count
    → led_stage_is_done stage (led_stage_done stage l) ≡ true
unfolding led_stage_is_done led_stage_done led_arm led_paint_single led_write
led_stage_is_done-led_stage_done stage l h full =
    ground (arith, ap is_solid (get_or-set_self l.led_state stage solid off (omega arith)))
