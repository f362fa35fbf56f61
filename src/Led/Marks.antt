-- ===== src/Led/Marks.antt =====
-- avr/led.c:294-313: a fault on several LEDs.
use sage_apple.Base.{
  ℕ, zero, suc, ◌+◌, ◌<◌, ◌≤◌, ◌≡◌, refl, sym, ap, ◌∙◌, arith, Bool, true, false, not, ◌&&◌, ◌||◌,
  List, [], ◌∷◌, length, get_or, set, bit_and, u8, ltb, leb, ◌==◌, if◌then◌else◌, if_true, if_false,
  ==→eq, get_or-set_self, get_or-set_ne, ltb→lt, Bool-cases, inl, inr, subst,
}
use sage_apple.Led.State.{Visual, Led, off, fault, led_fault_none, led_fault_count}
use sage_apple.Led.Driver.{led_paint_multi, stages_shown, fill, led_fault, wdt_vect, visual_on}
use sage_apple.Led.Multi.{lit_at, HasBytePorts, Kept, shown, paint_from-lit, paint_from-Kept}

-- A driver of two to four LEDs, whose first `led_n` states mark at most the stage `code` as failed.
pub record Marks (code count : ℕ) (l : Led) : Type 0 where
  pub wired : l.led_n ≡ count
  pub several : 1 < count
  pub enough : count ≤ 4
  pub bytes : HasBytePorts l
  pub marked : (j : ℕ) → j < count → get_or l.led_state j off ≡ (if j == code then fault else off)

stages_shown-le : (l : Led) → 0 + stages_shown l ≤ 4
stages_shown-le l = ground arith

led_paint_multi-lit :
    (j : ℕ) (l : Led)
    → HasBytePorts l
    → j < l.led_n
    → j < 4
    → lit_at j (led_paint_multi l) ≡ shown j l
unfolding led_paint_multi
led_paint_multi-lit j l h hj h4 =
    paint_from-lit (stages_shown l) 0 j l h (stages_shown-le l) h4
    ∙ if_true (leb 0 j && ltb j (0 + stages_shown l)) _ _ (ground arith)

led_paint_multi-Kept : (l : Led) → HasBytePorts l → Kept l (led_paint_multi l)
unfolding led_paint_multi
led_paint_multi-Kept l h = paint_from-Kept (stages_shown l) 0 l h (stages_shown-le l)

Kept-Marks : {code count : ℕ} (l m : Led) → Kept l m → Marks code count l → Marks code count m
Kept-Marks l m k s = record {
  wired = k.wired ∙ s.wired;
  several = s.several;
  enough = s.enough;
  bytes = k.bytes;
  marked = λ j hj. ap (λ (states : List Visual). get_or states j off) k.states ∙ s.marked j hj;
}

wdt_vect_several :
    (l : Led)
    → 1 < l.led_n
    → wdt_vect l ≡ led_paint_multi (record l { flash_phase = u8 (l.flash_phase + 1) })
unfolding wdt_vect
wdt_vect_several l h = if_false (l.led_n == 1) _ _ (ground arith)

get_or-fill : (n j : ℕ) (states : List Visual) → j < n → get_or (fill n off states) j off ≡ off
unfolding fill
get_or-fill zero j states h = absurd (omega arith)
get_or-fill (suc n) j [] h = refl
get_or-fill (suc n) zero (s ∷ states) h = refl
get_or-fill (suc n) (suc j) (s ∷ states) h = get_or-fill n j states (omega arith)

length-fill : (n : ℕ) (v : Visual) (states : List Visual) → length (fill n v states) ≡ length states
unfolding fill
length-fill zero v states = refl
length-fill (suc n) v [] = refl
length-fill (suc n) v (s ∷ states) = ap suc (length-fill n v states)

-- the states that `led_fault` leaves
abbrev after_fault : ℕ → ℕ → List Visual → List Visual
after_fault code n states =
    let dark = fill n off states in if ltb code n then set dark code fault else dark

get_or-after_fault :
    (code n j : ℕ) (states : List Visual)
    → j < n
    → n ≤ length states
    → get_or (after_fault code n states) j off ≡ (if j == code then fault else off)
get_or-after_fault code n j states h full = elim (Bool-cases (ltb code n)) [
  | inl a ↦
      ap (λ (ss : List Visual). get_or ss j off) (if_true (ltb code n) _ _ a)
      ∙ elim (Bool-cases (j == code)) [
        | inl e ↦
            subst
              (λ (i : ℕ).
                get_or (set (fill n off states) code fault) i off
                ≡ (if i == code then fault else off))
              (sym (==→eq j code e))
              (get_or-set_self (fill n off states) code fault off
                  (omega (arith, length-fill n off states, ltb→lt code n a))
                ∙ sym (if_true (code == code) fault off (ground arith)))
        | inr e ↦
            get_or-set_ne (fill n off states) code j fault off (ground arith)
            ∙ (get_or-fill n j states h ∙ sym (if_false (j == code) fault off e))
      ]
  | inr a ↦
      ap (λ (ss : List Visual). get_or ss j off) (if_false (ltb code n) _ _ a)
      ∙ (get_or-fill n j states h ∙ sym (if_false (j == code) fault off (ground arith)))
]

-- A driver of two to four LEDs, with a state for each and no latched fault.
pub record IsReady (l : Led) : Type 0 where
  pub several : 1 < l.led_n
  pub enough : l.led_n ≤ 4
  pub full : l.led_n ≤ length l.led_state
  pub bytes : HasBytePorts l
  pub unlatched : l.fault_latched ≡ led_fault_none
  pub phase_byte : l.flash_phase < 256

led_fault_several :
    (code : ℕ) (l : Led)
    → IsReady l
    → 0 < code
    → code < led_fault_count
    → led_fault code l
      ≡ led_paint_multi
          (record l { fault_latched = code; led_state = after_fault code l.led_n l.led_state })
unfolding led_fault
led_fault_several code l s lo hi =
    if_false (code == led_fault_none || leb led_fault_count code) _ _ (ground arith)
    ∙ (if_false (not (l.fault_latched == led_fault_none)) _ _ (ground (arith, s.unlatched))
        ∙ if_false (l.led_n == 1) _ _ (ground (arith, s.several)))

fault-Kept :
    (code : ℕ) (l : Led)
    → IsReady l
    → 0 < code
    → code < led_fault_count
    → Kept
        (record l { fault_latched = code; led_state = after_fault code l.led_n l.led_state })
        (led_fault code l)
fault-Kept code l s lo hi =
    subst (Kept _) (sym (led_fault_several code l s lo hi)) (led_paint_multi-Kept _ s.bytes)

-- The driver after `n` beats.
unfoldable pub beats_after : ℕ → Led → Led
beats_after zero l = l
beats_after (suc n) l = wdt_vect (beats_after n l)

-- The display with the failing stage's LED flashing, and every other one dark.
abbrev mark_at : ℕ → ℕ → ℕ → Bool
mark_at code phase j = j == code && not (bit_and phase 1 == 0)

record IsMarked (code count phase : ℕ) (l : Led) : Type 0 where
  marks : Marks code count l
  in_phase : l.flash_phase ≡ phase
  display : (j : ℕ) → j < count → lit_at j l ≡ mark_at code phase j

visual_on-mark : (failed on : Bool) → visual_on (if failed then fault else off) on ≡ (failed && on)
unfolding visual_on
visual_on-mark true on = refl
visual_on-mark false on = refl

shown-mark :
    (code count j : ℕ) (l : Led)
    → Marks code count l
    → j < count
    → shown j l ≡ mark_at code l.flash_phase j
shown-mark code count j l s hj =
    ap (λ (v : Visual). visual_on v (not (bit_and l.flash_phase 1 == 0))) (s.marked j hj)
    ∙ visual_on-mark (j == code) _

paint-IsMarked :
    (code count : ℕ) (l : Led)
    → Marks code count l
    → IsMarked code count l.flash_phase (led_paint_multi l)
paint-IsMarked code count l s =
    let k = led_paint_multi-Kept l s.bytes in
    record {
      marks = Kept-Marks l (led_paint_multi l) k s;
      in_phase = k.phase;
      display = λ j hj.
          led_paint_multi-lit j l s.bytes (omega (arith, s.wired)) (omega (arith, s.enough))
          ∙ shown-mark code count j l s hj;
    }

fault-IsMarked :
    (code : ℕ) (l : Led)
    → IsReady l
    → 0 < code
    → code < led_fault_count
    → IsMarked code l.led_n l.flash_phase (led_fault code l)
fault-IsMarked code l s lo hi =
    subst (IsMarked code l.led_n l.flash_phase) (sym (led_fault_several code l s lo hi)) (
      paint-IsMarked code l.led_n _ (record {
        wired = refl;
        several = s.several;
        enough = s.enough;
        bytes = s.bytes;
        marked = λ j hj. get_or-after_fault code l.led_n j l.led_state hj s.full;
      }))

beat-IsMarked :
    (code count phase : ℕ) (l : Led)
    → IsMarked code count phase l
    → IsMarked code count (u8 (phase + 1)) (wdt_vect l)
beat-IsMarked code count phase l s =
    subst (λ (n : ℕ). IsMarked code count (u8 (n + 1)) (wdt_vect l)) s.in_phase
      (subst (IsMarked code count _)
        (sym (wdt_vect_several l (omega (arith, s.marks.wired, s.marks.several))))
        (paint-IsMarked code count _ (record {
          wired = s.marks.wired;
          several = s.marks.several;
          enough = s.marks.enough;
          bytes = s.marks.bytes;
          marked = s.marks.marked;
        })))

beats-IsMarked :
    (code count phase n : ℕ) (l : Led)
    → phase < 256
    → IsMarked code count phase l
    → IsMarked code count (u8 (phase + n)) (beats_after n l)
unfolding beats_after
beats-IsMarked code count phase zero l h s = subst (λ p. IsMarked code count p l) (omega arith) s
beats-IsMarked code count phase (suc n) l h s =
    subst (λ p. IsMarked code count p (wdt_vect (beats_after n l))) (omega arith)
      (beat-IsMarked code count (u8 (phase + n)) (beats_after n l)
        (beats-IsMarked code count phase n l h s))

-- On two to four LEDs with a state for each, after the first fault, one of the five, and any
-- number of beats behind it, an LED is lit exactly if its number is the fault's and the flash is
-- in its lit half: a fault whose number is at least that of the LEDs lights none.
pub led_fault-lit :
    (code n j : ℕ) (l : Led)
    → IsReady l
    → 0 < code
    → code < led_fault_count
    → j < l.led_n
    → lit_at j (beats_after n (led_fault code l))
      ≡ (j == code && not (bit_and (u8 (l.flash_phase + n)) 1 == 0))
led_fault-lit code n j l s lo hi hj =
    (beats-IsMarked code l.led_n l.flash_phase n (led_fault code l) s.phase_byte
        (fault-IsMarked code l s lo hi)).display
      j hj
