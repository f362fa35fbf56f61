-- ===== src/Led/Trace.antt =====
-- The patterns of the single-LED language, beat by beat.
use Prim.Native.Nat.add
use Prim.Native.Nat.mul
use sage_apple.Base.{
  ℕ, zero, suc, ◌+◌, ◌-◌, ◌*◌, ◌≡◌, refl, ap, ap₂, ◌∙◌, arith, Bool, true, false, List, [], ◌∷◌,
  ◌++◌, replicate, ltb, ◌==◌, if◌then◌else◌,
}
use sage_apple.Led.State.{
  ph_idle, ph_pulse, ph_gap, mode_pattern, Seq, beat_between, beat_group_gap,
}
use sage_apple.Led.Sequencer.{seq_on, seq_beat, arm}

-- Whether the LED is lit in each of the next `n` beats, and the sequencer after them.
unfoldable pub trace : ℕ → Seq → List Bool
trace zero s = []
trace (suc n) s = seq_on s.mode s.phase ∷ trace n (seq_beat s)

pub after : ℕ → Seq → Seq
after zero s = s
after (suc n) s = after n (seq_beat s)

-- A run of `n` beats from `s` to `t`, lit as `bs` says.
pub record Runs (n : ℕ) (s : Seq) (bs : List Bool) (t : Seq) : Type 0 where
  pub shows : trace n s ≡ bs
  pub ends : after n s ≡ t

pub Runs-zero : (s : Seq) → Runs 0 s [] s
unfolding trace after
Runs-zero s = record { shows = refl; ends = refl }

trace-add : (m n : ℕ) (s : Seq) → trace (m + n) s ≡ trace m s ++ trace n (after m s)
unfolding trace after
trace-add zero n s = ap (λ (k : ℕ). trace k s) (add.zero n)
trace-add (suc m) n s =
    ap (λ (k : ℕ). trace k s) (add.suc m n)
    ∙ ap (◌∷◌ (seq_on s.mode s.phase)) (trace-add m n (seq_beat s))

after-add : (m n : ℕ) (s : Seq) → after (m + n) s ≡ after n (after m s)
unfolding after
after-add zero n s = ap (λ (k : ℕ). after k s) (add.zero n)
after-add (suc m) n s = ap (λ (k : ℕ). after k s) (add.suc m n) ∙ after-add m n (seq_beat s)

pub Runs-append :
    (m n : ℕ) {s t u : Seq} {bs cs : List Bool}
    → Runs m s bs t
    → Runs n t cs u
    → Runs (m + n) s (bs ++ cs) u
Runs-append m n {s} first next = record {
  shows = trace-add m n s ∙ ap₂ ◌++◌ first.shows (ap (trace n) first.ends ∙ next.shows);
  ends = after-add m n s ∙ (ap (after n) first.ends ∙ next.ends);
}

-- One beat and then a run.
Runs-suc :
    (n : ℕ) {s t u : Seq} {bs : List Bool}
    → seq_beat s ≡ t
    → Runs n t bs u
    → Runs (suc n) s (seq_on s.mode s.phase ∷ bs) u
unfolding trace after
Runs-suc n {s} e rest = record {
  shows = ap (◌∷◌ (seq_on s.mode s.phase)) (ap (trace n) e ∙ rest.shows);
  ends = ap (after n) e ∙ rest.ends;
}

-- the sequencer at a pulse with `k` beats to go, or in a gap with `k` beats to go
abbrev pub lit_for : ℕ → ℕ → ℕ → ℕ → ℕ → Seq
lit_for k beats left gap repeat = record {
  mode = mode_pattern;
  phase = ph_pulse;
  pulse = k;
  beats = beats;
  left = left;
  gap = gap;
  repeat = repeat;
}

abbrev pub dark_for : ℕ → ℕ → ℕ → ℕ → Seq
dark_for k beats left repeat = record {
  mode = mode_pattern;
  phase = ph_gap;
  pulse = 0;
  beats = beats;
  left = left;
  gap = k;
  repeat = repeat;
}

pulse_goes_on :
    (k beats left gap repeat : ℕ)
    → seq_beat (lit_for (suc (suc k)) beats left gap repeat) ≡ lit_for (suc k) beats left gap repeat
unfolding seq_beat
pulse_goes_on k beats left gap repeat = ground arith

pulse_ends :
    (beats left gap repeat : ℕ)
    → seq_beat (lit_for 1 beats left gap repeat) ≡ (
        if ltb 1 left
        then dark_for beat_between beats (left - 1) repeat
        else dark_for beat_group_gap beats 0 repeat)
unfolding seq_beat
pulse_ends beats left gap repeat = refl

gap_goes_on :
    (k beats left repeat : ℕ)
    → seq_beat (dark_for (suc (suc k)) beats left repeat) ≡ dark_for (suc k) beats left repeat
unfolding seq_beat
gap_goes_on k beats left repeat = ground arith

gap_ends :
    (beats left repeat : ℕ)
    → seq_beat (dark_for 1 beats left repeat) ≡ (
        if left == 0
        then (if repeat == 0
            then record (dark_for 0 beats 0 repeat) { phase = ph_idle }
            else lit_for beats beats repeat 0 repeat)
        else lit_for beats beats left 0 repeat)
unfolding seq_beat
gap_ends beats left repeat = ground arith

-- A pulse of `k + 1` beats is lit throughout, and goes over into the gap that fits.
pub pulse-Runs :
    (k beats left gap repeat : ℕ)
    → Runs (suc k) (lit_for (suc k) beats left gap repeat) (replicate (suc k) true) (
        if ltb 1 left
        then dark_for beat_between beats (left - 1) repeat
        else dark_for beat_group_gap beats 0 repeat)
unfolding seq_on
pulse-Runs zero beats left gap repeat = Runs-suc 0 (pulse_ends beats left gap repeat) (Runs-zero _)
pulse-Runs (suc k) beats left gap repeat =
    Runs-suc (suc k) (pulse_goes_on k beats left gap repeat) (pulse-Runs k beats left gap repeat)

-- A gap of `k + 1` beats is dark throughout; then comes the next pulse, the next group, or the end.
pub gap-Runs :
    (k beats left repeat : ℕ)
    → Runs (suc k) (dark_for (suc k) beats left repeat) (replicate (suc k) false) (
        if left == 0
        then (if repeat == 0
            then record (dark_for 0 beats 0 repeat) { phase = ph_idle }
            else lit_for beats beats repeat 0 repeat)
        else lit_for beats beats left 0 repeat)
unfolding seq_on
gap-Runs zero beats left repeat = Runs-suc 0 (gap_ends beats left repeat) (Runs-zero _)
gap-Runs (suc k) beats left repeat =
    Runs-suc (suc k) (gap_goes_on k beats left repeat) (gap-Runs k beats left repeat)

-- A group of `count + 1` pulses of `beats` beats: two dark beats between pulses, eight behind them.
abbrev pub group : ℕ → ℕ → List Bool
group beats zero = replicate beats true ++ replicate beat_group_gap false
group beats (suc count) =
    (replicate beats true ++ replicate beat_between false) ++ group beats count

abbrev pub group_beats : ℕ → ℕ → ℕ
group_beats beats zero = beats + beat_group_gap
group_beats beats (suc count) = beats + beat_between + group_beats beats count

-- the sequencer behind a group
abbrev pub behind : ℕ → ℕ → Seq
behind beats repeat =
    if repeat == 0
    then record (dark_for 0 beats 0 repeat) { phase = ph_idle }
    else lit_for beats beats repeat 0 repeat

-- The same run, to a state that is equal.
Runs-to : (n : ℕ) {s t u : Seq} {bs : List Bool} → Runs n s bs t → t ≡ u → Runs n s bs u
Runs-to n r e = record { shows = r.shows; ends = r.ends ∙ e }

group-Runs :
    (b count repeat : ℕ)
    → Runs
        (group_beats (suc b) count)
        (lit_for (suc b) (suc b) (suc count) 0 repeat)
        (group (suc b) count)
        (behind (suc b) repeat)
group-Runs b zero repeat =
    Runs-append (suc b) 8 (pulse-Runs b (suc b) 1 0 repeat) (gap-Runs 7 (suc b) 0 repeat)
group-Runs b (suc count) repeat =
    Runs-append (suc b + 2) (group_beats (suc b) count)
      (Runs-append (suc b) 2
        (Runs-to (suc b) (pulse-Runs b (suc b) (suc (suc count)) 0 repeat) between)
        (Runs-to 2 (gap-Runs 1 (suc b) (suc count) repeat) next))
      (group-Runs b count repeat)
  where
    between :
        (if ltb 1 (suc (suc count))
          then dark_for beat_between (suc b) (suc (suc count) - 1) repeat
          else dark_for beat_group_gap (suc b) 0 repeat)
        ≡ dark_for 2 (suc b) (suc count) repeat
    between = ground arith

    next :
        (if suc count == 0
          then (if repeat == 0
              then record (dark_for 0 (suc b) 0 repeat) { phase = ph_idle }
              else lit_for (suc b) (suc b) repeat 0 repeat)
          else lit_for (suc b) (suc b) (suc count) 0 repeat)
        ≡ lit_for (suc b) (suc b) (suc count) 0 repeat
    next = ground arith

idle-Runs : (n beats : ℕ) → Runs n (behind beats 0) (replicate n false) (behind beats 0)
unfolding seq_on seq_beat
idle-Runs zero beats = Runs-zero _
idle-Runs (suc n) beats = Runs-suc n {t = behind beats 0} refl (idle-Runs n beats)

-- A pattern that is shown once: the group, and then darkness for as long as one looks.
pub once-Runs :
    (b count n : ℕ)
    → Runs
        (group_beats (suc b) count + n)
        (arm (suc b) (suc count) 0)
        (group (suc b) count ++ replicate n false)
        (behind (suc b) 0)
unfolding arm
once-Runs b count n =
    Runs-append (group_beats (suc b) count) n (group-Runs b count 0) (idle-Runs n (suc b))

abbrev pub groups : ℕ → ℕ → ℕ → List Bool
groups zero beats count = []
groups (suc n) beats count = group beats count ++ groups n beats count

-- A pattern that repeats: the same group, `n` times over, for every `n`.
pub repeats-Runs :
    (b count n : ℕ)
    → Runs
        (n * group_beats (suc b) count)
        (arm (suc b) (suc count) (suc count))
        (groups n (suc b) count)
        (arm (suc b) (suc count) (suc count))
unfolding arm
repeats-Runs b count zero = rw mul.zero (Runs-zero _)
repeats-Runs b count (suc n) = rw mul.suc (
    Runs-append (group_beats (suc b) count) (n * group_beats (suc b) count)
      (Runs-to (group_beats (suc b) count) (group-Runs b count (suc count)) again)
      (unfold arm in repeats-Runs b count n))
  where
    again : behind (suc b) (suc count) ≡ lit_for (suc b) (suc b) (suc count) 0 (suc count)
    again = ground arith
