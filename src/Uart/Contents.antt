-- ===== src/Uart/Contents.antt =====
-- What can be told of the FIFO of avr/host_uart.c by reading it: its states, with those that stand
-- for one line made equal.
use sage_apple.Base.{ℕ, ◌≡◌, ap, sym, ◌∙◌}
use mathlib.Core.Quot
use mathlib.Core.Quot.{Quot, Quot-set}
use native.Mathlib.Nat.{ℕ_set}
use sage_apple.Uart.Line.{Line, receive}
use sage_apple.Uart.Ring.{Ring, hu_rx}
use sage_apple.Uart.Replay.{IsFifo, fifo_line, hu_rx-receive}

-- a FIFO with its indices inside its buffer
abbrev pub Fifo : Type 0
Fifo = (r : Ring) × IsFifo r

abbrev pub SameLine : Fifo → Fifo → Type 0
SameLine x y = Path {0} Line (fifo_line x.0) (fifo_line y.0)

abbrev pub Contents : Type 0
Contents = Quot SameLine

pub Line_set : IsSet Line
Line_set = hlevel ℕ_set

-- the line of the contents
unfoldable pub line : Contents → Line
line = Quot.lift Line_set (λ x. fifo_line x.0) (λ x y h. h)

-- the state behind a read of a FIFO
abbrev pub after_read : Fifo → Fifo
after_read x = ((hu_rx x.0).1, (hu_rx-receive x.0 x.1).1.1)

abbrev pub Received : Type 0
Received = ℕ × Line

read_line :
    (x : Fifo)
    → Path {0} Received ((hu_rx x.0).0, fifo_line (after_read x).0) (receive (fifo_line x.0))
read_line x = (hu_rx-receive x.0 x.1).1.0

pub same_read :
    (x y : Fifo)
    → SameLine x y
    → Path {0} Received
        ((hu_rx x.0).0, fifo_line (after_read x).0)
        ((hu_rx y.0).0, fifo_line (after_read y).0)
same_read x y h = read_line x ∙ (ap receive h ∙ sym (read_line y))

pub pair_set : IsSet (ℕ × Contents)
pair_set = hlevel (ℕ_set, Quot-set)

-- a read of the contents
unfoldable pub read : Contents → ℕ × Contents
read =
    Quot.lift pair_set (λ x. ((hu_rx x.0).0, Quot.mk (after_read x)))
      (λ x y h i. (
        (same_read x y h i).0,
        Quot.sound {a = after_read x} {b = after_read y} (λ j. (same_read x y h j).1) i,
      ))

same_line : (c d : Contents) → line c ≡ line d → c ≡ d
unfolding line
same_line =
    Quot.ind (λ c. hlevel Quot-set)
      (λ x. Quot.ind (λ d. hlevel Quot-set) (λ y h. Quot.sound {a = x} {b = y} h))

read_contents : (c : Contents) → Path {0} Received ((read c).0, line (read c).1) (receive (line c))
unfolding line read
read_contents = Quot.ind (λ q. hlevel (ℕ_set, Line_set)) read_line

-- The contents of the FIFO are its states, with those equal that stand for one line. Two contents
-- with the same line are equal, and reading the one is reading the line of the other: it gives the
-- oldest byte or 0, and leaves the line's rest.
pub read-receive :
    (c d : Contents)
    → line c ≡ line d
    → (c ≡ d) × Path {0} Received ((read c).0, line (read c).1) (receive (line d))
read-receive c d h = (same_line c d h, read_contents c ∙ ap receive h)
