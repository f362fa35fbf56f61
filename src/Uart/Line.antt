-- ===== src/Uart/Line.antt =====
-- The abstract serial line: the bytes that wait, oldest first, and the bytes sent.
use sage_apple.Base.{ℕ, ◌<◌, arith, Bool, true, false, List, [], ◌∷◌, ◌++◌, All}
use sage_apple.Uart.{Uart, UartLaws}

pub record Line : Type 0 where
  pub waiting : List ℕ
  pub sent : List ℕ

abbrev pub some_waiting : List ℕ → Bool
some_waiting [] = false
some_waiting (b ∷ bs) = true

abbrev pub ready : Line → Bool
ready l = some_waiting l.waiting

abbrev pub take_first : List ℕ → List ℕ → ℕ × Line
take_first [] sent = (0, record { waiting = []; sent = sent })
take_first (b ∷ bs) sent = (b, record { waiting = bs; sent = sent })

abbrev pub receive : Line → ℕ × Line
receive l = take_first l.waiting l.sent

abbrev pub send : ℕ → Line → Line
send v l = record l { sent = l.sent ++ v ∷ [] }

-- the abstract line as the serial port
abbrev pub line_uart : Uart
line_uart = record { Port = Line; rx_ready = ready; rx = receive; tx = send }

abbrev pub HoldsBytes : Line → Type 0
HoldsBytes l = All (λ n. n < 256) l.waiting

taken-lt : (bs sent : List ℕ) → All (λ n. n < 256) bs → (take_first bs sent).0 < 256
taken-lt [] sent h = omega arith
taken-lt (b ∷ bs) sent h = h.0

taken-HoldsBytes : (bs sent : List ℕ) → All (λ n. n < 256) bs → HoldsBytes (take_first bs sent).1
taken-HoldsBytes [] sent h = h
taken-HoldsBytes (b ∷ bs) sent h = h.1

pub line_laws : UartLaws line_uart
line_laws = record {
  IsSound = HoldsBytes;
  rx-lt = λ p h. taken-lt p.waiting p.sent h;
  rx-IsSound = λ p h. taken-HoldsBytes p.waiting p.sent h;
  tx-IsSound = λ v p h s. s;
}

pub line_sound : (l : Line) → HoldsBytes l → line_laws.IsSound l
unfolding line_laws
line_sound l h = h
