-- ===== src/Monitor/Simulation.antt =====
-- avr/bus.c over two serial ports of which one simulates the other.
use sage_apple.Base.{
  ℕ, ◌≡◌, refl, ap, Bool, List, get_or, set, bit_or, ltb, leb, between, ◌==◌, if◌then◌else◌,
  if_agree,
}
use sage_apple.Uart.{Uart}
use sage_apple.Monitor.{Board, bus_read, bus_write, monitor_bus}
use sage_apple.Cpu.Simulation.{Simulation}

-- A relation between two ports that are ready together, receive the same, and stay related.
pub record PortSimulation (p q : Uart) : Type 1 where
  pub Rel : p.Port → q.Port → Type 0
  pub same_ready : (x : p.Port) (y : q.Port) → Rel x y → p.rx_ready x ≡ q.rx_ready y
  pub same_rx : (x : p.Port) (y : q.Port) → Rel x y → (p.rx x).0 ≡ (q.rx y).0
  pub rx-Rel : (x : p.Port) (y : q.Port) → Rel x y → Rel (p.rx x).1 (q.rx y).1
  pub tx-Rel : (v : ℕ) (x : p.Port) (y : q.Port) → Rel x y → Rel (p.tx v x) (q.tx v y)

module _ {p q : Uart} (ports : PortSimulation p q) (rom : ℕ → ℕ) where
  -- boards with the same memory and related ports
  abbrev pub BoardRel : Board p.Port → Board q.Port → Type 0
  BoardRel x y = Path {0} (List ℕ) x.ram y.ram × ports.Rel x.port y.port

  SameRead : ℕ × Board p.Port → ℕ × Board q.Port → Type 0
  SameRead u v = Path {0} ℕ u.0 v.0 × BoardRel u.1 v.1

  read-SameRead :
      (addr : ℕ) (x : Board p.Port) (y : Board q.Port)
      → BoardRel x y
      → SameRead (bus_read p rom addr x) (bus_read q rom addr y)
  unfolding bus_read SameRead
  read-SameRead addr x y h =
      if_agree SameRead (ltb addr 0x0400) _ _ _ _ (ap (λ (ram : List ℕ). get_or ram addr 0) h.0, h)
        (if_agree SameRead (between 0x2000 0x2001 addr) _ _ _ _
          (if_agree SameRead (addr == 0x2000) _ _ _ _
            (
              ap (λ (ready : Bool). bit_or (if ready then 0x01 else 0x00) 0x02)
                  (ports.same_ready x.port y.port h.1),
              h,
            )
            (ports.same_rx x.port y.port h.1, (h.0, ports.rx-Rel x.port y.port h.1)))
          (if_agree SameRead (leb 0xe000 addr) _ _ _ _ (refl, h) (refl, h)))

  write-BoardRel :
      (addr v : ℕ) (x : Board p.Port) (y : Board q.Port)
      → BoardRel x y
      → BoardRel (bus_write p rom addr v x) (bus_write q rom addr v y)
  unfolding bus_write
  write-BoardRel addr v x y h =
      if_agree BoardRel (ltb addr 0x400) _ _ _ _ (ap (λ (ram : List ℕ). set ram addr v) h.0, h.1)
        (if_agree BoardRel (addr == 0x2001) _ _ _ _ sent
          (if_agree BoardRel (addr == 0x3000) _ _ _ _ sent h))
    where
      sent : BoardRel (record x { port = p.tx v x.port }) (record y { port = q.tx v y.port })
      sent = (h.0, ports.tx-Rel v x.port y.port h.1)

  pub board_simulation : Simulation (monitor_bus p rom) (monitor_bus q rom)
  unfolding SameRead
  board_simulation = record {
    Rel = BoardRel;
    same_read = λ addr x y h. (read-SameRead addr x y h).0;
    read-Rel = λ addr x y h. (read-SameRead addr x y h).1;
    write-Rel = write-BoardRel;
  }

  -- Boards whose ports changed together.
  pub related_boards :
      (x : Board p.Port) (y : Board q.Port) → BoardRel x y → board_simulation.Rel x y
  unfolding board_simulation
  related_boards x y h = h

  pub boards_related :
      (x : Board p.Port) (y : Board q.Port) → board_simulation.Rel x y → BoardRel x y
  unfolding board_simulation
  boards_related x y h = h
