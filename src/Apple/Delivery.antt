-- ===== src/Apple/Delivery.antt =====
-- avr/bus_apple2.c:84-111 and 240-249: what a program that reads $C010 and $C000 in any order learns of
-- the bytes on the serial line.
use sage_apple.Base.{
  ℕ, ◌%◌, ◌≡◌, refl, ap, subst, sym, ◌∙◌, arith, Bool, true, false, not, ◌||◌, List, [], ◌∷◌, ◌++◌,
  map, bit_and, ◌==◌, if◌then◌else◌, bit_and_0x7f, ◌&&◌, Bool-cases, inl, inr, ==→eq,
}
use sage_apple.Uart.Line.{Line, line_uart}
use sage_apple.Apple.State.{Board}
use sage_apple.Apple.Keyboard.{apple_key_from_uart, keyboard_read_strobe, keyboard_read_data}
use sage_apple.Apple.Map.{bus_read}

-- a read of $C010, and one of $C000
pub data Access : Type 0 where
  at_strobe at_data : Access

-- The keys that a program takes from the values it read: one of $C000 is a key if $C010 read $80
-- since the last read of $C000, or if one was announced before.
abbrev pub keys_taken : Bool → List (Access × ℕ) → List ℕ
keys_taken announced [] = []
keys_taken announced ((at_strobe, v) ∷ t) = keys_taken (announced || v == 0x80) t
keys_taken announced ((at_data, v) ∷ t) =
    if announced then v ∷ keys_taken false t else keys_taken false t

-- The keys that still have to be taken, with no key latched or with this one latched: it, and then those of
-- the bytes on the line.
abbrev left : Bool → ℕ → List ℕ → List ℕ
left true latch bs = map (λ c. apple_key_from_uart c % 128) bs
left false latch bs = (latch % 128) ∷ map (λ c. apple_key_from_uart c % 128) bs

abbrev pub keys_left : Board Line → List ℕ
keys_left b = left (b.keys.keyboard_latch_valid == 0) b.keys.keyboard_latch b.port.waiting

-- whether a strobed key is a latched one
abbrev pub keeps_latch : Board Line → Bool
keeps_latch b = b.keys.keyboard_strobe == 0 || not (b.keys.keyboard_latch_valid == 0)

module _ (rom : ℕ → ℕ) where
  abbrev access : Access → Board Line → ℕ × Board Line
  access at_strobe b = bus_read line_uart rom 0xc010 b
  access at_data b = bus_read line_uart rom 0xc000 b

  -- the values of these reads, and the board behind them
  unfoldable pub accesses : List Access → Board Line → List (Access × ℕ) × Board Line
  accesses [] b = ([], b)
  accesses (a ∷ order) b =
      let (v, b') = access a b in let (t, b'') = accesses order b' in ((a, v) ∷ t, b'')

  module _ (b : Board Line) where
    abbrev holding : ℕ → ℕ → List ℕ → Board Line
    holding latch valid bs = record b {
      keys = record { keyboard_latch = latch; keyboard_strobe = 0; keyboard_latch_valid = valid };
      port = record b.port { waiting = bs };
    }

    abbrev Taken : Access → List Access → Bool → List ℕ → ℕ × Board Line → Type 0
    Taken a order announced keys t =
        (keys_taken announced ((a, t.0) ∷ (accesses order t.1).0)
            ++ keys_left (accesses order t.1).1
          ≡ keys)
        × (keeps_latch (accesses order t.1).1 ≡ true)

    none_held :
        (latch valid : ℕ) (bs : List ℕ)
        → (valid == 0) ≡ true
        → (access at_strobe (holding latch valid []) ≡ (0, holding latch valid []))
          × (access at_data (holding latch valid bs) ≡ (latch, holding latch valid bs))
    unfolding bus_read keyboard_read_strobe keyboard_read_data
    none_held latch valid bs h = rw h (refl, refl)

    next_held :
        (latch valid c : ℕ) (bs : List ℕ)
        → (valid == 0) ≡ true
        → access at_strobe (holding latch valid (c ∷ bs))
          ≡ (0x80, holding (bit_and (apple_key_from_uart c) 0x7f) 1 bs)
    unfolding bus_read keyboard_read_strobe
    next_held latch valid c bs h = rw h refl

    one_held :
        (latch valid : ℕ) (bs : List ℕ)
        → (valid == 0) ≡ false
        → (access at_strobe (holding latch valid bs) ≡ (0, holding latch valid bs))
          × (access at_data (holding latch valid bs) ≡ (bit_and latch 0x7f, holding latch 0 bs))
    unfolding bus_read keyboard_read_strobe keyboard_read_data
    one_held latch valid bs h = rw h (refl, refl)

    holding_lem :
        (order : List Access) (latch valid : ℕ) (bs : List ℕ) (empty : Bool)
        → (valid == 0) ≡ empty
        → (keys_taken (not empty) (accesses order (holding latch valid bs)).0
              ++ keys_left (accesses order (holding latch valid bs)).1
            ≡ left empty latch bs)
          × (keeps_latch (accesses order (holding latch valid bs)).1 ≡ true)
    unfolding accesses
    holding_lem [] latch valid bs empty h = (ap (λ (e : Bool). left e latch bs) h, refl)
    holding_lem (at_strobe ∷ order) latch valid [] true h =
        subst (Taken at_strobe order false (left true latch []))
          (sym (none_held latch valid [] h).0) (holding_lem order latch valid [] true h)
    holding_lem (at_strobe ∷ order) latch valid (c ∷ bs) true h =
        subst (Taken at_strobe order false (left true latch (c ∷ bs)))
          (sym (next_held latch valid c bs h))
          (rw (← key) (holding_lem order (bit_and (apple_key_from_uart c) 0x7f) 1 bs false refl))
      where
        key : bit_and (apple_key_from_uart c) 0x7f % 128 ≡ apple_key_from_uart c % 128
        key = omega (arith, bit_and_0x7f (apple_key_from_uart c))
    holding_lem (at_strobe ∷ order) latch valid bs false h =
        subst (Taken at_strobe order true (left false latch bs)) (sym (one_held latch valid bs h).0)
          (holding_lem order latch valid bs false h)
    holding_lem (at_data ∷ order) latch valid bs true h =
        subst (Taken at_data order false (left true latch bs)) (sym (none_held latch valid bs h).1)
          (holding_lem order latch valid bs true h)
    holding_lem (at_data ∷ order) latch valid bs false h =
        let rest = holding_lem order latch 0 bs true refl in
        subst (Taken at_data order true (left false latch bs)) (sym (one_held latch valid bs h).1) (
          ap (◌∷◌ (bit_and latch 0x7f)) rest.0
              ∙ ap (λ n. n ∷ left true latch bs) (bit_and_0x7f latch),
          rest.1,
        )

    abbrev strobed : ℕ → ℕ → ℕ → List ℕ → Board Line
    strobed latch strobe valid bs = record b {
      keys = record {
        keyboard_latch = latch;
        keyboard_strobe = strobe;
        keyboard_latch_valid = valid;
      };
      port = record b.port { waiting = bs };
    }

    strobe_held :
        (latch strobe valid : ℕ) (bs : List ℕ)
        → (strobe == 0) ≡ false
        → (access at_strobe (strobed latch strobe valid bs)
            ≡ (0x80, holding (bit_and latch 0x7f) valid bs))
          × (access at_data (strobed latch strobe valid bs)
              ≡ (latch, strobed latch strobe valid bs))
    unfolding bus_read keyboard_read_strobe keyboard_read_data
    strobe_held latch strobe valid bs h = rw h (refl, refl)

    strobed_lem :
        (order : List Access) (latch strobe valid : ℕ) (bs : List ℕ)
        → (strobe == 0) ≡ false
        → (valid == 0) ≡ false
        → (keys_taken false (accesses order (strobed latch strobe valid bs)).0
              ++ keys_left (accesses order (strobed latch strobe valid bs)).1
            ≡ left false latch bs)
          × (keeps_latch (accesses order (strobed latch strobe valid bs)).1 ≡ true)
    unfolding accesses
    strobed_lem [] latch strobe valid bs h v =
        (ap (λ (e : Bool). left e latch bs) v, rw (h, v) refl)
    strobed_lem (at_strobe ∷ order) latch strobe valid bs h v =
        subst (Taken at_strobe order false (left false latch bs))
          (sym (strobe_held latch strobe valid bs h).0)
          (rw (← key) (holding_lem order (bit_and latch 0x7f) valid bs false v))
      where
        key : bit_and latch 0x7f % 128 ≡ latch % 128
        key = omega (arith, bit_and_0x7f latch)
    strobed_lem (at_data ∷ order) latch strobe valid bs h v =
        subst (Taken at_data order false (left false latch bs))
          (sym (strobe_held latch strobe valid bs h).1)
          (strobed_lem order latch strobe valid bs h v)

  abbrev Delivers : List Access → Board Line → Type 0
  Delivers order b =
      (keys_taken (b.keys.keyboard_strobe == 0 && not (b.keys.keyboard_latch_valid == 0))
            (accesses order b).0
          ++ keys_left (accesses order b).1
        ≡ keys_left b)
      × (keeps_latch (accesses order b).1 ≡ true)

  -- From a board on which a strobed key is a latched one, a program reads $C010 and $C000 in
  -- whatever order, and takes a value of $C000 for a key if $C010 read $80 since the read of $C000
  -- before, or if a latched key was acknowledged at the start. The keys that it takes, and behind
  -- them those left, the latched one and those of the bytes on the line, are those left at the
  -- start: none is lost, taken twice or out of order. A strobed key is a latched one behind the
  -- reads too.
  pub accesses-keys_left :
      (order : List Access) (b : Board Line)
      → keeps_latch b ≡ true
      → (keys_taken
              (b.keys.keyboard_strobe == 0 && not (b.keys.keyboard_latch_valid == 0))
              (accesses order b).0
            ++ keys_left (accesses order b).1
          ≡ keys_left b)
        × (keeps_latch (accesses order b).1 ≡ true)
  accesses-keys_left order b h = elim (Bool-cases (b.keys.keyboard_strobe == 0)) [
    | inl e ↦
        subst (Delivers order)
          (λ t. record b { keys = record b.keys { keyboard_strobe = sym (==→eq _ 0 e) t } })
          (holding_lem b order b.keys.keyboard_latch b.keys.keyboard_latch_valid b.port.waiting _
            refl)
    | inr e ↦
        let v = latched e in
        rw (e, v)
          (strobed_lem b order b.keys.keyboard_latch b.keys.keyboard_strobe
            b.keys.keyboard_latch_valid b.port.waiting e v)
  ]
    where
      latched : (b.keys.keyboard_strobe == 0) ≡ false → (b.keys.keyboard_latch_valid == 0) ≡ false
      latched e = ground (arith, h, e)
