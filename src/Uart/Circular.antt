-- ===== src/Uart/Circular.antt =====
-- A circular buffer of any capacity, as both FIFOs have one: the bytes that stand between its
-- indices, when a byte is appended and when the first is taken.
use sage_apple.Base.{
  ℕ, zero, suc, ◌+◌, ◌-◌, ◌<◌, ◌≤◌, ◌≡◌, ◌≢◌, refl, ap, ap₂, ◌∙◌, arith, List, [], ◌∷◌, ◌++◌,
  length, get_or, set, get_or-set_self, get_or-set_ne, leb, ◌==◌, if◌then◌else◌,
}

module _ (capacity : ℕ) where
  -- the index behind `i`, and how many bytes stand from `h` up to `t`
  abbrev pub next : ℕ → ℕ
  next i = if i + 1 == capacity then 0 else i + 1

  abbrev pub distance : ℕ → ℕ → ℕ
  distance h t = if leb h t then t - h else t + capacity - h

  -- the `n` bytes from index `h` on, around the end of the buffer
  unfoldable bytes_from : ℕ → ℕ → List ℕ → List ℕ
  bytes_from zero h buf = []
  bytes_from (suc n) h buf = get_or buf h 0 ∷ bytes_from n (next h) buf

  -- the bytes from index `h` up to index `t`
  unfoldable pub held : ℕ → ℕ → List ℕ → List ℕ
  unfolding bytes_from
  held h t buf = bytes_from (distance h t) h buf

  length-bytes_from : (n h : ℕ) (buf : List ℕ) → length (bytes_from n h buf) ≡ n
  unfolding bytes_from
  length-bytes_from zero h buf = refl
  length-bytes_from (suc n) h buf = ap suc (length-bytes_from n (next h) buf)

  pub length-held : (h t : ℕ) (buf : List ℕ) → length (held h t buf) ≡ distance h t
  unfolding held
  length-held h t buf = length-bytes_from (distance h t) h buf

  -- A write at `t` leaves the bytes before it.
  bytes_from-set :
      (n h t v : ℕ) (buf : List ℕ)
      → h < capacity
      → t < capacity
      → n ≤ distance h t
      → bytes_from n h (set buf t v) ≡ bytes_from n h buf
  unfolding bytes_from
  bytes_from-set zero h t v buf hh ht le = refl
  bytes_from-set (suc n) h t v buf hh ht le =
      ap₂ ◌∷◌ (get_or-set_ne buf t h v 0 (ground arith))
        (bytes_from-set n (next h) t v buf (ground arith) ht (ground arith))

  -- The bytes up to and with the one at `t`.
  bytes_from-snoc :
      (n h t : ℕ) (buf : List ℕ)
      → h < capacity
      → t < capacity
      → n ≡ distance h t
      → bytes_from (suc n) h buf ≡ bytes_from n h buf ++ get_or buf t 0 ∷ []
  unfolding bytes_from
  bytes_from-snoc zero h t buf hh ht e = ap (λ (i : ℕ). get_or buf i 0 ∷ []) at
    where
      at : h ≡ t
      at = ground arith
  bytes_from-snoc (suc n) h t buf hh ht e =
      ap (◌∷◌ (get_or buf h 0)) (bytes_from-snoc n (next h) t buf (ground arith) ht (ground arith))

  -- A byte written at `t` stands behind the others, when there is room for it.
  pub held-set :
      (h t v : ℕ) (buf : List ℕ)
      → h < capacity
      → t < capacity
      → t < length buf
      → next t ≢ h
      → held h (next t) (set buf t v) ≡ held h t buf ++ v ∷ []
  unfolding held
  held-set h t v buf hh ht inside room =
      ap (λ (n : ℕ). bytes_from n h (set buf t v)) grown
      ∙ (bytes_from-snoc (distance h t) h t (set buf t v) hh ht refl
          ∙ ap₂ (λ (xs : List ℕ) (x : ℕ). xs ++ x ∷ [])
              (bytes_from-set (distance h t) h t v buf hh ht (omega arith))
              (get_or-set_self buf t v 0 inside))
    where
      grown : distance h (next t) ≡ suc (distance h t)
      grown = ground arith

  pub held_nothing : (h : ℕ) (buf : List ℕ) → held h h buf ≡ []
  unfolding held bytes_from
  held_nothing h buf = ap (λ (n : ℕ). bytes_from n h buf) none_left
    where
      none_left : distance h h ≡ 0
      none_left = ground arith

  pub held_first :
      (h t : ℕ) (buf : List ℕ)
      → h < capacity
      → t < capacity
      → h ≢ t
      → held h t buf ≡ get_or buf h 0 ∷ held (next h) t buf
  unfolding held bytes_from
  held_first h t buf hh ht ne = ap (λ (n : ℕ). bytes_from n h buf) more
    where
      more : distance h t ≡ suc (distance (next h) t)
      more = ground arith
