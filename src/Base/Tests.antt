-- ===== src/Base/Tests.antt =====
-- Boolean tests on the native numbers, the conditional, and the C switch.
use Prim.Native.Nat.{ℕ, zero, suc, ◌≤◌, ◌<◌, compare, Ordering}
use mathlib.Core.Path.{◌≡◌, refl}
use mathlib.Core.Logic.{◌↔◌, ◌⊎◌, inl, inr}
use mathlib.Core.Bool.{Bool, true, false, ◌&&◌}
use mathlib.Core.List.{List, [], ◌∷◌}
use native.Mathlib.Omega.{arith}

abbrev pub ltb : ℕ → ℕ → Bool
ltb a b = elim (compare a b) [ Ordering.lt ↦ true | _ ↦ false ]

abbrev pub leb : ℕ → ℕ → Bool
leb a b = elim (compare a b) [ Ordering.gt ↦ false | _ ↦ true ]

infix 50 ◌==◌
abbrev pub ◌==◌ : ℕ → ℕ → Bool
a == b = elim (compare a b) [ Ordering.eq ↦ true | _ ↦ false ]

infix 1 if◌then◌else◌
abbrev pub if◌then◌else◌ {ℓ} : {A : Type ℓ} → Bool → A → A → A
if true then x else y = x
if false then x else y = y

-- `lo <= x && x <= hi`
abbrev pub between : ℕ → ℕ → ℕ → Bool
between lo hi x = if leb lo x then leb x hi else false

pub ltb→lt : (a b : ℕ) → ltb a b ≡ true → a < b
ltb→lt a b h = ground arith

pub lt→ltb : (a b : ℕ) → a < b → ltb a b ≡ true
lt→ltb a b h = ground arith

pub leb→le : (a b : ℕ) → leb a b ≡ true → a ≤ b
leb→le a b h = ground arith

pub ==_iff : (a b : ℕ) → ((a == b) ≡ true) ↔ (a ≡ b)
==_iff a b = ground arith

pub ==→eq : (a b : ℕ) → (a == b) ≡ true → a ≡ b
==→eq a b h = ground arith

pub Bool-cases : (b : Bool) → (b ≡ true) ⊎ (b ≡ false)
Bool-cases true = inl refl
Bool-cases false = inr refl

-- What holds of both branches holds of the conditional.
pub if_both {ℓ κ} :
    {A : Type ℓ} (P : A → Type κ) (b : Bool) {x y : A} → P x → P y → P (if b then x else y)
if_both P true p q = p
if_both P false p q = q

pub if_true {ℓ} : {A : Type ℓ} (b : Bool) (x y : A) → b ≡ true → (if b then x else y) ≡ x
if_true true x y h = refl
if_true false x y h = cc

pub if_false {ℓ} : {A : Type ℓ} (b : Bool) (x y : A) → b ≡ false → (if b then x else y) ≡ y
if_false true x y h = cc
if_false false x y h = refl

pub and_left : (a b : Bool) → (a && b) ≡ true → a ≡ true
and_left a b h = ground arith

pub and_right : (a b : Bool) → (a && b) ≡ true → b ≡ true
and_right a b h = ground arith

-- `switch (id) { case k: a; break; ... default: d }`
unfoldable pub switch {ℓ} : {A : Type ℓ} → ℕ → List (ℕ × A) → A → A
switch id [] d = d
switch id ((k, a) ∷ cs) d = if id == k then a else switch id cs d

abbrev pub AllCases {ℓ κ} : {A : Type ℓ} → (A → Type κ) → List (ℕ × A) → Type κ
AllCases P [] = Unit
AllCases P ((k, a) ∷ cs) = P a × AllCases P cs

-- What holds of every case and of the default holds of the switch.
pub switch_all {ℓ κ} :
    {A : Type ℓ} (P : A → Type κ) (id : ℕ) (cs : List (ℕ × A)) (d : A)
    → AllCases P cs
    → P d
    → P (switch id cs d)
unfolding switch
switch_all P id [] d h hd = hd
switch_all P id ((k, a) ∷ cs) d h hd = if_both P (id == k) h.0 (switch_all P id cs d h.1 hd)

-- Two lists of cases with the same numbers, and `P` between their bodies.
infixr 3 ◌▸◌
pub data Agree {ℓ κ} {A : Type ℓ} {B : Type κ} (P : A → B → Type 0)
    : List (ℕ × A) → List (ℕ × B) → Type (ℓ ⊔ κ) where
  agreed : Agree P [] []
  ◌▸◌ :
      {k : ℕ} {a : A} {b : B} {cs : List (ℕ × A)} {es : List (ℕ × B)}
      → P a b
      → Agree P cs es
      → Agree P ((k, a) ∷ cs) ((k, b) ∷ es)

pub if_agree {ℓ κ} :
    {A : Type ℓ} {B : Type κ} (P : A → B → Type 0) (b : Bool) (x y : A) (u v : B)
    → P x u
    → P y v
    → P (if b then x else y) (if b then u else v)
if_agree P true x y u v p q = p
if_agree P false x y u v p q = q

-- What holds between the bodies and between the defaults holds between the two switches.
pub switch_agree {ℓ κ} :
    {A : Type ℓ} {B : Type κ} (P : A → B → Type 0) (id : ℕ) (cs : List (ℕ × A)) (es : List (ℕ × B))
    (d : A) (e : B)
    → Agree P cs es
    → P d e
    → P (switch id cs d) (switch id es e)
unfolding switch
switch_agree P id _ _ d e agreed hd = hd
switch_agree P id _ _ d e (◌▸◌ {k} {a} {b} {cs} {es} h hs) hd =
    if_agree P (id == k) a _ b _ h (switch_agree P id cs es d e hs hd)

-- The same, where a body may use that its number is the one that is switched on.
infixr 3 ◌▹◌
pub data AgreeAt {ℓ κ} {A : Type ℓ} {B : Type κ} (id : ℕ) (P : A → B → Type 0)
    : List (ℕ × A) → List (ℕ × B) → Type (ℓ ⊔ κ) where
  agreed_at : AgreeAt id P [] []
  ◌▹◌ :
      {k : ℕ} {a : A} {b : B} {cs : List (ℕ × A)} {es : List (ℕ × B)}
      → ((id == k) ≡ true → P a b)
      → AgreeAt id P cs es
      → AgreeAt id P ((k, a) ∷ cs) ((k, b) ∷ es)

if_agree_at {ℓ κ} :
    {A : Type ℓ} {B : Type κ} (P : A → B → Type 0) (b : Bool) (x y : A) (u v : B)
    → (b ≡ true → P x u)
    → P y v
    → P (if b then x else y) (if b then u else v)
if_agree_at P true x y u v p q = p refl
if_agree_at P false x y u v p q = q

pub switch_agree_at {ℓ κ} :
    {A : Type ℓ} {B : Type κ} (P : A → B → Type 0) (id : ℕ) (cs : List (ℕ × A)) (es : List (ℕ × B))
    (d : A) (e : B)
    → AgreeAt id P cs es
    → P d e
    → P (switch id cs d) (switch id es e)
unfolding switch
switch_agree_at P id _ _ d e agreed_at hd = hd
switch_agree_at P id _ _ d e (◌▹◌ {k} {a} {b} {cs} {es} h hs) hd =
    if_agree_at P (id == k) a _ b _ h (switch_agree_at P id cs es d e hs hd)

-- A test of all numbers below a bound, by evaluation.
unfoldable pub all_below : ℕ → (ℕ → Bool) → Bool
all_below zero test = true
all_below (suc bound) test = if test bound then all_below bound test else false

pub all_below_sound :
    (bound : ℕ) (test : ℕ → Bool) (k : ℕ) → all_below bound test ≡ true → k < bound → test k ≡ true
unfolding all_below
all_below_sound (suc bound) test k passed below = ground (arith, all_below_sound bound test k)
all_below_sound zero test k passed below = absurd (omega arith)

-- equality of two lists of numbers
abbrev pub eq_bytes : List ℕ → List ℕ → Bool
eq_bytes [] [] = true
eq_bytes [] (b ∷ bs) = false
eq_bytes (a ∷ as') [] = false
eq_bytes (a ∷ as') (b ∷ bs) = if a == b then eq_bytes as' bs else false

pub eq_bytes→eq : (xs ys : List ℕ) → eq_bytes xs ys ≡ true → xs ≡ ys
eq_bytes→eq [] [] h = refl
eq_bytes→eq [] (b ∷ bs) h = cc
eq_bytes→eq (a ∷ as') [] h = cc
eq_bytes→eq (a ∷ as') (b ∷ bs) h = ground (arith, eq_bytes→eq as' bs)
