-- ===== src/Cpu/Ensures.antt =====
-- Postconditions of the core's transformers: on a bus with laws, a transformer keeps the registers
-- valid and the bus sound, and its result satisfies a predicate.
use sage_apple.Base.{ℕ, List, Bool, true, false, switch, switch_all, AllCases, if◌then◌else◌}
use sage_apple.Bus.{Bus, BusLaws}
use sage_apple.Cpu.Regs.{Regs}
use sage_apple.Cpu.Core.{Core, M, ◌>>=◌, ◌>>◌, ret, regs, modify, transformers}
use sage_apple.Cpu.Valid.{IsValid}

module _ {bus : Bus} (laws : BusLaws bus) where
  pub record IsSoundCore (c : Core bus.State) : Type 0 where
    pub valid : IsValid c.regs
    pub sound : laws.IsSound c.mem

  pub record Ensures {A : Type 0} (Q : A → Type 0) (m : M bus.State A) : Type 0 where
    pub keeps : (c : Core bus.State) → IsSoundCore c → IsSoundCore (m c).1
    pub gives : (c : Core bus.State) → IsSoundCore c → Q (m c).0

  abbrev pub Done : Unit {0} → Type 0
  Done u = Unit {0}

  pub Ensures-bind :
      {A B : Type 0} {Q : A → Type 0} {R : B → Type 0} {m : M bus.State A} {f : A → M bus.State B}
      → Ensures Q m
      → ((a : A) → Q a → Ensures R (f a))
      → Ensures R (m >>= f)
  unfolding transformers
  Ensures-bind {m} {f} first next = record {
    keeps = λ c h. (next (m c).0 (first.gives c h)).keeps (m c).1 (first.keeps c h);
    gives = λ c h. (next (m c).0 (first.gives c h)).gives (m c).1 (first.keeps c h);
  }

  pub Ensures-seq :
      {B : Type 0} {R : B → Type 0} {m : M bus.State (Unit {0})} {k : M bus.State B}
      → Ensures Done m
      → Ensures R k
      → Ensures R (m >> k)
  unfolding transformers
  Ensures-seq {m} {k} first next = record {
    keeps = λ c h. next.keeps (m c).1 (first.keeps c h);
    gives = λ c h. next.gives (m c).1 (first.keeps c h);
  }

  pub Ensures-ret : {A : Type 0} {Q : A → Type 0} (a : A) → Q a → Ensures Q (ret a)
  unfolding transformers
  Ensures-ret a q = record { keeps = λ c h. h; gives = λ c h. q }

  pub Ensures-regs : Ensures IsValid (regs {S = bus.State})
  unfolding transformers
  Ensures-regs = record { keeps = λ c h. h; gives = λ c h. h.valid }

  pub Ensures-modify :
      {f : Regs → Regs} → ((r : Regs) → IsValid r → IsValid (f r)) → Ensures Done (modify f)
  unfolding transformers
  Ensures-modify k = record {
    keeps = λ c h. record { valid = k c.regs h.valid; sound = h.sound };
    gives = λ c h. tt;
  }

  pub Ensures-if :
      {A : Type 0} {Q : A → Type 0} (b : Bool) {m k : M bus.State A}
      → Ensures Q m
      → Ensures Q k
      → Ensures Q (if b then m else k)
  Ensures-if true h g = h
  Ensures-if false h g = g

  pub Ensures-switch :
      {A : Type 0} {Q : A → Type 0} (id : ℕ) (cs : List (ℕ × M bus.State A)) {d : M bus.State A}
      → AllCases (Ensures Q) cs
      → Ensures Q d
      → Ensures Q (switch id cs d)
  Ensures-switch {Q} id cs {d} h g = switch_all (Ensures Q) id cs d h g

  pub Ensures-weaken :
      {A : Type 0} {Q R : A → Type 0} {m : M bus.State A}
      → ((a : A) → Q a → R a)
      → Ensures Q m
      → Ensures R m
  Ensures-weaken k h = record { keeps = h.keeps; gives = λ c g. k _ (h.gives c g) }
