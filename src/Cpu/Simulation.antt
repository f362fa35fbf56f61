-- ===== src/Cpu/Simulation.antt =====
-- The core on two buses of which one simulates the other: transformers that do the same on both.
pub mod Access
pub mod Operations
pub mod Machine
use sage_apple.Base.{ℕ, ◌≡◌, refl, sym, subst, Bool, true, false, if◌then◌else◌}
use sage_apple.Bus.{Bus}
use sage_apple.Cpu.Regs.{Regs}
use sage_apple.Cpu.Core.{Core, M, ◌>>=◌, ◌>>◌, ret, regs, modify, transformers, bus_read, bus_write}

-- A relation between the states of two buses, in which a read gives the same on both and which
-- reads and writes keep.
pub record Simulation (a b : Bus) : Type 1 where
  pub Rel : a.State → b.State → Type 0
  pub same_read :
      (addr : ℕ) (s : a.State) (t : b.State) → Rel s t → (a.read addr s).0 ≡ (b.read addr t).0
  pub read-Rel :
      (addr : ℕ) (s : a.State) (t : b.State) → Rel s t → Rel (a.read addr s).1 (b.read addr t).1
  pub write-Rel :
      (addr v : ℕ) (s : a.State) (t : b.State) → Rel s t → Rel (a.write addr v s) (b.write addr v t)

module _ {a b : Bus} (sim : Simulation a b) where
  -- two cores with the same registers and related buses
  pub record Alike (c : Core a.State) (d : Core b.State) : Type 0 where
    pub same_regs : c.regs ≡ d.regs
    pub related : sim.Rel c.mem d.mem

  -- two results, with the cores behind them
  abbrev pub Agree : {A : Type 0} → A × Core a.State → A × Core b.State → Type 0
  Agree u v = (u.0 ≡ v.0) × Alike u.1 v.1

  -- from alike cores, `m` and `n` give the same and leave alike cores
  pub record Similar {A : Type 0} (m : M a.State A) (n : M b.State A) : Type 0 where
    pub agree :
        (r : Regs) (s : a.State) (t : b.State)
        → sim.Rel s t
        → Agree (m (record { regs = r; mem = s })) (n (record { regs = r; mem = t }))

  -- Similar transformers do the same from alike cores.
  pub run-Alike :
      {A : Type 0} (m : M a.State A) (n : M b.State A) (c : Core a.State) (d : Core b.State)
      → Similar m n
      → Alike c d
      → Agree (m c) (n d)
  run-Alike m n c d h same =
      subst (λ (r : Regs). Agree (m c) (n (record { regs = r; mem = d.mem }))) same.same_regs
        (h.agree c.regs c.mem d.mem same.related)

  pub Similar-bind :
      {A B : Type 0} {m : M a.State A} {n : M b.State A} {f : A → M a.State B} {g : A → M b.State B}
      → Similar m n
      → ((x : A) → Similar (f x) (g x))
      → Similar (m >>= f) (n >>= g)
  unfolding transformers
  Similar-bind {m} {n} {f} {g} first next = record {
    agree = λ r s t h.
        let u = m (record { regs = r; mem = s }) in
        let v = n (record { regs = r; mem = t }) in
        subst (λ x. Agree (f u.0 u.1) (g x v.1)) (first.agree r s t h).0
          (run-Alike (f u.0) (g u.0) u.1 v.1 (next u.0) (first.agree r s t h).1);
  }

  pub Similar-seq :
      {B : Type 0} {m : M a.State (Unit {0})} {n : M b.State (Unit {0})} {k : M a.State B}
      {l : M b.State B}
      → Similar m n
      → Similar k l
      → Similar (m >> k) (n >> l)
  unfolding transformers
  Similar-seq {m} {n} {k} {l} first next = record {
    agree = λ r s t h. run-Alike k l _ _ next (first.agree r s t h).1;
  }

  pub Similar-ret : {A : Type 0} (x : A) → Similar (ret x) (ret x)
  unfolding ret
  Similar-ret x = record { agree = λ r s t h. (refl, record { same_regs = refl; related = h }) }

  pub Similar-regs : Similar regs regs
  unfolding regs
  Similar-regs = record { agree = λ r s t h. (refl, record { same_regs = refl; related = h }) }

  pub Similar-modify : (f : Regs → Regs) → Similar (modify f) (modify f)
  unfolding modify
  Similar-modify f = record { agree = λ r s t h. (refl, record { same_regs = refl; related = h }) }

  pub Similar-if :
      {A : Type 0} (test : Bool) {m k : M a.State A} {n l : M b.State A}
      → Similar m n
      → Similar k l
      → Similar (if test then m else k) (if test then n else l)
  Similar-if true p q = p
  Similar-if false p q = q

  pub Similar-read : (addr : ℕ) → Similar (bus_read a addr) (bus_read b addr)
  unfolding bus_read
  Similar-read addr = record {
    agree = λ r s t h.
        (sim.same_read addr s t h, record { same_regs = refl; related = sim.read-Rel addr s t h });
  }

  pub Similar-write : (addr v : ℕ) → Similar (bus_write a addr v) (bus_write b addr v)
  unfolding bus_write
  Similar-write addr v = record {
    agree = λ r s t h. (refl, record { same_regs = refl; related = sim.write-Rel addr v s t h });
  }
