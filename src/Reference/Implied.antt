-- ===== src/Reference/Implied.antt =====
-- The core's operations without an operand, against the reference machine's.
use sage_apple.Base.{
  ◌▸◌, agreed, ℕ, ◌+◌, ◌-◌, ◌*◌, ◌%◌, ◌≡◌, refl, ap, ap₂, ◌∙◌, arith, true, false, bit_and, bit_or,
  bit_or-lt, bit_and_0xffff, u8, switch, switch_agree,
}
use sage_apple.Bus.{Bus, PlainLaws, peek}
use sage_apple.Cpu.Regs.{
  Regs, fl_b, fl_c, fl_d, fl_i, fl_v, set_flag, clear_flag, put_flag, load_a, load_x, load_y,
}
use sage_apple.Cpu.Core.{Core, M, transformers, ◌>>=◌, ret, modify, set_pc, push, pull, pull16}
use sage_apple.Cpu.Exec.{op0_op, implied_cases, rts, brk, rti}
use sage_apple.Cpu.Valid.{IsValid, set_pc-IsValid}
use sage_apple.Cpu.Status.{Flags, flags, flags-put_c, flags-put_d, flags-put_i, flags-put_v}
use sage_apple.Reference.State.{State, view, view_core, status_byte, flags_of}
use sage_apple.Reference.Registers.{load_a-put_a, load_x-put_x, load_y-put_y}
use sage_apple.Reference.Status.{pushed_brk, pulled_flags}
use sage_apple.Reference.Stack.{core, moved, push_plain, push16_plain, pull_plain, pull16_plain}
use sage_apple.Reference.Values.{put_a, put_x, put_y}
use sage_apple.Reference.Execute.{
  implieds, entered, with_status, pushed, pushed, popped, top, to_pc,
}
use sage_apple.Reference.Handler.{handler, enter_plain}

module _ {bus : Bus} (laws : PlainLaws bus) where
  module _ (r : Regs) (s : bus.State) (valid : IsValid r) (plain : laws.IsPlain s) where
    -- `m`, from these registers and this memory, leaves what the state `t` shows
    abbrev pub Shows : M bus.State (Unit {0}) → State bus.State → Type 0
    Shows m t = view_core (m (core bus r s)).1 ≡ t

    flag-Shows :
        (p : ℕ) (f : Flags)
        → flags p ≡ f
        → Shows (modify (λ r. record r { p = p })) (record (view r s) { status = f })
    unfolding modify
    flag-Shows p f h = ap (λ (f : Flags). record (view r s) { status = f }) h

    clear-Shows :
        (k : ℕ) (f : Flags)
        → flags (put_flag k false r.p) ≡ f
        → Shows (modify (λ r. record r { p = clear_flag k r.p })) (record (view r s) { status = f })
    unfolding put_flag modify
    clear-Shows k f h = flag-Shows (clear_flag k r.p) f h

    set-Shows :
        (k : ℕ) (f : Flags)
        → flags (put_flag k true r.p) ≡ f
        → Shows (modify (λ r. record r { p = set_flag k r.p })) (record (view r s) { status = f })
    unfolding put_flag modify
    set-Shows k f h = flag-Shows (set_flag k r.p) f h

    dex-Shows : Shows (modify (load_x (u8 (r.x + 256 - 1)))) (put_x ((r.x + 255) % 256) (view r s))
    unfolding modify
    dex-Shows =
        ap (λ (v : ℕ). view (load_x v r) s) less
        ∙ load_x-put_x s ((r.x + 255) % 256) r (omega arith)
      where
        less : u8 (r.x + 256 - 1) ≡ (r.x + 255) % 256
        less = omega arith

    dey-Shows : Shows (modify (load_y (u8 (r.y + 256 - 1)))) (put_y ((r.y + 255) % 256) (view r s))
    unfolding modify
    dey-Shows =
        ap (λ (v : ℕ). view (load_y v r) s) less
        ∙ load_y-put_y s ((r.y + 255) % 256) r (omega arith)
      where
        less : u8 (r.y + 256 - 1) ≡ (r.y + 255) % 256
        less = omega arith

    pushed-Shows : (v w : ℕ) → v ≡ w → Shows (push bus v) (pushed bus w (view r s))
    pushed-Shows v w h =
        ap (λ (t : Unit {0} × Core bus.State). view_core t.1) (push_plain bus v r s valid.sp_byte)
        ∙ ap (λ (q : ℕ). pushed bus q (view r s)) h

    pla-Shows :
        Shows
          (pull bus >>= (λ v. modify (load_a v)))
          (put_a (top bus 1 (view r s)) (popped bus 1 (view r s)))
    unfolding transformers
    pla-Shows =
        ap (λ (t : ℕ × Core bus.State). view (load_a t.0 t.1.regs) t.1.mem)
          (pull_plain bus laws r s valid.sp_byte plain)
        ∙ load_a-put_a s (top bus 1 (view r s)) (moved bus 1 r) (laws.peek-lt _ s plain)

    plp-Shows :
        Shows
          (pull bus >>= (λ v. modify (λ r. record r { p = bit_or v 0x20 })))
          (with_status bus (flags_of (top bus 1 (view r s))) (popped bus 1 (view r s)))
    unfolding transformers
    plp-Shows =
        ap (λ (t : ℕ × Core bus.State). view (record t.1.regs { p = bit_or t.0 0x20 }) t.1.mem)
          (pull_plain bus laws r s valid.sp_byte plain)
        ∙ ap (λ (f : Flags). with_status bus f (popped bus 1 (view r s)))
            (pulled_flags (top bus 1 (view r s)) (laws.peek-lt _ s plain))

    rts-Shows : Shows (rts bus) (
        to_pc bus
          ((top bus 1 (view r s) + 256 * top bus 2 (view r s) + 1) % 65536)
          (popped bus 2 (view r s)))
    unfolding rts set_pc transformers
    rts-Shows =
        ap
          (λ (t : ℕ × Core bus.State).
            view (record t.1.regs { pc = bit_and (t.0 + 1) 0xffff }) t.1.mem)
          (pull16_plain bus laws r s valid.sp_byte plain)
        ∙ ap (λ (pc : ℕ). to_pc bus pc (popped bus 2 (view r s))) (bit_and_0xffff _)

    -- the registers of RTI with the status byte pulled
    restored : Regs
    restored = record (moved bus 1 r) { p = bit_or (top bus 1 (view r s)) 0x20 }

    rti-Shows : Shows (rti bus) (
        to_pc bus
          (top bus 2 (view r s) + 256 * top bus 3 (view r s))
          (with_status bus (flags_of (top bus 1 (view r s))) (popped bus 3 (view r s))))
    unfolding rti set_pc transformers restored
    rti-Shows =
        ap after_status (pull_plain bus laws r s valid.sp_byte plain)
        ∙ (ap after_pc (pull16_plain bus laws restored s (omega arith) plain)
            ∙ ap₂ shown (pulled_flags (top bus 1 (view r s)) (laws.peek-lt _ s plain)) places)
      where
        after_status : ℕ × Core bus.State → State bus.State
        after_status t =
            let u = pull16 bus (record t.1 { regs = record t.1.regs { p = bit_or t.0 0x20 } }) in
            view_core (record u.1 { regs = set_pc u.0 u.1.regs })

        after_pc : ℕ × Core bus.State → State bus.State
        after_pc t = view_core (record t.1 { regs = record t.1.regs { pc = t.0 } })

        shown : Flags → ℕ × (ℕ × ℕ) → State bus.State
        shown f w = record (view r s) {
          status = f;
          sp = w.0;
          pc = peek bus s (256 + w.1.0) + 256 * peek bus s (256 + w.1.1);
        }

        places :
            Path {0}
              (ℕ × (ℕ × ℕ))
              (
                ((r.sp + 1) % 256 + 2) % 256,
                (((r.sp + 1) % 256 + 1) % 256, ((r.sp + 1) % 256 + 2) % 256),
              )
              ((r.sp + 3) % 256, ((r.sp + 2) % 256, (r.sp + 3) % 256))
        places = ground arith

    brk-Shows : Shows (brk bus) (entered bus 1 0xfffe (to_pc bus ((r.pc + 1) % 65536) (view r s)))
    unfolding brk set_pc transformers
    brk-Shows =
        ap
          (λ (t : Unit {0} × Core bus.State).
            view_core (handler laws (bit_or (bit_or r.p 0x20) fl_b) 0xfffe t.1).1)
          (push16_plain bus next behind s valid.sp_byte)
        ∙ enter_plain laws (bit_or (bit_or r.p 0x20) fl_b) 1 0xfffe behind s
            (pushed_brk r.p valid.p_byte)
            (bit_or-lt 8 (bit_or r.p 0x20) fl_b (bit_or-lt 8 r.p 0x20 valid.p_byte (omega arith))
              (omega arith))
            (omega arith) (set_pc-IsValid next r (omega arith) valid) plain
      where
        next : ℕ
        next = (r.pc + 1) % 65536

        behind : Regs
        behind = set_pc next r

    pub op0_op-implieds :
        (id : ℕ) → Shows (op0_op bus id) (switch id (implieds bus (view r s)) (view r s))
    unfolding op0_op modify transformers clear_flag
    op0_op-implieds id =
        switch_agree Shows id (implied_cases bus r) (implieds bus (view r s)) (ret tt) (view r s)
          (load_x-put_x s r.a r valid.a_byte
            ▸ load_a-put_a s r.x r valid.x_byte
            ▸ load_y-put_y s r.a r valid.a_byte
            ▸ load_a-put_a s r.y r valid.y_byte
            ▸ load_x-put_x s r.sp r valid.sp_byte
            ▸ refl
            ▸ pushed-Shows r.a r.a refl
            ▸ pushed-Shows _ (status_byte 1 (flags r.p)) (pushed_brk r.p valid.p_byte)
            ▸ pla-Shows
            ▸ plp-Shows
            ▸ load_x-put_x s (u8 (r.x + 1)) r (omega arith)
            ▸ load_y-put_y s (u8 (r.y + 1)) r (omega arith)
            ▸ dex-Shows
            ▸ dey-Shows
            ▸ rts-Shows
            ▸ brk-Shows
            ▸ rti-Shows
            ▸ clear-Shows fl_c _ (flags-put_c false r.p)
            ▸ clear-Shows fl_d _ (flags-put_d false r.p)
            ▸ clear-Shows fl_i _ (flags-put_i false r.p)
            ▸ clear-Shows fl_v _ (flags-put_v false r.p)
            ▸ set-Shows fl_c _ (flags-put_c true r.p)
            ▸ set-Shows fl_d _ (flags-put_d true r.p)
            ▸ set-Shows fl_i _ (flags-put_i true r.p)
            ▸ agreed)
          refl
