-- ===== src/Machine/Requests.antt =====
-- What the devices do to the processor's state: only its interrupt flags change.
use gameboi.Base.{
  ℕ, ◌+◌, ◌-◌, ◌≡◌, Bool, true, false, not, ◌==◌, leb, if◌then◌else◌, u8, u16, u32, sub8, below8,
  is_positive8, refl, ◌∙◌,
}
use gameboi.Cpu.State.{Cpu}
use gameboi.Cpu.Interrupt
use gameboi.Cpu.Request.{request_interrupt as request_of_cpu}
use gameboi.Timer.{Timer}
use gameboi.Timer
use gameboi.Link.{Link, Mode}
use gameboi.Link
use gameboi.Ppu.Irq
use gameboi.Ppu.State.{Ppu, Chip, request_interrupt, compare_coincidence, set_ly}
use gameboi.Ppu.Tick.{
  total_line_cycles, request_if, next_line, enter_v_blank, raised_oam, count_line, early_zero,
  leave_v_blank, tick_v_blank, enter_h_blank,
}

-- All of the processor's state but the flags.
abbrev pub unflagged : Cpu → Cpu
unflagged c = record c { interrupt_flags = 0 }

abbrev pub rest : Chip → Cpu
rest chip = unflagged chip.1

pub either {ℓ κ} :
    {A : Type ℓ} {B : Type κ} (f : A → B) (t : Bool) {x y : A} {v : B}
    → f x ≡ v
    → f y ≡ v
    → f (if t then x else y) ≡ v
either f true h1 h2 = h1
either f false h1 h2 = h2

unflagged-request : (request : ℕ) (c : Cpu) → unflagged (request_of_cpu request c) ≡ unflagged c
unfolding request_of_cpu
unflagged-request request c = refl

rest-request_interrupt :
    (type : ℕ) (p : Ppu) (c : Cpu) → rest (request_interrupt type (p, c)) ≡ unflagged c
unfolding request_interrupt
rest-request_interrupt type p c =
    either unflagged (Irq.none p.interrupt_request) (unflagged-request Interrupt.lcd_stat c) refl

rest-request_if :
    (on : Bool) (type : ℕ) (p : Ppu) (c : Cpu) → rest (request_if on type (p, c)) ≡ unflagged c
rest-request_if true type p c = rest-request_interrupt type p c
rest-request_if false type p c = refl

rest-compare_coincidence : (p : Ppu) (c : Cpu) → rest (compare_coincidence (p, c)) ≡ unflagged c
unfolding compare_coincidence
rest-compare_coincidence p c =
    either rest (p.ly == p.lyc) (either rest _ (rest-request_interrupt Irq.coincidence _ c) refl)
      refl

rest-set_ly : (ly : ℕ) (p : Ppu) (c : Cpu) → rest (set_ly ly (p, c)) ≡ unflagged c
unfolding set_ly
rest-set_ly ly p c = rest-compare_coincidence (record p { ly = ly }) c

pub rest-next_line : (p : Ppu) (c : Cpu) → rest (next_line (p, c)) ≡ unflagged c
unfolding next_line
rest-next_line p c = rest-set_ly _ _ c

pub rest-enter_v_blank : (p : Ppu) (c : Cpu) → rest (enter_v_blank (p, c)) ≡ unflagged c
unfolding enter_v_blank
rest-enter_v_blank p c =
    rest-request_if _ Irq.v_blank _ (request_of_cpu Interrupt.lcd_vblank c)
    ∙ unflagged-request Interrupt.lcd_vblank c

pub rest-raised_oam : (p : Ppu) (c : Cpu) → rest (raised_oam (p, c)) ≡ unflagged c
rest-raised_oam p c = rest-request_if _ Irq.oam p c

rest-count_line : (cycles : ℕ) (p : Ppu) (c : Cpu) → rest (count_line cycles (p, c)) ≡ unflagged c
unfolding count_line
rest-count_line cycles p c =
    let secondary = u32 (p.secondary_cycle_count + cycles) in
    let line = u8 (p.vblank_line + 1) in
    let counted = record p {
      secondary_cycle_count = secondary - total_line_cycles;
      vblank_line = line;
    } in
    either rest (leb total_line_cycles secondary)
      (either rest (below8 line 10) (rest-set_ly (u8 (p.ly + 1)) counted c) refl) refl

rest-early_zero : (p : Ppu) (c : Cpu) → rest (early_zero (p, c)) ≡ unflagged c
unfolding early_zero
rest-early_zero p c = either rest _ (rest-set_ly 0 p c) refl

rest-leave_v_blank : (p : Ppu) (c : Cpu) → rest (leave_v_blank (p, c)) ≡ unflagged c
unfolding leave_v_blank
rest-leave_v_blank p c = rest-raised_oam _ c

pub rest-tick_v_blank :
    (cycles : ℕ) (p : Ppu) (c : Cpu) → rest (tick_v_blank cycles (p, c)) ≡ unflagged c
unfolding tick_v_blank
rest-tick_v_blank cycles p c =
    let one = count_line cycles (p, c) in
    let two = early_zero one in
    let kept = rest-early_zero (one.0) (one.1) ∙ rest-count_line cycles p c in
    either rest _ (rest-leave_v_blank (two.0) (two.1) ∙ kept) kept

pub rest-enter_h_blank : (p : Ppu) (c : Cpu) → rest (enter_h_blank (p, c)) ≡ unflagged c
unfolding enter_h_blank
rest-enter_h_blank p c = rest-request_if _ Irq.h_blank _ c

pub unflagged-timer :
    (cycles : ℕ) (t : Timer) (c : Cpu) → unflagged (Timer.tick cycles (t, c)).1 ≡ unflagged c
unfolding Timer.tick
unflagged-timer cycles t c =
    let t' = Timer.update_internal_clock (u16 (t.internal_clock + cycles)) t in
    let left = sub8 t'.tima_reload_cycles cycles in
    either (λ (x : Timer × Cpu). unflagged x.1) (is_positive8 t'.tima_reload_cycles)
      (either (λ (x : Timer × Cpu). unflagged x.1) (below8 left 1)
        {x = (
          record t' { tima_reload_cycles = 0; tima = t'.tma },
          request_of_cpu Interrupt.timer c,
        )}
        {y = (record t' { tima_reload_cycles = left }, c)} (unflagged-request Interrupt.timer c)
        refl)
      refl

unflagged-count_bit : (l : Link) (c : Cpu) → unflagged (Link.count_bit (l, c)).1 ≡ unflagged c
unfolding Link.count_bit
unflagged-count_bit l c =
    either (λ (x : Link × Cpu). unflagged x.1) _ (unflagged-request Interrupt.serial c) refl

unflagged-advance :
    (cycles : ℕ) (l : Link) (c : Cpu) → unflagged (Link.advance cycles (l, c)).1 ≡ unflagged c
unfolding Link.advance
unflagged-advance cycles l c =
    either (λ (x : Link × Cpu). unflagged x.1) _ (unflagged-count_bit _ c) refl

abbrev clocked : Mode → ℕ → Link × Cpu → Link × Cpu
clocked mode cycles x = elim mode [ Mode.internal ↦ Link.advance cycles x | Mode.external ↦ x ]

unflagged-clocked :
    (mode : Mode) (cycles : ℕ) (l : Link) (c : Cpu)
    → unflagged (clocked mode cycles (l, c)).1 ≡ unflagged c
unflagged-clocked Mode.internal cycles l c = unflagged-advance cycles l c
unflagged-clocked Mode.external cycles l c = refl

pub unflagged-link :
    (cycles : ℕ) (l : Link) (c : Cpu) → unflagged (Link.tick cycles (l, c)).1 ≡ unflagged c
unfolding Link.tick
unflagged-link cycles l c =
    either (λ (x : Link × Cpu). unflagged x.1) (not (Link.is_transferring l)) {x = (l, c)}
      {y = clocked (Link.clock_mode l) cycles (l, c)} refl
      (unflagged-clocked (Link.clock_mode l) cycles l c)
