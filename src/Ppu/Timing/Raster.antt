-- ===== src/Ppu/Timing/Raster.antt =====
-- `tick` as a machine on the timing alone.
use gameboi.Base.{
  ℕ, ◌+◌, ◌-◌, ◌≡◌, Bool, true, false, not, ◌&&◌, ◌==◌, leb, List, [], ◌∷◌, if◌then◌else◌, u8, u32,
  sub8, arith, refl, ap, ◌∙◌,
}
use gameboi.Ppu.Irq
use gameboi.Ppu.Stat.{StatMode}
use gameboi.Ppu.State.{Ppu, Chip, reset_interrupt_requests}
use gameboi.Ppu.Screen.{Screen, IsLawful, on_ppu, on_chip}
use gameboi.Ppu.Tick.{
  next_line, enter_v_blank, raised_oam, tick_v_blank, tick_reading_oam, enter_h_blank,
  start_v_blank, leave_h_blank, render_line, tick_reading_oam_vram, tick_mode, tick, tick_disabled,
}
use gameboi.Ppu.Dma.{hdma}
use gameboi.Ppu.Render.{render}
use gameboi.Ppu.Timing.{
  Timing, timing, v_blank_step, timing-next_line, timing-enter_v_blank, timing-raised_oam,
  timing-tick_v_blank, timing-tick_reading_oam, timing-enter_h_blank, timing-render,
  timing-reset_interrupt_requests,
}

abbrev h_blank_step : Timing → Timing
h_blank_step t =
    let line = u8 (t.ly + 1) in
    let next = record t { ly = line; cycles = t.cycles - 204; mode = StatMode.reading_oam } in
    if leb 204 t.cycles
    then if line == 144
      then record next { mode = StatMode.v_blank; secondary = t.cycles - 204; line = 0 }
      else next
    else t

abbrev step_in : ℕ → StatMode → Timing → Timing
step_in cycles StatMode.h_blank t = h_blank_step t
step_in cycles StatMode.v_blank t = v_blank_step cycles t
step_in cycles StatMode.reading_oam t =
    if leb 80 t.cycles
    then record t { mode = StatMode.reading_oam_vram; cycles = t.cycles - 80 }
    else t
step_in cycles StatMode.reading_oam_vram t =
    if leb 172 t.cycles then record t { mode = StatMode.h_blank; cycles = t.cycles - 172 } else t

-- A tick of the unit while the screen is on.
abbrev pub advance : ℕ → Timing → Timing
advance cycles t = step_in cycles t.mode (record t { cycles = u32 (t.cycles + cycles) })

pub skipped {ℓ} : {A : Type ℓ} (t : Bool) → t ≡ false → (x y : A) → (if t then x else y) ≡ y
skipped true e x y = absurd (ground arith)
skipped false e x y = refl

pub kept_on {ℓ} : {A : Type ℓ} (t : Bool) → t ≡ true → (x y : A) → (if not t then x else y) ≡ y
kept_on true e x y = refl
kept_on false e x y = absurd (ground arith)

module _ {W : Type 0} (s : Screen W) (lawful : IsLawful s) where
  open lawful use {ppu-with_ppu, ppu-with_cpu, ppu-on_render_line, ppu-on_vblank}

  abbrev at : W → Timing
  at w = timing (s.ppu w)

  ppu-on_ppu : (f : Ppu → Ppu) (w : W) → s.ppu (on_ppu s f w) ≡ f (s.ppu w)
  ppu-on_ppu f w = ppu-with_ppu (f (s.ppu w)) w

  ppu-on_chip : (f : Chip → Chip) (w : W) → s.ppu (on_chip s f w) ≡ (f (s.ppu w, s.bus.cpu w)).0
  ppu-on_chip f w = ppu-with_ppu _ _

  at-either :
      (t : Bool) (w1 w2 : W) (v : Timing) → at w1 ≡ v → at w2 ≡ v → at (if t then w1 else w2) ≡ v
  at-either true w1 w2 v h1 h2 = h1
  at-either false w1 w2 v h1 h2 = h2

  at-choice :
      (t : Bool) (w1 w2 : W) (v1 v2 : Timing)
      → at w1 ≡ v1
      → at w2 ≡ v2
      → at (if t then w1 else w2) ≡ (if t then v1 else v2)
  at-choice true w1 w2 v1 v2 h1 h2 = h1
  at-choice false w1 w2 v1 v2 h1 h2 = h2

  abbrev blanked : Timing → Timing
  blanked t = record t { mode = StatMode.v_blank; secondary = t.cycles; line = 0 }

  at-start_v_blank : (w : W) → at (start_v_blank s w) ≡ blanked (at w)
  unfolding start_v_blank
  at-start_v_blank w =
      let w' = on_chip s enter_v_blank w in
      let entered =
        ap timing (ppu-on_chip enter_v_blank w) ∙ timing-enter_v_blank (s.ppu w) (s.bus.cpu w) in
      at-either _ _ _ _
        (ap timing (
            ppu-on_ppu
              (λ p. record p {
                lcd_enable_delay_frame_count = sub8 p.lcd_enable_delay_frame_count 1;
              })
              w')
          ∙ entered)
        (ap timing (ppu-on_vblank w') ∙ entered)

  at-on_ppu-reset :
      (types : List ℕ) (w : W) → at (on_ppu s (reset_interrupt_requests types) w) ≡ at w
  at-on_ppu-reset types w =
      ap timing (ppu-on_ppu (reset_interrupt_requests types) w)
      ∙ timing-reset_interrupt_requests types (s.ppu w)

  at-on_chip-raised_oam : (w : W) → at (on_chip s raised_oam w) ≡ at w
  at-on_chip-raised_oam w =
      ap timing (ppu-on_chip raised_oam w) ∙ timing-raised_oam (s.ppu w) (s.bus.cpu w)

  abbrev next : Timing → Timing
  next t = record t { ly = u8 (t.ly + 1); cycles = t.cycles - 204; mode = StatMode.reading_oam }

  pub at-on_chip-next_line : (w : W) → at (on_chip s next_line w) ≡ next (at w)
  at-on_chip-next_line w =
      ap timing (ppu-on_chip next_line w) ∙ timing-next_line (s.ppu w) (s.bus.cpu w)

  abbrev begun : Timing → Timing
  begun t = if t.ly == 144 then blanked t else t

  at-leave_h_blank :
      (w : W) → (at w).transfers ≡ false → at (leave_h_blank s w) ≡ begun (next (at w))
  unfolding leave_h_blank
  at-leave_h_blank w quiet =
      let w1 = on_chip s next_line w in
      let one = at-on_chip-next_line w in
      let quiet1 : (at w1).transfers ≡ false = ap (λ t. t.transfers) one ∙ quiet in
      let w2 = if (at w1).transfers then hdma s w1 else w1 in
      let w3 = on_ppu s (reset_interrupt_requests (Irq.v_blank ∷ Irq.oam ∷ [])) w2 in
      let two : at w2 ≡ next (at w) =
        ap at (skipped (at w1).transfers quiet1 (hdma s w1) w1) ∙ one in
      let three = at-on_ppu-reset (Irq.v_blank ∷ Irq.oam ∷ []) w2 ∙ two in
      at-on_ppu-reset (Irq.h_blank ∷ []) _
      ∙ at-choice ((at w3).ly == 144) (start_v_blank s w3) (on_chip s raised_oam w3) _ _
          (at-start_v_blank w3) (at-on_chip-raised_oam w3)
      ∙ ap begun three

  at-render_line : (w : W) → at (render_line s w) ≡ at w
  unfolding render_line
  at-render_line w =
      let drawn = render (record (s.ppu w) { line_rendered = true }) in
      ap timing (ppu-on_render_line _ _ _ ∙ ppu-with_ppu (drawn.0) w)
      ∙ timing-render (record (s.ppu w) { line_rendered = true })

  at-tick_reading_oam_vram :
      (cycles : ℕ) (w : W)
      → at (tick_reading_oam_vram s w) ≡ step_in cycles StatMode.reading_oam_vram (at w)
  unfolding tick_reading_oam_vram
  at-tick_reading_oam_vram cycles w =
      let t = leb 160 (s.ppu w).cycle_count && not (s.ppu w).line_rendered in
      let w1 = if t then render_line s w else w in
      let one : at w1 ≡ at w = at-either t (render_line s w) w (at w) (at-render_line w) refl in
      at-choice (leb 172 (at w1).cycles) (on_chip s enter_h_blank w1) w1 _ _
        (ap timing (ppu-on_chip enter_h_blank w1) ∙ timing-enter_h_blank (s.ppu w1) (s.bus.cpu w1))
        refl
      ∙ ap (step_in cycles StatMode.reading_oam_vram) one

  at-tick_mode :
      (cycles : ℕ) (mode : StatMode) (w : W)
      → (at w).transfers ≡ false
      → at (tick_mode s cycles mode w) ≡ step_in cycles mode (at w)
  unfolding tick_mode
  at-tick_mode cycles StatMode.h_blank w quiet =
      at-choice (leb 204 (at w).cycles) (leave_h_blank s w) w _ _ (at-leave_h_blank w quiet) refl
  at-tick_mode cycles StatMode.v_blank w quiet =
      ap timing (ppu-on_chip (tick_v_blank cycles) w)
      ∙ timing-tick_v_blank cycles (s.ppu w) (s.bus.cpu w)
  at-tick_mode cycles StatMode.reading_oam w quiet =
      ap timing (ppu-on_ppu tick_reading_oam w) ∙ timing-tick_reading_oam (s.ppu w)
  at-tick_mode cycles StatMode.reading_oam_vram w quiet = at-tick_reading_oam_vram cycles w

  -- While the screen is on and no transfer waits for a horizontal blank, the mode machine is one of
  -- the timing alone: neither the registers nor the program's memory nor the picture count.
  pub tick-advance :
      (cycles : ℕ) (w : W)
      → (s.ppu w).lcd_enabled ≡ true
      → (timing (s.ppu w)).transfers ≡ false
      → timing (s.ppu (tick s cycles w)) ≡ advance cycles (timing (s.ppu w))
  unfolding tick
  tick-advance cycles w on quiet =
      let count = λ (p : Ppu). record p { cycle_count = u32 (p.cycle_count + cycles) } in
      let w' = on_ppu s count w in
      let counted = ap timing (ppu-on_ppu count w) in
      let on' : (at w').on ≡ true = ap (λ t. t.on) counted ∙ on in
      let quiet' : (at w').transfers ≡ false = ap (λ t. t.transfers) counted ∙ quiet in
      ap at
        (kept_on (at w').on on' (tick_disabled s cycles w') (tick_mode s cycles (at w').mode w'))
      ∙ at-tick_mode cycles (at w').mode w' quiet'
      ∙ ap (λ t. step_in cycles t.mode t) counted
