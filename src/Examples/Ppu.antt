-- ===== src/Examples/Ppu.antt =====
-- The picture unit at concrete states.
use gameboi.Base.{
  ℕ, zero, suc, ◌+◌, ◌*◌, ◌%◌, ◌<◌, ◌≡◌, true, false, List, [], ◌∷◌, ◌++◌, replicate, get_or,
  length, length-replicate, arith, refl, ap, ◌∙◌,
}
use gameboi.Util.Bit
use gameboi.Ppu.Color.{gray, uniform, rgb}
use gameboi.Ppu.Stat.{StatMode, get_mode}
use gameboi.Ppu.State.{Ppu, initial_transfer}
use gameboi.Ppu.State as PpuState
use gameboi.Ppu.Palettes.{bgpi_addr, bgpd_addr, color_at, palette_read, palette_write}
use gameboi.Ppu.Palettes.Roundtrip.{IsFull, both_written, palette_read-palette_write}
use gameboi.Ppu.Render.Tile.{Buffer, Attribute, reversed_onto}
use gameboi.Ppu.Render.Background.{render_background}
use gameboi.Ppu.Render.Background.Scroll.{map_dot, render_background-scrolls}
use gameboi.Ppu.Render.Objects.{indices}
use gameboi.Ppu.Render.Objects.Order.{first, on_line_from, IsSorted, count, indices_lem}
use gameboi.Ppu.Dma.{oam_dma_addr, on_transfer, dma_write}
use gameboi.Ppu.Screen.{on_ppu}
use gameboi.Ppu.Tick.{tick}
use gameboi.Ppu.Timing.{timing}
use gameboi.Ppu.Timing.Frame.{frame, dots, IsRunning}
use gameboi.Ppu.Timing.Run.{total, AllShort, run_ticks, tick-dots, run_ticks-reaches_v_blank}
use gameboi.Mmu.Map.{read}
use gameboi.System.{bus}
use gameboi.Machine.Units.{devices_at}
use gameboi.Machine.ObjectTransfer.{dma_write-copies, dma_write-lost}
use gameboi.Examples.Units.{test_machine, test_screen, test_screen-IsLawful}

abbrev gray_ppu : Ppu
gray_ppu = PpuState.reset false initial_transfer

abbrev color_ppu : Ppu
color_ppu = PpuState.reset true initial_transfer

pub gray_IsRunning : IsRunning (timing gray_ppu)
unfolding PpuState.reset get_mode
gray_IsRunning = record { on = refl; quiet = refl; phase = (omega arith, omega arith) }

tick-dots_example :
    IsRunning (timing (tick (test_screen false) 8 (test_machine false)).devices.ppu)
    × (dots (timing (tick (test_screen false) 8 (test_machine false)).devices.ppu)
        ≡ (dots (timing gray_ppu) + 8) % frame)
tick-dots_example =
    tick-dots (test_screen false) (test_screen-IsLawful false) 8 (test_machine false) gray_IsRunning
      (omega arith)

eights-AllShort : (n : ℕ) → AllShort (replicate n 8)
eights-AllShort zero = tt
eights-AllShort (suc n) = (omega arith, eights-AllShort n)

eights-total : (n : ℕ) → total (replicate n 8) ≡ n * 8
eights-total zero = refl
eights-total (suc n) = ap (λ t. 8 + t) (eights-total n) ∙ omega arith

run_ticks-reaches_v_blank_example :
    (front : List ℕ) × (back : List ℕ) × (replicate {A = ℕ} 8778 8 ≡ front ++ back)
    × ((timing (run_ticks (test_screen false) front (test_machine false)).devices.ppu).mode
        ≡ StatMode.v_blank)
    × ((run_ticks (test_screen false) front (test_machine false)).devices.ppu.ly ≡ 144)
run_ticks-reaches_v_blank_example =
    run_ticks-reaches_v_blank (test_screen false) (test_screen-IsLawful false) (replicate 8778 8)
      (test_machine false) gray_IsRunning (eights-AllShort 8778) (omega (arith, eights-total 8778))

get_or-replicate : {A : Type 0} (n i : ℕ) (a b : A) → i < n → get_or (replicate n a) i b ≡ a
get_or-replicate zero i a b h = absurd (omega arith)
get_or-replicate (suc n) zero a b h = refl
get_or-replicate (suc n) (suc i) a b h = get_or-replicate n i a b (omega arith)

color_IsFull : IsFull color_ppu.cgb_bg_palettes
unfolding PpuState.reset
color_IsFull = record {
  palettes_size = length-replicate 8 (uniform (gray 0xFF));
  colors_size = λ i h. ap length (get_or-replicate 8 i (uniform (gray 0xFF)) [] h);
}

-- The third colour of the second palette.
palette_read-palette_write_example :
    let p' = both_written 6 0x41 0xFA color_ppu in
    (color_at 12 p'.cgb_bg_palettes ≡ rgb 1 18 30)
    × (palette_read bgpd_addr (palette_write bgpi_addr 12 p') ≡ 0x41)
    × (palette_read bgpd_addr (palette_write bgpi_addr 13 p') ≡ 0x7A)
palette_read-palette_write_example =
    palette_read-palette_write 6 0x41 0xFA color_ppu (omega arith) (omega arith) (omega arith)
      color_IsFull

abbrev scrolled_ppu : Ppu
scrolled_ppu = record gray_ppu { scx = 200 }

abbrev blank_line : Buffer
blank_line = replicate 160 (0, Attribute.uninitialized)

render_background-scrolls_example :
    get_or (render_background scrolled_ppu blank_line) 100 (0, Attribute.uninitialized)
    ≡ map_dot scrolled_ppu 44
unfolding PpuState.reset Bit.test
render_background-scrolls_example =
    render_background-scrolls scrolled_ppu (omega arith) blank_line 100 refl
      (length-replicate {A = ℕ × Attribute} 160 (0, Attribute.uninitialized)) (omega arith)

dma_write-lost_example :
    dma_write (test_screen false) oam_dma_addr 0xC1 (test_machine false)
    ≡ on_ppu
        (test_screen false)
        (on_transfer (λ t. record t { oam_dma = 0xC1 }))
        (test_machine false)
unfolding PpuState.reset get_mode
dma_write-lost_example = dma_write-lost false 1 0xC1 (test_machine false) refl

dma_write-copies_example :
    get_or
      (dma_write (test_screen true) oam_dma_addr 0xC1 (test_machine true)).devices.ppu.oam
      159
      0
    ≡ read (bus (devices_at true 1)) 0xC19F (test_machine true)
unfolding PpuState.reset get_mode
dma_write-copies_example =
    dma_write-copies true 1 0xC1 159 (test_machine true) refl (length-replicate {A = ℕ} 160 0)
      (omega arith) (omega arith) (omega arith)

-- Two objects on the first line, the second one further left.
abbrev crowded_ppu : Ppu
crowded_ppu = record gray_ppu { oam = 16 ∷ 30 ∷ 0 ∷ 0 ∷ 18 ∷ 20 ∷ 1 ∷ 0 ∷ replicate 152 0 }

indices_lem_example :
    let chosen = first 10 (on_line_from crowded_ppu 0 40) in
    (drawn : List ℕ) × (indices crowded_ppu ≡ reversed_onto [] drawn)
    × (crowded_ppu.cgb_enabled ≡ true → drawn ≡ chosen)
    × (crowded_ppu.cgb_enabled ≡ false → IsSorted crowded_ppu drawn)
    × ((i : ℕ) → count i drawn ≡ count i chosen)
indices_lem_example = indices_lem crowded_ppu
