-- ===== src/Ppu/Screen.antt =====
-- What the picture unit reaches of a whole machine `W`: the bus, itself, and the two callbacks that
-- the frontend connects.
use gameboi.Base.{ℕ, ◌≡◌, List}
use gameboi.Cpu.State.{Cpu}
use gameboi.Mmu.Bus.{Bus}
use gameboi.Ppu.Color.{Color}
use gameboi.Ppu.State.{Ppu, Chip}

pub record Screen (W : Type 0) : Type 0 where
  pub bus : Bus W
  pub ppu : W → Ppu
  pub with_ppu : Ppu → W → W
  pub on_render_line : ℕ → List Color → W → W
  pub on_vblank : W → W

-- The unit is a part of the machine of its own, and the callbacks leave it alone.
pub record IsLawful {W : Type 0} (s : Screen W) : Type 0 where
  pub ppu-with_ppu : (p : Ppu) (w : W) → s.ppu (s.with_ppu p w) ≡ p
  pub ppu-with_cpu : (c : Cpu) (w : W) → s.ppu (s.bus.with_cpu c w) ≡ s.ppu w
  pub ppu-on_render_line :
      (ly : ℕ) (line : List Color) (w : W) → s.ppu (s.on_render_line ly line w) ≡ s.ppu w
  pub ppu-on_vblank : (w : W) → s.ppu (s.on_vblank w) ≡ s.ppu w

module _ {W : Type 0} (s : Screen W) where
  abbrev pub on_ppu : (Ppu → Ppu) → W → W
  on_ppu f w = s.with_ppu (f (s.ppu w)) w

  abbrev pub on_chip : (Chip → Chip) → W → W
  on_chip f w = let (p, c) = f (s.ppu w, s.bus.cpu w) in s.with_ppu p (s.bus.with_cpu c w)
