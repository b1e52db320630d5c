-- ===== src/Mmu/Bus.antt =====
-- What the memory map and the processor reach through `bus_` (gameboy/include/gameboy/bus.h): the
-- components of a whole machine `W`. `System` fills it.
use gameboi.Base.{ℕ, Bool, Option, ◌≡◌}
use gameboi.Cpu.State.{Cpu}
use gameboi.Mmu.State.{Mmu}

-- `memory_delegate`: the handlers of one register.
pub record Delegate (W : Type 0) : Type 0 where
  pub on_read : W → ℕ
  pub on_write : ℕ → W → W

-- `delegates_` is filled by the components' `reset`s and looked up by address.
pub record Bus (W : Type 0) : Type 0 where
  pub cpu : W → Cpu
  pub with_cpu : Cpu → W → W
  pub mmu : W → Mmu
  pub with_mmu : Mmu → W → W
  pub cgb_enabled : W → Bool
  pub read_rom : ℕ → W → ℕ
  pub write_rom : ℕ → ℕ → W → W
  pub read_xram : ℕ → W → ℕ
  pub write_xram : ℕ → ℕ → W → W
  pub read_vram : ℕ → W → ℕ
  pub write_vram : ℕ → ℕ → W → W
  pub read_oam : ℕ → W → ℕ
  pub write_oam : ℕ → ℕ → W → W
  pub find_delegate : ℕ → Option (Delegate W)

-- The memory map and the processor are parts of the machine of their own.
pub record IsLawful {W : Type 0} (b : Bus W) : Type 0 where
  pub mmu-with_mmu : (m : Mmu) (w : W) → b.mmu (b.with_mmu m w) ≡ m
  pub mmu-with_cpu : (c : Cpu) (w : W) → b.mmu (b.with_cpu c w) ≡ b.mmu w
  pub cpu-with_cpu : (c : Cpu) (w : W) → b.cpu (b.with_cpu c w) ≡ c
  pub cpu-with_mmu : (m : Mmu) (w : W) → b.cpu (b.with_mmu m w) ≡ b.cpu w
  pub cgb-with_mmu : (m : Mmu) (w : W) → b.cgb_enabled (b.with_mmu m w) ≡ b.cgb_enabled w
