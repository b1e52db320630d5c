-- ===== src/Machine/Units.antt =====
-- The picture and sound units as the devices of `System`: their handlers (`ppu::reset` and
-- `apu::reset` in gameboy/src/ppu/ppu.cpp and gameboy/src/apu/apu.cpp) and their callbacks, whose
-- calls are kept.
use gameboi.Base.{
  ℕ, zero, suc, ◌+◌, ◌≡◌, Bool, false, ap, ◌&&◌, ◌||◌, ◌==◌, List, [], ◌∷◌, Option, none, some,
  if◌then◌else◌, refl,
}
use gameboi.Range
use gameboi.Cpu.State.{Cpu}
use gameboi.Mmu.Bus.{Bus, Delegate}
use gameboi.Ppu.Color.{Color}
use gameboi.Ppu.State.{Ppu}
use gameboi.Ppu.Memory
use gameboi.Ppu.Screen.{Screen, IsLawful}
use gameboi.Ppu.Dma.{
  oam_dma_addr, hdma_1_addr, hdma_2_addr, hdma_3_addr, hdma_4_addr, hdma_5_addr, dma_read,
  dma_write,
}
use gameboi.Ppu.Control.{
  lcdc_addr, stat_addr, scy_addr, scx_addr, ly_addr, lyc_addr, wy_addr, wx_addr, vbk_addr,
  general_purpose_register_read, general_purpose_register_write,
}
use gameboi.Ppu.Palettes.{
  bgp_addr, obp_0_addr, obp_1_addr, bgpi_addr, bgpd_addr, obpi_addr, obpd_addr, palette_read,
  palette_write,
}
use gameboi.Apu.Unit.{Apu}
use gameboi.Apu.Access
use gameboi.Apu.Addresses.{cleared_addresses, nr_52_addr}
use gameboi.System.{System, Devices, bus}

-- The units, with what was handed to `on_render_line_` and to `on_buffer_full_`, last first, and the
-- number of calls of `on_vblank_`.
pub record Units : Type 0 where
  pub ppu : Ppu
  pub apu : Apu
  pub lines : List (ℕ × List Color)
  pub vblanks : ℕ
  pub buffers : List (List ℕ)

abbrev pub Machine : Type 0
Machine = System Units

abbrev pub with_units : (Units → Units) → Machine → Machine
with_units f m = record m { devices = f m.devices }

abbrev pub with_ppu : Ppu → Machine → Machine
with_ppu p m = with_units (λ u. record u { ppu = p }) m

abbrev pub with_apu : Apu → Machine → Machine
with_apu a m = with_units (λ u. record u { apu = a }) m

abbrev pub screen_of : Bus Machine → Screen Machine
screen_of b = record {
  bus = b;
  ppu = λ m. m.devices.ppu;
  with_ppu = with_ppu;
  on_render_line = λ ly line m. with_units (λ u. record u { lines = (ly, line) ∷ u.lines }) m;
  on_vblank = λ m. with_units (λ u. record u { vblanks = u.vblanks + 1 }) m;
}

abbrev pub member : ℕ → List ℕ → Bool
member address [] = false
member address (a ∷ rest) = address == a || member address rest

-- The addresses of each group of registers; the first of two lists is on every machine, the second
-- on the colour machine only.
abbrev pub dma_addresses : List ℕ
dma_addresses = hdma_1_addr ∷ hdma_2_addr ∷ hdma_3_addr ∷ hdma_4_addr ∷ hdma_5_addr ∷ []

abbrev pub control_addresses : List ℕ
control_addresses =
    lcdc_addr ∷ stat_addr ∷ scy_addr ∷ scx_addr ∷ ly_addr ∷ lyc_addr ∷ wy_addr ∷ wx_addr ∷ []

abbrev pub palette_addresses : List ℕ
palette_addresses = bgp_addr ∷ obp_0_addr ∷ obp_1_addr ∷ []

abbrev pub color_addresses : List ℕ
color_addresses = bgpi_addr ∷ bgpd_addr ∷ obpi_addr ∷ obpd_addr ∷ []

abbrev pub control_register : ℕ → Delegate Machine
control_register address = record {
  on_read = λ m. general_purpose_register_read address m.devices.ppu;
  on_write = λ val m.
      let (p, c) = general_purpose_register_write address val (m.devices.ppu, m.cpu) in
      with_ppu p (record m { cpu = c });
}

abbrev pub palette_register : ℕ → Delegate Machine
palette_register address = record {
  on_read = λ m. palette_read address m.devices.ppu;
  on_write = λ val m. with_ppu (palette_write address val m.devices.ppu) m;
}

abbrev pub sound_register : ℕ → Delegate Machine
sound_register address = record {
  on_read = λ m. Access.on_read address m.devices.apu;
  on_write = λ val m. with_apu (Access.on_write address val m.devices.apu) m;
}

abbrev pub wave_register : ℕ → Delegate Machine
wave_register address = record {
  on_read = λ m. Access.on_wave_pattern_read address m.devices.apu;
  on_write = λ val m. with_apu (Access.on_wave_pattern_write address val m.devices.apu) m;
}

-- With the handler of a write to a register of the transfers.
module _ (cgb : Bool) (transfer : ℕ → ℕ → Machine → Machine) where
  abbrev pub dma_register : ℕ → Delegate Machine
  dma_register address = record {
    on_read = λ m. dma_read address m.devices.ppu;
    on_write = transfer address;
  }

  unfoldable pub find_unit : ℕ → Option (Delegate Machine)
  find_unit address =
      if address == oam_dma_addr || (cgb && member address dma_addresses)
      then some (dma_register address)
      else if member address control_addresses || (cgb && address == vbk_addr)
      then some (control_register address)
      else if member address palette_addresses || (cgb && member address color_addresses)
      then some (palette_register address)
      else if member address cleared_addresses || address == nr_52_addr
      then some (sound_register address)
      else if Range.has Range.wave_pattern_range address
      then some (wave_register address)
      else none

  abbrev pub devices_with : Devices Units
  devices_with = record {
    read_vram = λ address m. Memory.read_ram address m.devices.ppu;
    write_vram = λ address val m. with_ppu (Memory.write_ram address val m.devices.ppu) m;
    read_oam = λ address m. Memory.read_oam address m.devices.ppu;
    write_oam = λ address val m. with_ppu (Memory.write_oam address val m.devices.ppu) m;
    find = find_unit;
  }

-- A transfer writes through the memory map, and so may write to the registers of the transfers
-- again: `depth` such calls may be nested, and the writes of one call more are dropped.
unfoldable pub devices_at : Bool → ℕ → Devices Units
devices_at cgb zero = devices_with cgb (λ address val m. m)
devices_at cgb (suc depth) = devices_with cgb (dma_write (screen_of (bus (devices_at cgb depth))))

pub screen_of-IsLawful :
    (b : Bus Machine)
    → ((c : Cpu) (m : Machine) → (b.with_cpu c m).devices ≡ m.devices)
    → IsLawful (screen_of b)
screen_of-IsLawful b kept = record {
  ppu-with_ppu = λ p m. refl;
  ppu-with_cpu = λ c m. ap (λ (u : Units). u.ppu) (kept c m);
  ppu-on_render_line = λ ly line m. refl;
  ppu-on_vblank = λ m. refl;
}
