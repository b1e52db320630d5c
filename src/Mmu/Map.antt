-- ===== src/Mmu/Map.antt =====
-- `mmu::write`, `mmu::read` and `mmu::dma`. The hooks of the debugger, compiled only with it, and
-- the warnings are left out.
use gameboi.Base.{
  ℕ, zero, suc, ◌+◌, ◌-◌, ◌==◌, not, none, some, if◌then◌else◌, bit_and, bit_or, u16,
}
use gameboi.Range
use gameboi.Mmu.State.{write_wram, read_wram, write_hram, read_hram}
use gameboi.Mmu.Bus.{Bus}

abbrev pub svbk_addr : ℕ
svbk_addr = 0xFF70

-- *begin(echo_range) - *begin(wram_range)
abbrev pub echo_diff : ℕ
echo_diff = 0x2000

module _ {W : Type 0} (b : Bus W) where
  -- The last three branches, for an address without a delegate.
  unfoldable pub write_undelegated : ℕ → ℕ → W → W
  write_undelegated address val w =
      let m = b.mmu w in
      let bank = bit_and val 0x7 in
      if Range.has Range.echo_range address
      then b.with_mmu (write_wram (address - echo_diff) val m) w
      else if address == svbk_addr
      then if b.cgb_enabled w
        then b.with_mmu (record m { wram_bank = if bank == 0 then 1 else bank }) w
        else w
      else w

  unfoldable pub write : ℕ → ℕ → W → W
  write address val w =
      if Range.has Range.rom_range address
      then b.write_rom address val w
      else if Range.has Range.vram_range address
      then b.write_vram address val w
      else if Range.has Range.oam_range address
      then b.write_oam address val w
      else if Range.has Range.xram_range address
      then b.write_xram address val w
      else if Range.has Range.wram_range address
      then b.with_mmu (write_wram address val (b.mmu w)) w
      else if Range.has Range.hram_range address
      then b.with_mmu (write_hram address val (b.mmu w)) w
      else elim (b.find_delegate address) [
        | some d ↦ d.on_write val w
        | none ↦ write_undelegated address val w
      ]

  unfoldable pub read_undelegated : ℕ → W → ℕ
  read_undelegated address w =
      if Range.has Range.echo_range address
      then read_wram (address - echo_diff) (b.mmu w)
      else if address == svbk_addr
      then if not (b.cgb_enabled w) then 0xFF else bit_or (b.mmu w).wram_bank 0xF8
      else 0xFF

  unfoldable pub read : ℕ → W → ℕ
  read address w =
      if Range.has Range.rom_range address
      then b.read_rom address w
      else if Range.has Range.vram_range address
      then b.read_vram address w
      else if Range.has Range.oam_range address
      then b.read_oam address w
      else if Range.has Range.xram_range address
      then b.read_xram address w
      else if Range.has Range.wram_range address
      then read_wram address (b.mmu w)
      else if Range.has Range.hram_range address
      then read_hram address (b.mmu w)
      else elim (b.find_delegate address) [
        | some d ↦ d.on_read w
        | none ↦ read_undelegated address w
      ]

  -- The loop of `dma` from the index `i` on, `left` rounds.
  abbrev pub dma_from : ℕ → ℕ → ℕ → ℕ → W → W
  dma_from i zero source destination w = w
  dma_from i (suc left) source destination w =
      dma_from (i + 1) left source destination
        (write (u16 (destination + i)) (read (u16 (source + i)) w) w)

  unfoldable pub dma : ℕ → ℕ → ℕ → W → W
  dma source destination length w = dma_from 0 length source destination w
