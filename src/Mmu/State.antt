-- ===== src/Mmu/State.antt =====
-- The memory map's own state and its two memories.
use gameboi.Base.{
  ℕ, ◌+◌, ◌-◌, ◌*◌, Bool, List, [], ◌∷◌, get_or, set, replicate, if◌then◌else◌, sub32,
}
use gameboi.Range

pub record Mmu : Type 0 where
  pub wram_bank : ℕ
  pub work_ram : List ℕ
  pub high_ram : List ℕ

abbrev pub hram_gb : List ℕ
hram_gb =
    0x2B ∷ 0x0B ∷ 0x64 ∷ 0x2F ∷ 0xAF ∷ 0x15 ∷ 0x60 ∷ 0x6D ∷ 0x61 ∷ 0x4E ∷ 0xAC ∷ 0x45 ∷ 0x0F ∷ 0xDA
    ∷ 0x92 ∷ 0xF3 ∷ 0x83 ∷ 0x38 ∷ 0xE4 ∷ 0x4E ∷ 0xA7 ∷ 0x6C ∷ 0x38 ∷ 0x58 ∷ 0xBE ∷ 0xEA ∷ 0xE5
    ∷ 0x81 ∷ 0xB4 ∷ 0xCB ∷ 0xBF ∷ 0x7B ∷ 0x59 ∷ 0xAD ∷ 0x50 ∷ 0x13 ∷ 0x5E ∷ 0xF6 ∷ 0xB3 ∷ 0xC1
    ∷ 0xDC ∷ 0xDF ∷ 0x9E ∷ 0x68 ∷ 0xD7 ∷ 0x59 ∷ 0x26 ∷ 0xF3 ∷ 0x62 ∷ 0x54 ∷ 0xF8 ∷ 0x36 ∷ 0xB7
    ∷ 0x78 ∷ 0x6A ∷ 0x22 ∷ 0xA7 ∷ 0xDD ∷ 0x88 ∷ 0x15 ∷ 0xCA ∷ 0x96 ∷ 0x39 ∷ 0xD3 ∷ 0xE6 ∷ 0x55
    ∷ 0x6E ∷ 0xEA ∷ 0x90 ∷ 0x76 ∷ 0xB8 ∷ 0xFF ∷ 0x50 ∷ 0xCD ∷ 0xB5 ∷ 0x1B ∷ 0x1F ∷ 0xA5 ∷ 0x4D
    ∷ 0x2E ∷ 0xB4 ∷ 0x09 ∷ 0x47 ∷ 0x8A ∷ 0xC4 ∷ 0x5A ∷ 0x8C ∷ 0x4E ∷ 0xE7 ∷ 0x29 ∷ 0x50 ∷ 0x88
    ∷ 0xA8 ∷ 0x66 ∷ 0x85 ∷ 0x4B ∷ 0xAA ∷ 0x38 ∷ 0xE7 ∷ 0x6B ∷ 0x45 ∷ 0x3E ∷ 0x30 ∷ 0x37 ∷ 0xBA
    ∷ 0xC5 ∷ 0x31 ∷ 0xF2 ∷ 0x71 ∷ 0xB4 ∷ 0xCF ∷ 0x29 ∷ 0xBC ∷ 0x7F ∷ 0x7E ∷ 0xD0 ∷ 0xC7 ∷ 0xC3
    ∷ 0xBD ∷ 0xCF ∷ 0x59 ∷ 0xEA ∷ 0x39 ∷ 0x01 ∷ 0x2E ∷ 0x00 ∷ 0x69 ∷ []

abbrev pub hram_cgb : List ℕ
hram_cgb =
    0xCE ∷ 0xED ∷ 0x66 ∷ 0x66 ∷ 0xCC ∷ 0x0D ∷ 0x00 ∷ 0x0B ∷ 0x03 ∷ 0x73 ∷ 0x00 ∷ 0x83 ∷ 0x00 ∷ 0x0C
    ∷ 0x00 ∷ 0x0D ∷ 0x00 ∷ 0x08 ∷ 0x11 ∷ 0x1F ∷ 0x88 ∷ 0x89 ∷ 0x00 ∷ 0x0E ∷ 0xDC ∷ 0xCC ∷ 0x6E
    ∷ 0xE6 ∷ 0xDD ∷ 0xDD ∷ 0xD9 ∷ 0x99 ∷ 0xBB ∷ 0xBB ∷ 0x67 ∷ 0x63 ∷ 0x6E ∷ 0x0E ∷ 0xEC ∷ 0xCC
    ∷ 0xDD ∷ 0xDC ∷ 0x99 ∷ 0x9F ∷ 0xBB ∷ 0xB9 ∷ 0x33 ∷ 0x3E ∷ 0x45 ∷ 0xEC ∷ 0x42 ∷ 0xFA ∷ 0x08
    ∷ 0xB7 ∷ 0x07 ∷ 0x5D ∷ 0x01 ∷ 0xF5 ∷ 0xC0 ∷ 0xFF ∷ 0x08 ∷ 0xFC ∷ 0x00 ∷ 0xE5 ∷ 0x0B ∷ 0xF8
    ∷ 0xC2 ∷ 0xCA ∷ 0xF4 ∷ 0xF9 ∷ 0x0D ∷ 0x7F ∷ 0x44 ∷ 0x6D ∷ 0x19 ∷ 0xFE ∷ 0x46 ∷ 0x97 ∷ 0x33
    ∷ 0x5E ∷ 0x08 ∷ 0xFF ∷ 0xD1 ∷ 0xFF ∷ 0xC6 ∷ 0x8B ∷ 0x24 ∷ 0x74 ∷ 0x12 ∷ 0xFC ∷ 0x00 ∷ 0x9F
    ∷ 0x94 ∷ 0xB7 ∷ 0x06 ∷ 0xD5 ∷ 0x40 ∷ 0x7A ∷ 0x20 ∷ 0x9E ∷ 0x04 ∷ 0x5F ∷ 0x41 ∷ 0x2F ∷ 0x3D
    ∷ 0x77 ∷ 0x36 ∷ 0x75 ∷ 0x81 ∷ 0x8A ∷ 0x70 ∷ 0x3A ∷ 0x98 ∷ 0xD1 ∷ 0x71 ∷ 0x02 ∷ 0x4D ∷ 0x01
    ∷ 0xC1 ∷ 0xFF ∷ 0x0D ∷ 0x00 ∷ 0xD3 ∷ 0x05 ∷ 0xF9 ∷ 0x00 ∷ 0x0B ∷ []

-- `reset`, with the cartridge's `cgb_enabled()`; the vector is filled with 0 whatever it held.
unfoldable pub reset : Bool → Mmu
reset cgb = record {
  wram_bank = 1;
  work_ram = replicate ((if cgb then 8 else 2) * (4 * 1024)) 0;
  high_ram = if cgb then hram_cgb else hram_gb;
}

abbrev pub wram_first_bank_range : Range.Range
wram_first_bank_range = Range.make 0xC000 0xCFFF

-- `4_kb * (wram_bank_ - 1u)`, for a bank from 1 on.
unfoldable pub physical_wram_addr : ℕ → Mmu → ℕ
physical_wram_addr address m =
    if Range.has wram_first_bank_range address
    then address - 0xC000
    else address - 0xC000 + 4 * 1024 * sub32 m.wram_bank 1

unfoldable pub write_wram : ℕ → ℕ → Mmu → Mmu
write_wram address val m = record m { work_ram = set m.work_ram (physical_wram_addr address m) val }

unfoldable pub read_wram : ℕ → Mmu → ℕ
read_wram address m = get_or m.work_ram (physical_wram_addr address m) 0

unfoldable pub write_hram : ℕ → ℕ → Mmu → Mmu
write_hram address val m = record m { high_ram = set m.high_ram (address - 0xFF80) val }

unfoldable pub read_hram : ℕ → Mmu → ℕ
read_hram address m = get_or m.high_ram (address - 0xFF80) 0
