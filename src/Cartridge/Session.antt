-- ===== src/Cartridge/Session.antt =====
-- A run of the program as its cartridge sees it: a sequence of writes of bytes.
use gameboi.Base.{ℕ, ◌*◌, refl, Bool-cases, inl, inr, ◌<◌, ◌≡◌, List, length, some, arith, ◌∙◌, ap}
use gameboi.Cartridge.{
  Cartridge, ram_enabled, physical_ram_addr, physical_rom_addr, write_rom, write_ram,
}
use gameboi.Cartridge.Header.{Saved, initial, load_rom}
use gameboi.Cartridge.Loading.{load_rom-IsFresh}
use gameboi.Cartridge.Banks.{IsRegister, write_rom-IsRegister, write_by-IsRegister}
use gameboi.Cartridge.Bounds.{physical_rom_addr-lt}

-- The states that a cartridge reaches from its first one.
pub data Reachable (first : Cartridge) : Cartridge → Type 0 where
  start : Reachable first first
  rom_write :
      (now address val : ℕ) (c : Cartridge)
      → val < 256
      → Reachable first c
      → Reachable first (write_rom now address val c)
  ram_write :
      (address val : ℕ) (c : Cartridge)
      → val < 256
      → Reachable first c
      → Reachable first (write_ram address val c)

-- The ROM and its number of banks never change.
Reachable-rom : {first c : Cartridge} → Reachable first c → c.rom ≡ first.rom
unfolding write_rom write_ram
Reachable-rom start = refl
Reachable-rom (rom_write now address val c hv r) = Reachable-rom r
Reachable-rom (ram_write address val c hv r) =
    let e = Reachable-rom r in
    elim (Bool-cases (ram_enabled c)) [ inl on ↦ rw on e | inr off ↦ rw off e ]

Reachable-count :
    {first c : Cartridge} → Reachable first c → c.rom_bank_count ≡ first.rom_bank_count
unfolding write_rom write_ram
Reachable-count start = refl
Reachable-count (rom_write now address val c hv r) = Reachable-count r
Reachable-count (ram_write address val c hv r) =
    let e = Reachable-count r in
    elim (Bool-cases (ram_enabled c)) [ inl on ↦ rw on e | inr off ↦ rw off e ]

write_ram-IsRegister :
    (address val : ℕ) (c : Cartridge) → IsRegister c.mbc → IsRegister (write_ram address val c).mbc
unfolding write_ram
write_ram-IsRegister address val c f = elim (Bool-cases (ram_enabled c)) [
  | inl on ↦ rw on (write_by-IsRegister (c.mbc) (physical_ram_addr address c) val (c.ram) f)
  | inr off ↦ rw off f
]

Reachable-IsRegister :
    {first c : Cartridge} → IsRegister first.mbc → Reachable first c → IsRegister c.mbc
Reachable-IsRegister f start = f
Reachable-IsRegister f (rom_write now address val c hv r) =
    write_rom-IsRegister now address val c hv (Reachable-IsRegister f r)
Reachable-IsRegister f (ram_write address val c hv r) =
    write_ram-IsRegister address val c (Reachable-IsRegister f r)

-- From the first instruction on, whatever bytes the program writes, the bank registers stay in
-- their widths, and no MBC1, MBC2 or MBC3 has its ROM bank register at 0.
pub Reachable-registers :
    (rom : List ℕ) (saved : Saved) (first c : Cartridge)
    → load_rom rom saved initial ≡ some first
    → Reachable first c
    → IsRegister c.mbc
Reachable-registers rom saved first c h r =
    Reachable-IsRegister ((load_rom-IsFresh rom saved first h).registers) r

-- From the first instruction on, whatever the program writes, every read of the ROM's range falls
-- into a ROM that is as long as its header says.
pub Reachable-physical_rom_addr :
    (rom : List ℕ) (saved : Saved) (first c : Cartridge) (address : ℕ)
    → load_rom rom saved initial ≡ some first
    → length first.rom ≡ first.rom_bank_count * (16 * 1024)
    → Reachable first c
    → address < 0x8000
    → physical_rom_addr address c < length c.rom
Reachable-physical_rom_addr rom saved first c address h whole r ha =
    let fresh = load_rom-IsFresh rom saved first h in
    let count = Reachable-count r in
    let least = fresh.least_banks in
    let most = fresh.most_banks in
    physical_rom_addr-lt address c (omega arith) (omega arith) ha
      (ap length (Reachable-rom r) ∙ whole ∙ omega arith)
