-- ===== src/Cartridge/Header.antt =====
-- gameboy/src/cartridge.cpp: `parse_rom`, `load_ram` and `load_rtc`. The files beside the ROM are
-- arguments: what was saved of the RAM and of the clock, and the time that `current_time()` reads.
-- `none` stands for `std::terminate` and for a size code outside its enumeration, for which the
-- code's lambda ends without a value. The strings that are only logged are left out.
use gameboi.Base.{
  ℕ, ◌+◌, ◌*◌, Bool, true, false, not, ◌&&◌, ◌||◌, ◌==◌, List, [], ◌∷◌, length, get_or, ◌>>=◌,
  replicate, Option, none, some, if◌then◌else◌, u8, sub8, zero, suc,
}
use gameboi.Range
use gameboi.Util.Bit
use gameboi.Mbc.State
use gameboi.Mbc.Mbc1
use gameboi.Mbc.Mbc3
use gameboi.Mbc.Mbc3.{Rtc}
use gameboi.Cartridge.{Controller, regular, mbc1, mbc2, mbc3, mbc5, Cartridge}

-- The default constructor.
abbrev pub initial : Cartridge
initial = record {
  cgb_enabled = false;
  has_battery = false;
  has_rtc = false;
  rom_bank_count = 0;
  ram_bank_count = 0;
  rom = [];
  ram = [];
  mbc = regular State.initial;
}

abbrev pub one_of : ℕ → List ℕ → Bool
one_of code [] = false
one_of code (x ∷ xs) = code == x || one_of code xs

-- `acc - rom_[addr] - 1` over `count` addresses from `addr`.
abbrev pub checksum_from : List ℕ → ℕ → ℕ → ℕ → ℕ
checksum_from rom zero addr acc = acc
checksum_from rom (suc count) addr acc =
    checksum_from rom count (addr + 1) (sub8 (sub8 acc (u8 (get_or rom addr 0))) 1)

unfoldable pub checksum : List ℕ → ℕ
checksum rom =
    let header = Range.make 0x0134 0x014C in checksum_from rom (Range.size header) header.low 0

unfoldable pub cgb_supported : ℕ → Bool
cgb_supported flag = Bit.test flag 7 && not (Bit.test flag 2 || Bit.test flag 3)

-- The groups of cases of the `switch` on the cartridge type.
pub data Kind : Type 0 where
  kept_kind mbc1_kind mbc2_kind mbc3_kind mbc5_kind : Kind

unfoldable pub kind_of : ℕ → Option Kind
kind_of code =
    if one_of code (0x00 ∷ 0x08 ∷ 0x09 ∷ [])
    then some Kind.kept_kind
    else if one_of code (0x01 ∷ 0x02 ∷ 0x03 ∷ [])
    then some Kind.mbc1_kind
    else if one_of code (0x05 ∷ 0x06 ∷ [])
    then some Kind.mbc2_kind
    else if one_of code (0x0F ∷ 0x10 ∷ 0x11 ∷ 0x12 ∷ 0x13 ∷ [])
    then some Kind.mbc3_kind
    else if one_of code (0x19 ∷ 0x1A ∷ 0x1B ∷ 0x1C ∷ 0x1D ∷ 0x1E ∷ [])
    then some Kind.mbc5_kind
    else none

unfoldable pub rom_bank_count_of : ℕ → Option ℕ
rom_bank_count_of code =
    if code == 0x00
    then some 2
    else if code == 0x01
    then some 4
    else if code == 0x02
    then some 8
    else if code == 0x03
    then some 16
    else if code == 0x04
    then some 32
    else if code == 0x05
    then some 64
    else if code == 0x06
    then some 128
    else if code == 0x07
    then some 256
    else if code == 0x08
    then some 512
    else if code == 0x52
    then some 72
    else if code == 0x53
    then some 80
    else if code == 0x54
    then some 96
    else none

unfoldable pub ram_bank_count_of : ℕ → Option ℕ
ram_bank_count_of code =
    if code == 0x00
    then some 0
    else if code == 0x01
    then some 1
    else if code == 0x02
    then some 1
    else if code == 0x03
    then some 4
    else if code == 0x04
    then some 16
    else if code == 0x05
    then some 8
    else none

-- The types for which `load_ram` is called.
abbrev pub battery_types : List ℕ
battery_types = 0x03 ∷ 0x06 ∷ 0x09 ∷ 0x0D ∷ 0x0F ∷ 0x10 ∷ 0x13 ∷ 0x1B ∷ 0x1E ∷ 0xFF ∷ 0x22 ∷ []

-- What lies beside the ROM: the bytes of the save file and of the clock's, where they exist.
pub record Saved : Type 0 where
  pub ram_data : Option (List ℕ)
  pub rtc_data : Option (ℕ × Rtc)
  pub now : ℕ

abbrev pub no_rtc_data : ℕ × Rtc
no_rtc_data = (0, record { seconds = 0; minutes = 0; hours = 0; days_lower = 0; days_higher = 0 })

unfoldable pub load_rtc : Bool → Option (ℕ × Rtc) → ℕ × Rtc
load_rtc true (some saved) = saved
load_rtc true none = no_rtc_data
load_rtc false saved = no_rtc_data

-- A save file of another size is not read.
unfoldable pub load_ram : Option (List ℕ) → List ℕ → List ℕ
load_ram none ram = ram
load_ram (some saved) ram = if length saved == length ram then saved else ram

-- `mbc_`, which the first group of cases leaves as it was.
unfoldable pub controller_of : Kind → Bool → Saved → Controller → Controller
controller_of Kind.kept_kind has_rtc saved before = before
controller_of Kind.mbc1_kind has_rtc saved before = mbc1 Mbc1.initial
controller_of Kind.mbc2_kind has_rtc saved before = mbc2 State.initial
controller_of Kind.mbc3_kind has_rtc saved before =
    let loaded = load_rtc has_rtc saved.rtc_data in mbc3 (Mbc3.make saved.now (loaded.0) (loaded.1))
controller_of Kind.mbc5_kind has_rtc saved before = mbc5 State.initial

unfoldable pub allocate_ram : ℕ → List ℕ
allocate_ram amount = replicate amount 0

-- Without RAM in the cartridge, `ram_` stays as it was.
unfoldable pub allocated : ℕ → ℕ → List ℕ → List ℕ
allocated code banks before =
    if one_of code (0x05 ∷ 0x06 ∷ [])
    then allocate_ram 512
    else if not (banks == 0)
    then allocate_ram (banks * (8 * 1024))
    else before

-- The cartridge after the header is read.
unfoldable pub parsed : List ℕ → Saved → Cartridge → Kind → ℕ → ℕ → Cartridge
parsed rom saved before kind rom_banks ram_banks =
    let code = get_or rom 0x0147 0 in
    let has_rtc = one_of code (0x0F ∷ 0x10 ∷ []) in
    let ram = allocated code ram_banks before.ram in
    let battery = one_of code battery_types in
    record {
      cgb_enabled = cgb_supported (get_or rom 0x0143 0);
      has_battery = battery;
      has_rtc = has_rtc;
      rom_bank_count = rom_banks;
      ram_bank_count = ram_banks;
      rom = rom;
      ram = if battery then load_ram saved.ram_data ram else ram;
      mbc = controller_of kind has_rtc saved before.mbc;
    }

-- `load_rom`; the constructor runs it on `initial`.
unfoldable pub load_rom : List ℕ → Saved → Cartridge → Option Cartridge
load_rom rom saved before = if not (checksum rom == get_or rom 0x014D 0) then none else do
  kind ← kind_of (get_or rom 0x0147 0)
  rom_banks ← rom_bank_count_of (get_or rom 0x0148 0)
  ram_banks ← ram_bank_count_of (get_or rom 0x0149 0)
  some (parsed rom saved before kind rom_banks ram_banks)
