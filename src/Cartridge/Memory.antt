-- ===== src/Cartridge/Memory.antt =====
-- The external RAM: where an access lands, and what it reads back.
use gameboi.Base.{
  ℕ, ◌*◌, ◌^◌, ◌≤◌, ◌<◌, ◌≡◌, Bool, true, false, List, length, length-set, get_or-set_self, arith,
  bit_and, bit_or, bit_and-le_right, refl, ◌⊎◌, inl, inr, ◌∙◌, sym, Bool-cases,
}
use native.Mathlib.Decide.{dec_lt}
use gameboi.Mbc.Mbc1
use gameboi.Mbc.Mbc2
use gameboi.Mbc.Mbc3
use gameboi.Mbc.Mbc5
use gameboi.Cartridge.{
  Controller, regular, mbc1, mbc2, mbc3, mbc5, Cartridge, controlled, write_rom, read_by, write_by,
  read_ram, write_ram, base_of, ram_enabled, physical_ram_addr, selected_ram_bank, ram_bank,
}
use gameboi.Cartridge.Bounds.{physical_ram_addr-lt}

-- The index of `ram_` that an access uses.
abbrev pub accessed : Controller → ℕ → ℕ
accessed (mbc2 m) physical = Mbc2.wrap_address physical
accessed m physical = physical

-- The size that `parse_rom` gives `ram_`.
abbrev pub ram_size : ℕ → Controller → ℕ
ram_size banks (mbc2 m) = 512
ram_size banks m = banks * (8 * 1024)

-- The RAM has its size, and only a cartridge that has RAM has it enabled.
pub record IsSound (c : Cartridge) : Type 0 where
  pub count_fits : c.ram_bank_count < 2 ^ 32
  pub ram_fits : length c.ram ≡ ram_size c.ram_bank_count c.mbc
  pub enabled_has_ram : (ram_enabled c ≡ false) ⊎ (0 < length c.ram)

controlled-ram_size :
    (banks now address val : ℕ) (c : Cartridge) (m : Controller)
    → ram_size banks (controlled now address val c m) ≡ ram_size banks m
unfolding controlled
controlled-ram_size banks now address val c (regular m) = refl
controlled-ram_size banks now address val c (mbc1 m) = refl
controlled-ram_size banks now address val c (mbc2 m) = refl
controlled-ram_size banks now address val c (mbc3 m) = refl
controlled-ram_size banks now address val c (mbc5 m) = refl

latch-base : (now val : ℕ) (m : Mbc3.Mbc3) → (Mbc3.latch now val m).base ≡ m.base
unfolding Mbc3.latch Mbc3.update_rtc_latch
latch-base now val m = ground arith

-- Without RAM banks no write enables the RAM.
controlled-disabled :
    (now address val : ℕ) (c : Cartridge) (m : Controller)
    → ram_size c.ram_bank_count m ≡ 0
    → (base_of m).ram_enabled ≡ false
    → (base_of (controlled now address val c m)).ram_enabled ≡ false
unfolding controlled Mbc1.control Mbc3.control Mbc5.control
controlled-disabled now address val c (regular m) hz h = h
controlled-disabled now address val c (mbc1 m) hz h = ground arith
controlled-disabled now address val c (mbc2 m) hz h = absurd (omega arith)
controlled-disabled now address val c (mbc3 m) hz h =
    let latched = latch-base now val m in ground arith
controlled-disabled now address val c (mbc5 m) hz h = ground arith

-- A write to the ROM's range keeps the cartridge sound: it enables no RAM that is not there.
pub write_rom-IsSound :
    (now address val : ℕ) (c : Cartridge) → IsSound c → IsSound (write_rom now address val c)
unfolding write_rom ram_enabled
write_rom-IsSound now address val c s = record {
  count_fits = s.count_fits;
  ram_fits = s.ram_fits ∙ sym (controlled-ram_size (c.ram_bank_count) now address val c (c.mbc));
  enabled_has_ram = elim (dec_lt 0 (length c.ram)) [
    | yes p ↦ inr p
    | no np ↦ elim (s.enabled_has_ram) [
      | inl e ↦
          inl (controlled-disabled now address val c (c.mbc) (sym (s.ram_fits) ∙ omega arith) e)
      | inr p ↦ absurd (np p)
    ]
  ];
}

write_by-length :
    (m : Controller) (physical val : ℕ) (ram : List ℕ)
    → length ((write_by m physical val ram).1) ≡ length ram
unfolding write_by Mbc1.write_ram Mbc2.write_ram Mbc3.write_ram Mbc5.write_ram
write_by-length (regular m) physical val ram = length-set ram physical val
write_by-length (mbc1 m) physical val ram = length-set ram physical val
write_by-length (mbc2 m) physical val ram =
    length-set ram (Mbc2.wrap_address physical) (bit_and val 0x0F)
write_by-length (mbc3 m) physical val ram = length-set ram physical val
write_by-length (mbc5 m) physical val ram = length-set ram physical val

write_by-ram_size :
    (banks : ℕ) (m : Controller) (physical val : ℕ) (ram : List ℕ)
    → ram_size banks ((write_by m physical val ram).0) ≡ ram_size banks m
unfolding write_by
write_by-ram_size banks (regular m) physical val ram = refl
write_by-ram_size banks (mbc1 m) physical val ram = refl
write_by-ram_size banks (mbc2 m) physical val ram = refl
write_by-ram_size banks (mbc3 m) physical val ram = refl
write_by-ram_size banks (mbc5 m) physical val ram = refl

-- Enabled RAM is there.
has_ram : (c : Cartridge) → IsSound c → ram_enabled c ≡ true → 0 < length c.ram
has_ram c s on = elim (s.enabled_has_ram) [ inl off ↦ absurd (ground arith) | inr there ↦ there ]

-- A write to the external RAM keeps the cartridge sound.
pub write_ram-IsSound :
    (address val : ℕ) (c : Cartridge) → IsSound c → IsSound (write_ram address val c)
unfolding write_ram
write_ram-IsSound address val c s =
    let physical = physical_ram_addr address c in
    let kept = write_by-length (c.mbc) physical val (c.ram) in
    elim (Bool-cases (ram_enabled c)) [
      | inr off ↦ rw off s
      | inl on ↦
          let there = has_ram c s on in
          rw on (record {
            count_fits = s.count_fits;
            ram_fits =
                kept
                ∙ s.ram_fits
                ∙ sym (write_by-ram_size (c.ram_bank_count) (c.mbc) physical val (c.ram));
            enabled_has_ram = inr (omega arith);
          })
    ]

accessed-ram_size :
    (m : Controller) (address : ℕ) (c : Cartridge)
    → c.ram_bank_count < 2 ^ 32
    → 0 < ram_size c.ram_bank_count m
    → 0xA000 ≤ address
    → address < 0xC000
    → accessed m (physical_ram_addr address c) < ram_size c.ram_bank_count m
unfolding Mbc2.wrap_address
accessed-ram_size (regular m) address c hc hs lo hi =
    physical_ram_addr-lt address c (omega arith) hc lo hi
accessed-ram_size (mbc1 m) address c hc hs lo hi =
    physical_ram_addr-lt address c (omega arith) hc lo hi
accessed-ram_size (mbc2 m) address c hc hs lo hi =
    let wrapped = bit_and-le_right (physical_ram_addr address c) 0x1FF in omega arith
accessed-ram_size (mbc3 m) address c hc hs lo hi =
    physical_ram_addr-lt address c (omega arith) hc lo hi
accessed-ram_size (mbc5 m) address c hc hs lo hi =
    physical_ram_addr-lt address c (omega arith) hc lo hi

-- On a sound cartridge with its RAM enabled, every access of the external range falls into the RAM.
pub accessed-length :
    (address : ℕ) (c : Cartridge)
    → IsSound c
    → ram_enabled c ≡ true
    → 0xA000 ≤ address
    → address < 0xC000
    → accessed c.mbc (physical_ram_addr address c) < length c.ram
accessed-length address c s on lo hi =
    let there = has_ram c s on in
    let fits = s.ram_fits in
    let inside = accessed-ram_size (c.mbc) address c (s.count_fits) (omega arith) lo hi in
    omega arith

-- Whether the external range shows a register of the clock.
abbrev pub shows_clock : Controller → Bool
shows_clock (mbc3 m) = m.rtc_enabled
shows_clock m = false

-- What a controller shows of a byte written: an MBC2 has four bits of it.
abbrev pub shown : Controller → ℕ → ℕ
shown (mbc2 m) val = bit_or (bit_and val 0x0F) 0xF0
shown m val = val

read_by-write_by :
    (m : Controller) (physical val : ℕ) (ram : List ℕ)
    → accessed m physical < length ram
    → shows_clock m ≡ false
    → read_by ((write_by m physical val ram).0) physical ((write_by m physical val ram).1)
      ≡ shown m val
unfolding read_by write_by Mbc1.write_ram Mbc2.write_ram Mbc3.write_ram Mbc5.write_ram Mbc1.read_ram
    Mbc2.read_ram Mbc3.read_ram Mbc5.read_ram
read_by-write_by (regular m) physical val ram h off = get_or-set_self ram physical val 0 h
read_by-write_by (mbc1 m) physical val ram h off = get_or-set_self ram physical val 0 h
read_by-write_by (mbc2 m) physical val ram h off =
    rw (get_or-set_self ram (Mbc2.wrap_address physical) (bit_and val 0x0F) 0 h) refl
read_by-write_by (mbc3 m) physical val ram h off = rw off (get_or-set_self ram physical val 0 h)
read_by-write_by (mbc5 m) physical val ram h off = get_or-set_self ram physical val 0 h

write_by-selected :
    (m : Controller) (physical val : ℕ) (ram : List ℕ)
    → selected_ram_bank ((write_by m physical val ram).0) ≡ selected_ram_bank m
unfolding write_by Mbc3.write_ram selected_ram_bank
write_by-selected (regular m) physical val ram = refl
write_by-selected (mbc1 m) physical val ram = refl
write_by-selected (mbc2 m) physical val ram = refl
write_by-selected (mbc3 m) physical val ram = ground arith
write_by-selected (mbc5 m) physical val ram = refl

write_by-enabled :
    (m : Controller) (physical val : ℕ) (ram : List ℕ)
    → (base_of ((write_by m physical val ram).0)).ram_enabled ≡ (base_of m).ram_enabled
unfolding write_by Mbc3.write_ram
write_by-enabled (regular m) physical val ram = refl
write_by-enabled (mbc1 m) physical val ram = refl
write_by-enabled (mbc2 m) physical val ram = refl
write_by-enabled (mbc3 m) physical val ram = ground arith
write_by-enabled (mbc5 m) physical val ram = refl

-- On a sound cartridge with its RAM enabled and no clock register selected, a read of an address of
-- the external range returns the byte last written there, of which an MBC2 has the lower four bits.
pub read_ram-write_ram :
    (address val : ℕ) (c : Cartridge)
    → IsSound c
    → ram_enabled c ≡ true
    → 0xA000 ≤ address
    → address < 0xC000
    → shows_clock c.mbc ≡ false
    → read_ram address (write_ram address val c) ≡ shown c.mbc val
unfolding read_ram write_ram physical_ram_addr ram_bank ram_enabled
read_ram-write_ram address val c s on lo hi off =
    let physical = physical_ram_addr address c in
    rw on (
      rw (write_by-enabled (c.mbc) physical val (c.ram)) (
        rw on (
          rw (write_by-selected (c.mbc) physical val (c.ram)) (
            read_by-write_by (c.mbc) physical val (c.ram) (accessed-length address c s on lo hi)
              off))))
