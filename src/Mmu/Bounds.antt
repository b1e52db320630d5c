-- ===== src/Mmu/Bounds.antt =====
-- The work RAM's banks stay inside the memory that is there.
use gameboi.Base.{
  ℕ, ◌-◌, ◌*◌, ◌≤◌, ◌<◌, ◌≡◌, Bool, true, false, length, length-set, length-replicate,
  if◌then◌else◌, arith, refl, ◌∙◌, ◌⊎◌, inl, inr,
}
use native.Mathlib.Decide.{dec_lt}
use gameboi.Mmu.State.{Mmu, reset, physical_wram_addr, write_wram, write_hram}

-- The number of banks of 4 KB.
abbrev pub wram_banks : Bool → ℕ
wram_banks cgb = if cgb then 8 else 2

pub record IsValid (cgb : Bool) (m : Mmu) : Type 0 where
  pub least_bank : 1 ≤ m.wram_bank
  pub bank_fits : m.wram_bank < wram_banks cgb
  pub wram_fits : length m.work_ram ≡ wram_banks cgb * (4 * 1024)
  pub hram_fits : length m.high_ram ≡ 127

-- After a reset the memory map is valid.
pub reset-IsValid : (cgb : Bool) → IsValid cgb (reset cgb)
unfolding reset
reset-IsValid true = record {
  least_bank = omega arith;
  bank_fits = omega arith;
  wram_fits = length-replicate {A = ℕ} (8 * (4 * 1024)) 0;
  hram_fits = refl;
}
reset-IsValid false = record {
  least_bank = omega arith;
  bank_fits = omega arith;
  wram_fits = length-replicate {A = ℕ} (2 * (4 * 1024)) 0;
  hram_fits = refl;
}

pub write_wram-IsValid :
    (cgb : Bool) (address val : ℕ) (m : Mmu)
    → IsValid cgb m
    → IsValid cgb (write_wram address val m)
unfolding write_wram
write_wram-IsValid cgb address val m v = record {
  least_bank = v.least_bank;
  bank_fits = v.bank_fits;
  wram_fits = length-set (m.work_ram) (physical_wram_addr address m) val ∙ v.wram_fits;
  hram_fits = v.hram_fits;
}

pub write_hram-IsValid :
    (cgb : Bool) (address val : ℕ) (m : Mmu)
    → IsValid cgb m
    → IsValid cgb (write_hram address val m)
unfolding write_hram
write_hram-IsValid cgb address val m v = record {
  least_bank = v.least_bank;
  bank_fits = v.bank_fits;
  wram_fits = v.wram_fits;
  hram_fits = length-set (m.high_ram) (address - 0xFF80) val ∙ v.hram_fits;
}

-- An address of the work RAM's range falls into the memory, whatever bank is selected.
pub physical_wram_addr-lt :
    (cgb : Bool) (address : ℕ) (m : Mmu)
    → IsValid cgb m
    → 0xC000 ≤ address
    → address < 0xE000
    → physical_wram_addr address m < length m.work_ram
unfolding physical_wram_addr
physical_wram_addr-lt cgb address m v lo hi =
    let least = v.least_bank in let bank = v.bank_fits in let size = v.wram_fits in ground arith

-- Two addresses of the range share a byte only if they are the same, or, in the switched half, the
-- same in the same bank.
pub physical_wram_addr-injective :
    (cgb : Bool) (a1 a2 : ℕ) (m1 m2 : Mmu)
    → IsValid cgb m1
    → IsValid cgb m2
    → 0xC000 ≤ a1
    → a1 < 0xE000
    → 0xC000 ≤ a2
    → a2 < 0xE000
    → physical_wram_addr a1 m1 ≡ physical_wram_addr a2 m2
    → (a1 ≡ a2) × ((a1 < 0xD000) ⊎ (m1.wram_bank ≡ m2.wram_bank))
unfolding physical_wram_addr
physical_wram_addr-injective cgb a1 a2 m1 m2 v1 v2 lo1 hi1 lo2 hi2 e =
    let least1 = v1.least_bank in
    let least2 = v2.least_bank in
    let bank1 = v1.bank_fits in
    let bank2 = v2.bank_fits in
    (ground arith, elim (dec_lt a1 0xD000) [ yes low ↦ inl low | no high ↦ inr (ground arith) ])
