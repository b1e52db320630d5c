-- ===== src/Mmu/Wram.antt =====
-- Reading and writing the work RAM through the memory map.
use gameboi.Base.{
  ℕ, ◌≤◌, ◌<◌, ◌≡◌, ◌≢◌, Bool, get_or-set_self, get_or-set_ne, arith, refl, ◌∙◌, ap, sym,
}
use gameboi.Mmu.State.{Mmu, physical_wram_addr, write_wram, read_wram}
use gameboi.Mmu.Bus.{Bus, IsLawful}
use gameboi.Mmu.Map.{write, read}
use gameboi.Mmu.Bounds.{
  IsValid, physical_wram_addr-lt, physical_wram_addr-injective, write_wram-IsValid,
}

physical_wram_addr-write_wram :
    (a1 a2 val : ℕ) (m : Mmu)
    → physical_wram_addr a1 (write_wram a2 val m) ≡ physical_wram_addr a1 m
unfolding write_wram physical_wram_addr
physical_wram_addr-write_wram a1 a2 val m = refl

pub read_wram-write_wram :
    (cgb : Bool) (address val : ℕ) (m : Mmu)
    → IsValid cgb m
    → 0xC000 ≤ address
    → address < 0xE000
    → read_wram address (write_wram address val m) ≡ val
unfolding read_wram write_wram
read_wram-write_wram cgb address val m v lo hi =
    rw (physical_wram_addr-write_wram address address val m) (
      get_or-set_self (m.work_ram) (physical_wram_addr address m) val 0
        (physical_wram_addr-lt cgb address m v lo hi))

pub read_wram-write_wram_ne :
    (cgb : Bool) (a1 a2 val : ℕ) (m : Mmu)
    → IsValid cgb m
    → 0xC000 ≤ a1
    → a1 < 0xE000
    → 0xC000 ≤ a2
    → a2 < 0xE000
    → a1 ≢ a2
    → read_wram a2 (write_wram a1 val m) ≡ read_wram a2 m
unfolding read_wram write_wram
read_wram-write_wram_ne cgb a1 a2 val m v lo1 hi1 lo2 hi2 ne =
    rw (physical_wram_addr-write_wram a2 a1 val m) (
      get_or-set_ne (m.work_ram) (physical_wram_addr a1 m) (physical_wram_addr a2 m) val 0
        λ e. ne ((physical_wram_addr-injective cgb a1 a2 m m v v lo1 hi1 lo2 hi2 e).0))

module _ {W : Type 0} (b : Bus W) where
  -- In the work RAM's range the memory map is the work RAM.
  pub write_in_wram :
      (address val : ℕ) (w : W)
      → 0xC000 ≤ address
      → address < 0xE000
      → write b address val w ≡ b.with_mmu (write_wram address val (b.mmu w)) w
  unfolding write
  write_in_wram address val w lo hi = ground arith

  pub read_in_wram :
      (address : ℕ) (w : W)
      → 0xC000 ≤ address
      → address < 0xE000
      → read b address w ≡ read_wram address (b.mmu w)
  unfolding read
  read_in_wram address w lo hi = ground arith

module _ {W : Type 0} (b : Bus W) (lawful : IsLawful b) (cgb : Bool) where
  -- In the work RAM, a read returns the byte last written to its address.
  pub read-write :
      (address val : ℕ) (w : W)
      → IsValid cgb (b.mmu w)
      → 0xC000 ≤ address
      → address < 0xE000
      → read b address (write b address val w) ≡ val
  read-write address val w v lo hi = rw (write_in_wram b address val w lo hi) (
      read_in_wram b address (b.with_mmu (write_wram address val (b.mmu w)) w) lo hi
      ∙ ap (read_wram address) (lawful.mmu-with_mmu (write_wram address val (b.mmu w)) w)
      ∙ read_wram-write_wram cgb address val (b.mmu w) v lo hi)

  -- In the work RAM, a write to another address does not change what a read returns.
  pub read-write_ne :
      (a1 a2 val : ℕ) (w : W)
      → IsValid cgb (b.mmu w)
      → 0xC000 ≤ a1
      → a1 < 0xE000
      → 0xC000 ≤ a2
      → a2 < 0xE000
      → a1 ≢ a2
      → read b a2 (write b a1 val w) ≡ read b a2 w
  read-write_ne a1 a2 val w v lo1 hi1 lo2 hi2 ne = rw (write_in_wram b a1 val w lo1 hi1) (
      read_in_wram b a2 (b.with_mmu (write_wram a1 val (b.mmu w)) w) lo2 hi2
      ∙ ap (read_wram a2) (lawful.mmu-with_mmu (write_wram a1 val (b.mmu w)) w)
      ∙ read_wram-write_wram_ne cgb a1 a2 val (b.mmu w) v lo1 hi1 lo2 hi2 ne
      ∙ sym (read_in_wram b a2 w lo2 hi2))

  pub write-IsValid :
      (address val : ℕ) (w : W)
      → IsValid cgb (b.mmu w)
      → 0xC000 ≤ address
      → address < 0xE000
      → IsValid cgb (b.mmu (write b address val w))
  write-IsValid address val w v lo hi = rw (write_in_wram b address val w lo hi) (
      rw (lawful.mmu-with_mmu (write_wram address val (b.mmu w)) w)
        (write_wram-IsValid cgb address val (b.mmu w) v))
