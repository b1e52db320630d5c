-- ===== src/Mmu/Echo.antt =====
-- The mirror of the work RAM, and the register that selects its bank.
use gameboi.Base.{
  ℕ, ◌-◌, ◌≤◌, ◌<◌, ◌≡◌, ◌≢◌, true, ◌==◌, none, if◌then◌else◌, arith, refl, ◌∙◌, ap, bit_and,
  bit_and_mask, set, get_or-set_ne, get_or-set_self,
}
use gameboi.Mmu.State.{Mmu, physical_wram_addr, write_wram, read_wram}
use gameboi.Mmu.Bus.{Bus, IsLawful}
use gameboi.Mmu.Map.{write, read, write_undelegated, read_undelegated, svbk_addr}
use gameboi.Mmu.Bounds.{IsValid}
use gameboi.Mmu.Wram.{write_in_wram, read_in_wram}

module _ {W : Type 0} (b : Bus W) where
  -- In the echo range, at an address that no component has claimed, a write is the write to the
  -- work RAM 0x2000 below.
  write-echo :
      (address val : ℕ) (w : W)
      → b.find_delegate address ≡ none
      → 0xE000 ≤ address
      → address < 0xFE00
      → write b address val w ≡ write b (address - 0x2000) val w
  unfolding write write_undelegated
  write-echo address val w free lo hi = rw free (ground arith)

  -- In the echo range, at an address that no component has claimed, a read is the read of the work
  -- RAM 0x2000 below.
  pub read-echo :
      (address : ℕ) (w : W)
      → b.find_delegate address ≡ none
      → 0xE000 ≤ address
      → address < 0xFE00
      → read b address w ≡ read b (address - 0x2000) w
  unfolding read read_undelegated
  read-echo address w free lo hi = rw free (ground arith)

  -- A write to the bank register of a machine in the colour mode.
  pub switch_lem :
      (val : ℕ) (w : W)
      → b.find_delegate svbk_addr ≡ none
      → b.cgb_enabled w ≡ true
      → write b svbk_addr val w
        ≡ b.with_mmu
            (record (b.mmu w) { wram_bank = if bit_and val 0x7 == 0 then 1 else bit_and val 0x7 })
            w
  unfolding write write_undelegated
  switch_lem val w free cgb = rw (free, cgb) refl

abbrev select : ℕ → Mmu → Mmu
select bank m = record m { wram_bank = bank }

-- Two banks at one address of the switched half.
read_wram-other_bank :
    (i j address x y : ℕ) (m : Mmu)
    → IsValid true m
    → 1 ≤ i
    → i < 8
    → 1 ≤ j
    → j < 8
    → i ≢ j
    → 0xD000 ≤ address
    → address < 0xE000
    → read_wram address
        (select i (write_wram address y (select j (write_wram address x (select i m)))))
      ≡ x
unfolding read_wram write_wram physical_wram_addr
read_wram-other_bank i j address x y m v i1 i8 j1 j8 ne lo hi =
    let p = physical_wram_addr address (select i m) in
    let q = physical_wram_addr address (select j m) in
    let size = v.wram_fits in
    get_or-set_ne (set m.work_ram p x) q p y 0 (λ e. ne (ground arith))
    ∙ get_or-set_self m.work_ram p x 0 (ground arith)

low_bits : (i : ℕ) → i < 8 → bit_and i 0x7 ≡ i
low_bits i h = let e = bit_and_mask 3 i in omega arith

module _ {W : Type 0} (b : Bus W) (lawful : IsLawful b)
    (free : b.find_delegate svbk_addr ≡ none) where
  -- What the memory map is after a bank is selected, and after a write to the work RAM.
  mmu-switch :
      (bank : ℕ) (w : W)
      → b.cgb_enabled w ≡ true
      → 1 ≤ bank
      → bank < 8
      → b.mmu (write b svbk_addr bank w) ≡ select bank (b.mmu w)
  mmu-switch bank w cgb lo hi = rw (switch_lem b bank w free cgb) (
      lawful.mmu-with_mmu (select (if bit_and bank 0x7 == 0 then 1 else bit_and bank 0x7) (b.mmu w))
        w
      ∙ ap (λ n. select n (b.mmu w)) (let low = low_bits bank hi in ground arith))

  cgb-switch :
      (bank : ℕ) (w : W) → b.cgb_enabled w ≡ true → b.cgb_enabled (write b svbk_addr bank w) ≡ true
  cgb-switch bank w cgb = rw (switch_lem b bank w free cgb) (
      lawful.cgb-with_mmu (select (if bit_and bank 0x7 == 0 then 1 else bit_and bank 0x7) (b.mmu w))
        w
      ∙ cgb)

  mmu-write :
      (address val : ℕ) (w : W)
      → 0xC000 ≤ address
      → address < 0xE000
      → b.mmu (write b address val w) ≡ write_wram address val (b.mmu w)
  mmu-write address val w lo hi =
      rw (write_in_wram b address val w lo hi)
        (lawful.mmu-with_mmu (write_wram address val (b.mmu w)) w)

  cgb-write :
      (address val : ℕ) (w : W)
      → 0xC000 ≤ address
      → address < 0xE000
      → b.cgb_enabled (write b address val w) ≡ b.cgb_enabled w
  cgb-write address val w lo hi =
      rw (write_in_wram b address val w lo hi)
        (lawful.cgb-with_mmu (write_wram address val (b.mmu w)) w)

  -- In the colour mode, a byte written to one bank of the switched half is still there after another
  -- bank is selected, a byte is written to the same address, and the first bank is selected again.
  pub banks_apart :
      (i j address x y : ℕ) (w : W)
      → b.cgb_enabled w ≡ true
      → IsValid true (b.mmu w)
      → 1 ≤ i
      → i < 8
      → 1 ≤ j
      → j < 8
      → i ≢ j
      → 0xD000 ≤ address
      → address < 0xE000
      → read b address (
          write b svbk_addr i
            (write b address y (write b svbk_addr j (write b address x (write b svbk_addr i w)))))
        ≡ x
  banks_apart i j address x y w cgb v i1 i8 j1 j8 ne lo hi =
      let w1 = write b svbk_addr i w in
      let w2 = write b address x w1 in
      let w3 = write b svbk_addr j w2 in
      let w4 = write b address y w3 in
      let w5 = write b svbk_addr i w4 in
      let below : 0xC000 ≤ address = omega arith in
      let cgb1 = cgb-switch i w cgb in
      let cgb2 = cgb-write address x w1 below hi ∙ cgb1 in
      let cgb3 = cgb-switch j w2 cgb2 in
      let cgb4 = cgb-write address y w3 below hi ∙ cgb3 in
      read_in_wram b address w5 below hi
      ∙ ap (read_wram address) (
          mmu-switch i w4 cgb4 i1 i8
          ∙ ap (select i) (
              mmu-write address y w3 below hi
              ∙ ap (write_wram address y) (
                  mmu-switch j w2 cgb2 j1 j8
                  ∙ ap (select j) (
                      mmu-write address x w1 below hi
                      ∙ ap (write_wram address x) (mmu-switch i w cgb i1 i8)))))
      ∙ read_wram-other_bank i j address x y (b.mmu w) v i1 i8 j1 j8 ne lo hi
