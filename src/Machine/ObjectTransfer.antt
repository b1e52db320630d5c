-- ===== src/Machine/ObjectTransfer.antt =====
-- A transfer into the table of objects, on the whole machine.
use gameboi.Base.{
  ℕ, zero, suc, ◌+◌, ◌-◌, ◌*◌, ◌≤◌, ◌<◌, ◌≡◌, Bool, true, false, get_or, set, length, length-set,
  get_or-set_self, get_or-set_ne, u16, shl, arith, refl, ap, ◌∙◌, sym,
}
use mathlib.Core.Path.{subst}
use native.Mathlib.Decide.{ℕ_discrete}
use gameboi.Mmu.State.{read_wram}
use gameboi.Mmu.Map.{read, write, dma, dma_from}
use gameboi.Ppu.Stat.{get_mode}
use gameboi.Ppu.State.{Ppu}
use gameboi.Ppu.Memory.{is_oam_closed, write_oam}
use gameboi.Ppu.Screen.{on_ppu}
use gameboi.Ppu.Dma.{oam_dma_addr, on_transfer, dma_write}
use gameboi.System.{bus}
use gameboi.Machine.Units.{Machine, with_ppu, screen_of, devices_at}

module _ (cgb : Bool) (depth : ℕ) where
  write_at_oam :
      (depth a val : ℕ) (m : Machine)
      → 0xFE00 ≤ a
      → a < 0xFEA0
      → write (bus (devices_at cgb depth)) a val m ≡ with_ppu (write_oam a val m.devices.ppu) m
  unfolding write devices_at
  write_at_oam zero a val m lo hi = ground arith
  write_at_oam (suc depth) a val m lo hi = ground arith

  closed_write :
      (a val : ℕ) (p : Ppu) → is_oam_closed (get_mode p.stat) ≡ true → write_oam a val p ≡ p
  unfolding write_oam
  closed_write a val p closed = ground arith

  read_at_wram :
      (depth a : ℕ) (m : Machine)
      → 0xC000 ≤ a
      → a < 0xE000
      → read (bus (devices_at cgb depth)) a m ≡ read_wram a m.mmu
  unfolding read devices_at
  read_at_wram zero a m lo hi = ground arith
  read_at_wram (suc depth) a m lo hi = ground arith

  closed_from :
      (i left source : ℕ) (m : Machine)
      → is_oam_closed (get_mode m.devices.ppu.stat) ≡ true
      → i + left ≤ 160
      → dma_from (bus (devices_at cgb depth)) i left source 0xFE00 m ≡ m
  closed_from i zero source m closed room = refl
  closed_from i (suc left) source m closed room =
      let b = bus (devices_at cgb depth) in
      let a = u16 (0xFE00 + i) in
      let val = read b (u16 (source + i)) m in
      let same : write b a val m ≡ m =
        write_at_oam depth a val m (omega arith) (omega arith)
        ∙ ap (λ p. with_ppu p m) (closed_write a val m.devices.ppu closed) in
      ap (dma_from b (i + 1) left source 0xFE00) same
      ∙ closed_from (i + 1) left source m closed (omega arith)

  -- While the unit reads the table of objects, or the video memory, a transfer into the table is
  -- lost: whatever its source, only the register that started it changes.
  pub dma_write-lost :
      (val : ℕ) (m : Machine)
      → is_oam_closed (get_mode m.devices.ppu.stat) ≡ true
      → let s = screen_of (bus (devices_at cgb depth)) in
        dma_write s oam_dma_addr val m ≡ on_ppu s (on_transfer (λ t. record t { oam_dma = val })) m
  unfolding dma_write dma
  dma_write-lost val m closed =
      let s = screen_of (bus (devices_at cgb depth)) in
      closed_from 0 160 (u16 (shl val 8))
        (on_ppu s (on_transfer (λ t. record t { oam_dma = val })) m) closed (omega arith)

  -- The bytes before `i` are copied, and what a transfer reads and tests is as it was.
  record Copied (i source : ℕ) (from m : Machine) : Type 0 where
    memory : m.mmu ≡ from.mmu
    mode : get_mode m.devices.ppu.stat ≡ get_mode from.devices.ppu.stat
    size : length m.devices.ppu.oam ≡ 160
    bytes : (k : ℕ) → k < i → get_or m.devices.ppu.oam k 0 ≡ read_wram (source + k) from.mmu

  open_write :
      (a val : ℕ) (p : Ppu)
      → is_oam_closed (get_mode p.stat) ≡ false
      → write_oam a val p ≡ record p { oam = set p.oam (a - 0xFE00) val }
  unfolding write_oam
  open_write a val p opened = ground arith

  copies :
      (i left source : ℕ) (from m : Machine)
      → is_oam_closed (get_mode from.devices.ppu.stat) ≡ false
      → 0xC000 ≤ source
      → source + 160 ≤ 0xE000
      → i + left ≡ 160
      → Copied i source from m
      → Copied 160 source from (dma_from (bus (devices_at cgb depth)) i left source 0xFE00 m)
  copies i zero source from m opened lo hi room c =
      let all : i ≡ 160 = omega arith in subst (λ k. Copied k source from m) all c
  copies i (suc left) source from m opened lo hi room c =
      let b = bus (devices_at cgb depth) in
      let a = u16 (0xFE00 + i) in
      let val = read b (u16 (source + i)) m in
      let p = m.devices.ppu in
      let m' = with_ppu (record p { oam = set p.oam (a - 0xFE00) val }) m in
      let written : write b a val m ≡ m' =
        write_at_oam depth a val m (omega arith) (omega arith)
        ∙ ap (λ p. with_ppu p m) (open_write a val p (ap is_oam_closed c.mode ∙ opened)) in
      let place : a - 0xFE00 ≡ i = omega arith in
      let address : u16 (source + i) ≡ source + i = omega arith in
      let value : val ≡ read_wram (source + i) from.mmu =
        read_at_wram depth (u16 (source + i)) m (omega arith) (omega arith)
        ∙ ap (λ x. read_wram x m.mmu) address
        ∙ ap (read_wram (source + i)) c.memory in
      let step : Copied (i + 1) source from m' = record {
        memory = c.memory;
        mode = c.mode;
        size = length-set p.oam (a - 0xFE00) val ∙ c.size;
        bytes = λ k h. elim (ℕ_discrete i k) [
          | yes here ↦
              ap (λ j. get_or (set p.oam j val) k 0) place
              ∙ subst (λ k. get_or (set p.oam i val) k 0 ≡ read_wram (source + k) from.mmu) here
                  (get_or-set_self p.oam i val 0 (let size = c.size in omega arith) ∙ value)
          | no before ↦
              ap (λ j. get_or (set p.oam j val) k 0) place
              ∙ get_or-set_ne p.oam i k val 0 before
              ∙ c.bytes k (omega arith)
        ];
      } in
      subst (λ x. Copied 160 source from (dma_from b (i + 1) left source 0xFE00 x)) (sym written)
        (copies (i + 1) left source from m' opened lo hi (omega arith) step)

  -- In every other mode a transfer from a page of the work RAM copies its first 160 bytes: each
  -- entry of the table is the byte that the memory map gave for its place in the page.
  pub dma_write-copies :
      (val k : ℕ) (m : Machine)
      → is_oam_closed (get_mode m.devices.ppu.stat) ≡ false
      → length m.devices.ppu.oam ≡ 160
      → 0xC0 ≤ val
      → val < 0xE0
      → k < 160
      → let b = bus (devices_at cgb depth) in
        get_or (dma_write (screen_of b) oam_dma_addr val m).devices.ppu.oam k 0
        ≡ read b (val * 256 + k) m
  unfolding dma_write dma
  dma_write-copies val k m opened size lo hi h =
      let s = screen_of (bus (devices_at cgb depth)) in
      let m' = on_ppu s (on_transfer (λ t. record t { oam_dma = val })) m in
      let source : u16 (shl val 8) ≡ val * 256 = omega arith in
      let copied =
        copies 0 160 (u16 (shl val 8)) m' m' opened (omega arith) (omega arith) (omega arith)
          (record {
            memory = refl;
            mode = refl;
            size = size;
            bytes = λ j lt. absurd (omega arith);
          }) in
      copied.bytes k h
      ∙ ap (λ x. read_wram (x + k) m.mmu) source
      ∙ sym (read_at_wram depth (val * 256 + k) m (omega arith) (omega arith))
