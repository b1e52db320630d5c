-- ===== src/Ppu/Memory/Laws.antt =====
-- The two memories of the unit, in every mode.
use gameboi.Base.{
  ℕ, ◌-◌, ◌*◌, ◌≤◌, ◌<◌, ◌≡◌, ◌==◌, List, get_or, set, length, get_or-set_self, get_or-set_ne,
  if◌then◌else◌, arith, ap,
}
use native.Mathlib.Decide.{ℕ_discrete}
use gameboi.Ppu.Stat.{get_mode}
use gameboi.Ppu.State.{Ppu}
use gameboi.Ppu.Memory.{is_oam_closed, read_oam, write_oam}

-- The sizes that `reset` gives the memories, and a bank that the machine has.
pub record IsSized (p : Ppu) : Type 0 where
  pub ram_size : length p.ram ≡ (if p.cgb_enabled then 2 else 1) * 8192
  pub oam_size : length p.oam ≡ 160
  pub bank_fits : p.vram_bank < (if p.cgb_enabled then 2 else 1)

get_or-set :
    (xs : List ℕ) (i j v : ℕ)
    → i < length xs
    → get_or (set xs i v) j 0 ≡ (if i == j then v else get_or xs j 0)
get_or-set xs i j v h = elim (ℕ_discrete i j) [
  | yes e ↦ ground (arith, get_or-set_self xs i v 0 h, ap (λ k. get_or (set xs i v) k 0) e)
  | no e ↦ ground (arith, get_or-set_ne xs i j v 0 e)
]

-- The table of objects, likewise, and closed in one mode more.
pub read_oam-write_oam :
    (a a' val : ℕ) (p : Ppu)
    → IsSized p
    → 0xFE00 ≤ a
    → a < 0xFEA0
    → 0xFE00 ≤ a'
    → a' < 0xFEA0
    → read_oam a' (write_oam a val p)
      ≡ (if is_oam_closed (get_mode p.stat) then 0xFF else if a == a' then val else read_oam a' p)
unfolding read_oam write_oam
read_oam-write_oam a a' val p sized lo hi lo' hi' =
    let size = sized.oam_size in
    let kept = get_or-set p.oam (a - 0xFE00) (a' - 0xFE00) val (omega arith) in ground (arith, kept)
