-- ===== src/Machine/Run.antt =====
-- gameboy/src/gameboy.cpp: `tick`, `tick_one_frame` and `load_rom`.
use gameboi.Base.{
  ℕ, zero, suc, ◌*◌, Bool, true, false, not, ◌==◌, ltb, List, ◌∷◌, Option, none, some, ◌>>=◌,
  if◌then◌else◌, u8,
}
use gameboi.Cpu.Reset
use gameboi.Cpu.Request.{is_in_double_speed}
use gameboi.Timer
use gameboi.Joypad
use gameboi.Link
use gameboi.Cartridge.Header.{Saved}
use gameboi.Cartridge.Header
use gameboi.Mmu.State as MmuState
use gameboi.Mmu.Bus.{Bus}
use gameboi.Mmu.Map.{read}
use gameboi.Core.Decode
use gameboi.Core.Interrupts.{process_interrupts}
use gameboi.Ppu.State as PpuState
use gameboi.Ppu.Control.{ly_addr}
use gameboi.Ppu.Tick
use gameboi.Apu.Unit
use gameboi.System.{bus}
use gameboi.Machine.Units.{Machine, screen_of, devices_at, with_apu, with_units}

module _ (mix : List ℕ → ℕ → ℕ) (cgb : Bool) (depth : ℕ) where
  abbrev pub machine_bus : Bus Machine
  machine_bus = bus (devices_at cgb depth)

  abbrev pub tick_timer : ℕ → Machine → Machine
  tick_timer cycles m =
      let (t, c) =
        Timer.tick (if is_in_double_speed m.cpu then u8 (cycles * 2) else cycles)
          (m.timer, m.cpu) in
      record m { timer = t; cpu = c }

  abbrev pub tick_apu : ℕ → Machine → Machine
  tick_apu cycles m =
      let (a, full) = Unit.tick mix cycles m.devices.apu in
      let m' = with_apu a m in
      elim full [
        | none ↦ m'
        | some buffer ↦ with_units (λ u. record u { buffers = buffer ∷ u.buffers }) m'
      ]

  abbrev pub tick_link : ℕ → Machine → Machine
  tick_link cycles m =
      let (l, c) = Link.tick cycles (m.link, m.cpu) in record m { link = l; cpu = c }

  unfoldable pub tick_devices : ℕ → Machine → Machine
  tick_devices cycles m =
      if not m.cpu.is_stopped
      then tick_link cycles
          (Tick.tick (screen_of machine_bus) cycles (tick_apu cycles (tick_timer cycles m)))
      else m

  unfoldable pub tick : Machine → Option Machine
  tick m = do
    executed ← Decode.tick machine_bus m
    some (process_interrupts machine_bus (tick_devices executed.0 executed.1))

  unfoldable pub read_ly : Machine → ℕ
  read_ly m = read machine_bus ly_addr m

-- `while (test) tick`, on fuel; `none` is the end of the program in `tick`, or of the fuel.
unfoldable pub tick_while {ℓ} : {W : Type ℓ} → (W → Option W) → (W → Bool) → ℕ → W → Option W
tick_while tick test zero w = none
tick_while tick test (suc fuel) w = elim (test w) [
  | true ↦ tick w >>= tick_while tick test fuel
  | false ↦ some w
]

-- Over the machine's `tick` and its read of LY.
unfoldable pub tick_one_frame {ℓ} : {W : Type ℓ} → (W → Option W) → (W → ℕ) → ℕ → W → Option W
tick_one_frame tick read_ly fuel w =
    tick_while tick (λ m. not (read_ly m == 0)) fuel w
    >>= tick_while tick (λ m. ltb (read_ly m) 144) fuel

-- The cartridge is replaced, and every component reset.
unfoldable pub load_rom : List ℕ → Saved → Machine → Option Machine
load_rom rom saved m = do
  cartridge ← Header.load_rom rom saved m.cartridge
  let cgb = cartridge.cgb_enabled
  some record m {
    cartridge = cartridge;
    mmu = MmuState.reset cgb;
    cpu = Reset.reset cgb m.cpu;
    devices = record m.devices {
      ppu = PpuState.reset cgb m.devices.ppu.dma_transfer;
      apu = Unit.initial;
    };
    link = Link.reset cgb m.link;
    joypad = Joypad.initial;
    timer = Timer.initial;
  }
