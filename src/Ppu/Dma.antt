-- ===== src/Ppu/Dma.antt =====
-- gameboy/src/ppu/ppu.cpp: the transfers into the video memory and the table of objects.
use gameboi.Base.{
  ℕ, Bool, true, false, not, ◌==◌, ◌&&◌, ◌||◌, ltb, if◌then◌else◌, bit_and, bit_or, shl, u16, sub8,
}
use gameboi.Range
use gameboi.Util.Bit
use gameboi.Register16.{Register16, value, assign, add_assign}
use gameboi.Mmu.Map.{dma}
use gameboi.Ppu.Stat.{StatMode, get_mode}
use gameboi.Ppu.State.{Ppu, Transfer, unit_transfer_length, transfer_length, disabled}
use gameboi.Ppu.Screen.{Screen, on_ppu}

abbrev pub oam_dma_addr : ℕ
oam_dma_addr = 0xFF46

abbrev pub hdma_1_addr : ℕ
hdma_1_addr = 0xFF51

abbrev pub hdma_2_addr : ℕ
hdma_2_addr = 0xFF52

abbrev pub hdma_3_addr : ℕ
hdma_3_addr = 0xFF53

abbrev pub hdma_4_addr : ℕ
hdma_4_addr = 0xFF54

abbrev pub hdma_5_addr : ℕ
hdma_5_addr = 0xFF55

unfoldable pub dma_read : ℕ → Ppu → ℕ
dma_read address p =
    let t = p.dma_transfer in
    if address == oam_dma_addr
    then t.oam_dma
    else if address == hdma_1_addr
    then t.source.high
    else if address == hdma_2_addr
    then t.source.low
    else if address == hdma_3_addr
    then t.destination.high
    else if address == hdma_4_addr
    then t.destination.low
    else if address == hdma_5_addr
    then t.length_mode_start
    else 0

-- The step of a pair past one end of the video memory.
abbrev pub wrapped : ℕ → ℕ → Register16 → Register16
wrapped end start r = if value r == end then assign start else r

abbrev pub on_transfer : (Transfer → Transfer) → Ppu → Ppu
on_transfer f p = record p { dma_transfer = f p.dma_transfer }

-- What `hdma` leaves in the registers after it has copied a unit.
abbrev pub next_unit : Transfer → Transfer
next_unit t = record t {
  source = wrapped 0x8000 0xA000 (add_assign t.source unit_transfer_length);
  destination = wrapped 0xA000 0x8000 (add_assign t.destination unit_transfer_length);
  length_mode_start = sub8 t.length_mode_start 1;
}

-- What `gdma` leaves.
abbrev pub whole : ℕ → Transfer → Transfer
whole length t = record t {
  source = add_assign t.source length;
  destination = add_assign t.destination length;
  length_mode_start = 0xFF;
}

-- A write to one of the first four registers of the colour machine's transfers.
abbrev pub set_ends : ℕ → ℕ → Transfer → Transfer
set_ends address val t =
    if address == hdma_1_addr
    then record t {
      source = record t.source {
        high = if (ltb 0x7F val && ltb val 0xA0) || ltb 0xDF val then 0x00 else val;
      };
    }
    else if address == hdma_2_addr
    then record t { source = record t.source { low = bit_and val 0xF0 } }
    else if address == hdma_3_addr
    then record t { destination = record t.destination { high = bit_or (bit_and val 0x1F) 0x80 } }
    else if address == hdma_4_addr
    then record t { destination = record t.destination { low = bit_and val 0xF0 } }
    else t

abbrev pub start_with : ℕ → Transfer → Transfer
start_with val t = record t { length_mode_start = val }

abbrev pub is_h_blank : StatMode → Bool
is_h_blank StatMode.h_blank = true
is_h_blank StatMode.v_blank = false
is_h_blank StatMode.reading_oam = false
is_h_blank StatMode.reading_oam_vram = false

module _ {W : Type 0} (s : Screen W) where
  unfoldable pub hdma : W → W
  hdma w =
      let t = (s.ppu w).dma_transfer in
      on_ppu s (on_transfer next_unit)
        (dma s.bus (value t.source) (value t.destination) unit_transfer_length w)

  unfoldable pub gdma : W → W
  gdma w =
      let t = (s.ppu w).dma_transfer in
      let length = transfer_length t in
      on_ppu s (on_transfer (whole length))
        (dma s.bus (value t.source) (value t.destination) length w)

  -- The write to the last register: it changes, starts or stops a transfer.
  unfoldable pub start_transfer : ℕ → W → W
  start_transfer val w =
      let started = on_ppu s (on_transfer (start_with val)) w in
      let cut = on_ppu s (on_transfer (start_with (bit_and val 0x7F))) w in
      if not (disabled (s.ppu w).dma_transfer)
      then if Bit.test val 7 then cut else started
      else if Bit.test val 7
      then if is_h_blank (get_mode (s.ppu w).stat) then hdma cut else cut
      else gdma started

  unfoldable pub dma_write : ℕ → ℕ → W → W
  dma_write address val w =
      if address == oam_dma_addr
      then dma s.bus (u16 (shl val 8)) Range.oam_range.low (Range.size Range.oam_range)
          (on_ppu s (on_transfer (λ t. record t { oam_dma = val })) w)
      else if address == hdma_5_addr
      then start_transfer val w
      else on_ppu s (on_transfer (set_ends address val)) w
