-- ===== src/Ppu/Timing/Frame.antt =====
-- The frame of the mode machine as a count of dots.
use gameboi.Base.{
  ℕ, ◌+◌, ◌*◌, ◌%◌, ◌≤◌, ◌<◌, ◌≡◌, Bool, true, false, leb, if◌then◌else◌, arith, ◌∙◌,
}
use gameboi.Ppu.Stat.{StatMode}
use gameboi.Ppu.Timing.{Timing}
use gameboi.Ppu.Timing.Raster.{advance}

-- The dots of a frame of 154 lines of 456.
abbrev pub frame : ℕ
frame = 70224

abbrev dots_in : StatMode → Timing → ℕ
dots_in StatMode.h_blank t = 456 * t.ly + 252 + t.cycles
dots_in StatMode.v_blank t = 456 * 144 + t.cycles
dots_in StatMode.reading_oam t = 456 * t.ly + t.cycles
dots_in StatMode.reading_oam_vram t = 456 * t.ly + 80 + t.cycles

-- Where in the frame the unit is.
abbrev pub dots : Timing → ℕ
dots t = dots_in t.mode t

-- The counters agree with one another in every mode.
abbrev Agrees : StatMode → Timing → Type 0
Agrees StatMode.h_blank t = (t.ly < 144) × (t.cycles < 204)
Agrees StatMode.v_blank t =
    (t.cycles < 4560)
    × (t.line < 10)
    × (t.secondary < 456)
    × (t.cycles ≡ 456 * t.line + t.secondary)
    × (t.ly ≡ (if leb 4108 t.cycles then 0 else 144 + t.line))
Agrees StatMode.reading_oam t = (t.ly < 144) × (t.cycles < 80)
Agrees StatMode.reading_oam_vram t = (t.ly < 144) × (t.cycles < 172)

abbrev pub InPhase : Timing → Type 0
InPhase t = Agrees t.mode t

advance_in :
    (mode : StatMode) (cycles : ℕ) (on transfers : Bool) (count secondary line ly : ℕ)
    → let t : Timing = record {
      on = on;
      mode = mode;
      cycles = count;
      secondary = secondary;
      line = line;
      ly = ly;
      transfers = transfers;
    } in
      InPhase t
      → cycles ≤ 80
      → InPhase (advance cycles t) × (dots (advance cycles t) ≡ (dots t + cycles) % frame)
advance_in StatMode.h_blank cycles on transfers count secondary line ly h k = ground arith
advance_in StatMode.v_blank cycles on transfers count secondary line ly h k = ground arith
advance_in StatMode.reading_oam cycles on transfers count secondary line ly h k = ground arith
advance_in StatMode.reading_oam_vram cycles on transfers count secondary line ly h k = ground arith

-- The screen is on, no transfer waits for a horizontal blank, and the counters agree.
pub record IsRunning (t : Timing) : Type 0 where
  pub on : t.on ≡ true
  pub quiet : t.transfers ≡ false
  pub phase : InPhase t

kept_in :
    (mode : StatMode) (cycles : ℕ) (on transfers : Bool) (count secondary line ly : ℕ)
    → let t : Timing = record {
      on = on;
      mode = mode;
      cycles = count;
      secondary = secondary;
      line = line;
      ly = ly;
      transfers = transfers;
    } in
      ((advance cycles t).on ≡ on) × ((advance cycles t).transfers ≡ transfers)
kept_in StatMode.h_blank cycles on transfers count secondary line ly = ground arith
kept_in StatMode.v_blank cycles on transfers count secondary line ly = ground arith
kept_in StatMode.reading_oam cycles on transfers count secondary line ly = ground arith
kept_in StatMode.reading_oam_vram cycles on transfers count secondary line ly = ground arith

pub advance-IsRunning :
    (cycles : ℕ) (t : Timing)
    → IsRunning t
    → cycles ≤ 80
    → IsRunning (advance cycles t) × (dots (advance cycles t) ≡ (dots t + cycles) % frame)
advance-IsRunning cycles t r k =
    let kept = kept_in t.mode cycles t.on t.transfers t.cycles t.secondary t.line t.ly in
    let moved =
      advance_in t.mode cycles t.on t.transfers t.cycles t.secondary t.line t.ly r.phase k in
    (record { on = kept.0 ∙ r.on; quiet = kept.1 ∙ r.quiet; phase = moved.0 }, moved.1)
