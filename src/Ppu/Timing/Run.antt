-- ===== src/Ppu/Timing/Run.antt =====
-- Runs of ticks of the unit.
use gameboi.Base.{
  ℕ, ◌+◌, ◌-◌, ◌%◌, ◌≤◌, ◌<◌, ◌≡◌, ◌⊎◌, Bool, leb, if◌then◌else◌, List, [], ◌∷◌, ◌++◌, arith, refl,
  ap, sym, inl, inr,
}
use mathlib.Core.Path.{subst}
use native.Mathlib.Decide.{dec_lt}
use gameboi.Ppu.Stat.{StatMode}
use gameboi.Ppu.Screen.{Screen, IsLawful}
use gameboi.Ppu.Tick.{tick}
use gameboi.Ppu.Timing.{Timing, timing}
use gameboi.Ppu.Timing.Raster.{tick-advance}
use gameboi.Ppu.Timing.Frame.{frame, dots, InPhase, IsRunning, advance-IsRunning}

-- The first dot of the vertical blank.
abbrev pub v_blank_dot : ℕ
v_blank_dot = 65664

abbrev dots_to : ℕ → ℕ
dots_to d = if leb d v_blank_dot then v_blank_dot - d else v_blank_dot + frame - d

abbrev IsEntered : ℕ → Type 0
IsEntered d = (v_blank_dot ≤ d) × (d < v_blank_dot + 80)

near : (d n : ℕ) → d < frame → frame ≤ n → IsEntered d ⊎ (dots_to d ≤ n)
near d n h long = elim (dec_lt d v_blank_dot) [
  | yes before ↦ inr (ground arith)
  | no after ↦ elim (dec_lt d (v_blank_dot + 80)) [
    | yes inside ↦ inl (omega arith)
    | no past ↦ inr (ground arith)
  ]
]

closer :
    (d cycles d' n : ℕ)
    → d < frame
    → cycles ≤ 80
    → d' ≡ (d + cycles) % frame
    → dots_to d ≤ cycles + n
    → IsEntered d ⊎ (IsEntered d' ⊎ (dots_to d' ≤ n))
closer d cycles d' n h short e le = elim (dec_lt d v_blank_dot) [
  | yes before ↦ elim (dec_lt d' v_blank_dot) [
    | yes still ↦ inr (inr (ground arith))
    | no reached ↦ inr (inl (omega arith))
  ]
  | no after ↦ elim (dec_lt d (v_blank_dot + 80)) [
    | yes inside ↦ inl (omega arith)
    | no past ↦ inr (inr (ground arith))
  ]
]

entered_in :
    (mode : StatMode) (on transfers : Bool) (count secondary line ly : ℕ)
    → let t : Timing = record {
      on = on;
      mode = mode;
      cycles = count;
      secondary = secondary;
      line = line;
      ly = ly;
      transfers = transfers;
    } in
      InPhase t → IsEntered (dots t) → (t.mode ≡ StatMode.v_blank) × (t.ly ≡ 144)
entered_in StatMode.h_blank on transfers count secondary line ly h e = absurd (ground arith)
entered_in StatMode.v_blank on transfers count secondary line ly h e = (refl, ground arith)
entered_in StatMode.reading_oam on transfers count secondary line ly h e = absurd (ground arith)
entered_in StatMode.reading_oam_vram on transfers count secondary line ly h e =
    absurd (ground arith)

pub dots-lt :
    (mode : StatMode) (on transfers : Bool) (count secondary line ly : ℕ)
    → let t : Timing = record {
      on = on;
      mode = mode;
      cycles = count;
      secondary = secondary;
      line = line;
      ly = ly;
      transfers = transfers;
    } in
      InPhase t → dots t < frame
dots-lt StatMode.h_blank on transfers count secondary line ly h = omega arith
dots-lt StatMode.v_blank on transfers count secondary line ly h = omega arith
dots-lt StatMode.reading_oam on transfers count secondary line ly h = omega arith
dots-lt StatMode.reading_oam_vram on transfers count secondary line ly h = omega arith

abbrev pub total : List ℕ → ℕ
total [] = 0
total (cycles ∷ rest) = cycles + total rest

abbrev pub AllShort : List ℕ → Type 0
AllShort [] = Unit
AllShort (cycles ∷ rest) = (cycles ≤ 80) × AllShort rest

module _ {W : Type 0} (s : Screen W) where
  unfoldable pub run_ticks : List ℕ → W → W
  run_ticks [] w = w
  run_ticks (cycles ∷ rest) w = run_ticks rest (tick s cycles w)

module _ {W : Type 0} (s : Screen W) (lawful : IsLawful s) where
  abbrev at : W → Timing
  at w = timing (s.ppu w)

  -- A tick of at most 80 cycles moves the unit by exactly that many dots in the frame of 154 lines
  -- of 456, while the screen is on and no transfer waits for a horizontal blank; and the counters
  -- agree afterwards as they did before.
  pub tick-dots :
      (cycles : ℕ) (w : W)
      → IsRunning (timing (s.ppu w))
      → cycles ≤ 80
      → IsRunning (timing (s.ppu (tick s cycles w)))
        × (dots (timing (s.ppu (tick s cycles w))) ≡ (dots (timing (s.ppu w)) + cycles) % frame)
  tick-dots cycles w r k =
      subst (λ t. IsRunning t × (dots t ≡ (dots (at w) + cycles) % frame))
        (sym (tick-advance s lawful cycles w r.on r.quiet)) (advance-IsRunning cycles (at w) r k)

  abbrev Enters : List ℕ → W → Type 0
  Enters ticks w =
      (front : List ℕ) × (back : List ℕ) × (ticks ≡ front ++ back)
      × ((at (run_ticks s front w)).mode ≡ StatMode.v_blank)
      × ((at (run_ticks s front w)).ly ≡ 144)

  entered : (ticks : List ℕ) (w : W) → IsRunning (at w) → IsEntered (dots (at w)) → Enters ticks w
  unfolding run_ticks
  entered ticks w r e =
      let t = at w in
      let here = entered_in t.mode t.on t.transfers t.cycles t.secondary t.line t.ly r.phase e in
      ([], ticks, refl, here.0, here.1)

  enters :
      (ticks : List ℕ) (w : W)
      → IsRunning (at w)
      → AllShort ticks
      → IsEntered (dots (at w)) ⊎ (dots_to (dots (at w)) ≤ total ticks)
      → Enters ticks w
  unfolding run_ticks
  enters ticks w r short (inl e) = entered ticks w r e
  enters [] w r short (inr le) =
      let t = at w in
      let bound = dots-lt t.mode t.on t.transfers t.cycles t.secondary t.line t.ly r.phase in
      entered [] w r (ground arith)
  enters (cycles ∷ rest) w r short (inr le) =
      let moved = tick-dots cycles w r short.0 in
      let w' = tick s cycles w in
      let t = at w in
      let bound = dots-lt t.mode t.on t.transfers t.cycles t.secondary t.line t.ly r.phase in
      elim (closer (dots (at w)) cycles (dots (at w')) (total rest) bound (short.0) (moved.1) le) [
        | inl now ↦ entered (cycles ∷ rest) w r now
        | inr later ↦
            let (front, back, split, mode, line) = enters rest w' (moved.0) (short.1) later in
            (cycles ∷ front, back, ap (λ ticks. cycles ∷ ticks) split, mode, line)
      ]

  -- A run of such ticks that is a frame long meets the vertical blank: after some of its ticks the
  -- unit is in that mode and LY reads 144.
  pub run_ticks-reaches_v_blank :
      (ticks : List ℕ) (w : W)
      → IsRunning (timing (s.ppu w))
      → AllShort ticks
      → frame ≤ total ticks
      → (front : List ℕ) × (back : List ℕ) × (ticks ≡ front ++ back)
        × ((timing (s.ppu (run_ticks s front w))).mode ≡ StatMode.v_blank)
        × ((s.ppu (run_ticks s front w)).ly ≡ 144)
  run_ticks-reaches_v_blank ticks w r short long =
      let t = at w in
      let bound = dots-lt t.mode t.on t.transfers t.cycles t.secondary t.line t.ly r.phase in
      elim (near (dots t) (total ticks) bound long) [
        | inl now ↦ entered ticks w r now
        | inr later ↦ enters ticks w r short (inr later)
      ]
