-- ===== src/Machine/Frames.antt =====
-- `tick_one_frame` ends, while the program leaves the screen on.
use gameboi.Base.{
  ℕ, zero, suc, ◌+◌, ◌-◌, ◌%◌, ◌≤◌, ◌<◌, ◌≡◌, ◌≢◌, ◌⊎◌, Bool, true, false, not, ◌==◌, ltb,
  if◌then◌else◌, Option, none, some, ◌>>=◌, Bool-cases, inl, inr, arith, refl, ap, ◌∙◌, sym,
}
use mathlib.Core.Path.{subst}
use gameboi.Ppu.Stat.{StatMode}
use gameboi.Ppu.Timing.{Timing}
use gameboi.Ppu.Timing.Frame.{frame, dots, InPhase, IsRunning}
use gameboi.Ppu.Timing.Run.{dots-lt}
use gameboi.Machine.Run.{tick_while, tick_one_frame}

-- Where LY reads 0, and where it reads 144 or more.
abbrev line_zero_dot : ℕ
line_zero_dot = 69772

nonzero_in :
    (mode : StatMode) (on transfers : Bool) (count secondary line ly : ℕ)
    → let t : Timing = record {
      on = on;
      mode = mode;
      cycles = count;
      secondary = secondary;
      line = line;
      ly = ly;
      transfers = transfers;
    } in
      InPhase t → t.ly ≢ 0 → (456 ≤ dots t) × (dots t < 69772)
nonzero_in StatMode.h_blank on transfers count secondary line ly h e = ground arith
nonzero_in StatMode.v_blank on transfers count secondary line ly h e = ground arith
nonzero_in StatMode.reading_oam on transfers count secondary line ly h e = ground arith
nonzero_in StatMode.reading_oam_vram on transfers count secondary line ly h e = ground arith

shown_in :
    (mode : StatMode) (on transfers : Bool) (count secondary line ly : ℕ)
    → let t : Timing = record {
      on = on;
      mode = mode;
      cycles = count;
      secondary = secondary;
      line = line;
      ly = ly;
      transfers = transfers;
    } in
      InPhase t → t.ly < 144 → (dots t < 65664) ⊎ (69772 ≤ dots t)
shown_in StatMode.h_blank on transfers count secondary line ly h e = inl (omega arith)
shown_in StatMode.v_blank on transfers count secondary line ly h e = inr (ground arith)
shown_in StatMode.reading_oam on transfers count secondary line ly h e = inl (omega arith)
shown_in StatMode.reading_oam_vram on transfers count secondary line ly h e = inl (omega arith)

-- The dots to either.
abbrev to_zero : ℕ → ℕ
to_zero d = if ltb d 456 then 0 else if ltb d 69772 then 69772 - d else 0

abbrev to_v_blank : ℕ → ℕ
to_v_blank d = if ltb d 65664 then 65664 - d else if ltb d 69772 then 0 else 65664 + frame - d

to_zero-falls :
    (d c d' : ℕ)
    → (456 ≤ d) × (d < 69772)
    → 1 ≤ c
    → c ≤ 80
    → d' ≡ (d + c) % frame
    → to_zero d' < to_zero d
to_zero-falls d c d' h lo hi e = ground arith

to_v_blank-falls :
    (d c d' : ℕ)
    → d < frame
    → (d < 65664) ⊎ (69772 ≤ d)
    → 1 ≤ c
    → c ≤ 80
    → d' ≡ (d + c) % frame
    → to_v_blank d' < to_v_blank d
to_v_blank-falls d c d' b (inl h) lo hi e = ground arith
to_v_blank-falls d c d' b (inr h) lo hi e = ground arith

to_zero-bound : (d fuel : ℕ) → frame < fuel → to_zero d < fuel
to_zero-bound d fuel h = ground arith

to_v_blank-bound : (d fuel : ℕ) → d < frame → frame < fuel → to_v_blank d < fuel
to_v_blank-bound d fuel b h = ground arith

nonzero_test : (n : ℕ) → not (n == 0) ≡ true → n ≢ 0
nonzero_test n h = ground arith

shown_test : (n m : ℕ) → n ≡ m → ltb n 144 ≡ true → m < 144
shown_test n m e h = ground arith

at_zero : (n : ℕ) → n ≡ 0 → not (n == 0) ≡ false
at_zero n h = ground arith

below_end : (n : ℕ) → n ≡ 0 → ltb n 144 ≡ true
below_end n h = ground arith

module _ {ℓ} {W : Type ℓ} (tick : W → Option W) where
  goes_on :
      (test : W → Bool) (fuel : ℕ) (w w' : W)
      → test w ≡ true
      → tick w ≡ some w'
      → tick_while tick test (suc fuel) w ≡ tick_while tick test fuel w'
  unfolding tick_while
  goes_on test fuel w w' e s =
      subst
        (λ b.
          elim b [ true ↦ tick w >>= tick_while tick test fuel | false ↦ some w ]
          ≡ tick_while tick test fuel w')
        (sym e) (ap (λ o. o >>= tick_while tick test fuel) s)

  leaves :
      (test : W → Bool) (fuel : ℕ) (w : W)
      → test w ≡ false
      → tick_while tick test (suc fuel) w ≡ some w
  unfolding tick_while
  leaves test fuel w e =
      subst (λ b. elim b [ true ↦ tick w >>= tick_while tick test fuel | false ↦ some w ] ≡ some w)
        (sym e) refl

  module _ (orbit : ℕ → W) (steps : (n : ℕ) → tick (orbit n) ≡ some (orbit (suc n))) where
    -- A loop whose test can hold only while a measure falls.
    tick_while-ends :
        (test : W → Bool) (measure : ℕ → ℕ)
        → ((n : ℕ) → test (orbit n) ≡ true → measure (suc n) < measure n)
        → (fuel n : ℕ) → measure n < fuel
        → (k : ℕ) × (tick_while tick test fuel (orbit n) ≡ some (orbit k))
          × (test (orbit k) ≡ false)
    tick_while-ends test measure falls zero n h = absurd (omega arith)
    tick_while-ends test measure falls (suc fuel) n h = elim (Bool-cases (test (orbit n))) [
      | inr ended ↦ (n, leaves test fuel (orbit n) ended, ended)
      | inl goes ↦
          let (k, runs, ended) =
            tick_while-ends test measure falls fuel (suc n) (omega (arith, falls n goes)) in
          (k, goes_on test fuel (orbit n) (orbit (suc n)) goes (steps n) ∙ runs, ended)
    ]

-- A run of the machine: every tick returns and moves its picture unit, which is running, by 1 to 80
-- dots; the machine reads LY off that unit.
pub record Runs {ℓ} {W : Type ℓ} (tick : W → Option W) (read_ly : W → ℕ) (screen : W → Timing)
    (orbit : ℕ → W) : Type ℓ where
  pub steps : (n : ℕ) → tick (orbit n) ≡ some (orbit (suc n))
  pub running : (n : ℕ) → IsRunning (screen (orbit n))
  pub shows : (n : ℕ) → read_ly (orbit n) ≡ (screen (orbit n)).ly
  pub cycles : ℕ → ℕ
  pub some_cycle : (n : ℕ) → 1 ≤ cycles n
  pub short : (n : ℕ) → cycles n ≤ 80
  pub moves : (n : ℕ) → dots (screen (orbit (suc n))) ≡ (dots (screen (orbit n)) + cycles n) % frame

module _ {ℓ} {W : Type ℓ} (tick : W → Option W) (read_ly : W → ℕ) (screen : W → Timing)
    (orbit : ℕ → W) (runs : Runs tick read_ly screen orbit) where
  abbrev at : ℕ → ℕ
  at n = dots (screen (orbit n))

  at-lt : (n : ℕ) → at n < frame
  at-lt n =
      let t = screen (orbit n) in
      dots-lt t.mode t.on t.transfers t.cycles t.secondary t.line t.ly (runs.running n).phase

  to_zero-at : (n : ℕ) → not (read_ly (orbit n) == 0) ≡ true → to_zero (at (suc n)) < to_zero (at n)
  to_zero-at n h =
      let t = screen (orbit n) in
      let nonzero : t.ly ≢ 0 = λ e. nonzero_test (read_ly (orbit n)) h (runs.shows n ∙ e) in
      to_zero-falls (at n) (runs.cycles n) (at (suc n))
        (nonzero_in t.mode t.on t.transfers t.cycles t.secondary t.line t.ly (runs.running n).phase
          nonzero)
        (runs.some_cycle n) (runs.short n) (runs.moves n)

  to_v_blank-at :
      (n : ℕ) → ltb (read_ly (orbit n)) 144 ≡ true → to_v_blank (at (suc n)) < to_v_blank (at n)
  to_v_blank-at n h =
      let t = screen (orbit n) in
      let below : t.ly < 144 = shown_test (read_ly (orbit n)) t.ly (runs.shows n) h in
      to_v_blank-falls (at n) (runs.cycles n) (at (suc n)) (at-lt n)
        (shown_in t.mode t.on t.transfers t.cycles t.secondary t.line t.ly (runs.running n).phase
          below)
        (runs.some_cycle n) (runs.short n) (runs.moves n)

  -- On such a run `tick_one_frame` returns with any fuel above the dots of a frame, at a state of
  -- the run at which LY reads 144 or more.
  pub tick_one_frame-ends :
      (fuel : ℕ)
      → frame < fuel
      → (k : ℕ) × (tick_one_frame tick read_ly fuel (orbit 0) ≡ some (orbit k))
        × (144 ≤ read_ly (orbit k))
  unfolding tick_one_frame
  tick_one_frame-ends fuel enough =
      let (j, first, zero_line) =
        tick_while-ends tick orbit runs.steps (λ w. not (read_ly w == 0)) (λ n. to_zero (at n))
          to_zero-at fuel 0 (to_zero-bound (at 0) fuel enough) in
      let (k, second, shown) =
        tick_while-ends tick orbit runs.steps (λ w. ltb (read_ly w) 144) (λ n. to_v_blank (at n))
          to_v_blank-at fuel j (to_v_blank-bound (at j) fuel (at-lt j) enough) in
      (
        k,
        ap (λ o. o >>= tick_while tick (λ w. ltb (read_ly w) 144) fuel) first ∙ second,
        ground arith,
      )

module _ {ℓ} {W : Type ℓ} (tick : W → Option W) where
  waits :
      (test : W → Bool) (orbit : ℕ → W)
      → ((n : ℕ) → tick (orbit n) ≡ some (orbit (suc n)))
      → ((n : ℕ) → test (orbit n) ≡ true)
      → (fuel n : ℕ) → tick_while tick test fuel (orbit n) ≡ none
  unfolding tick_while
  waits test orbit steps on zero n = refl
  waits test orbit steps on (suc fuel) n =
      goes_on tick test fuel (orbit n) (orbit (suc n)) (on n) (steps n)
      ∙ waits test orbit steps on fuel (suc n)

  -- If LY reads 0 at every state of a run, no fuel is enough.
  pub tick_one_frame-waits :
      (read_ly : W → ℕ) (orbit : ℕ → W)
      → ((n : ℕ) → tick (orbit n) ≡ some (orbit (suc n)))
      → ((n : ℕ) → read_ly (orbit n) ≡ 0)
      → (fuel : ℕ) → tick_one_frame tick read_ly fuel (orbit 0) ≡ none
  unfolding tick_one_frame tick_while
  tick_one_frame-waits read_ly orbit steps off zero = refl
  tick_one_frame-waits read_ly orbit steps off (suc fuel) =
      let shown = λ (w : W). ltb (read_ly w) 144 in
      ap (λ o. o >>= tick_while tick shown (suc fuel))
        (leaves tick (λ (w : W). not (read_ly w == 0)) fuel (orbit 0)
          (at_zero (read_ly (orbit 0)) (off 0)))
      ∙ waits shown orbit steps (λ n. below_end (read_ly (orbit n)) (off n)) (suc fuel) 0
