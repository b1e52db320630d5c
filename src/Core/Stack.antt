-- ===== src/Core/Stack.antt =====
-- The stack in the work RAM.
use gameboi.Base.{ℕ, ◌+◌, ◌-◌, ◌≤◌, ◌<◌, ◌≡◌, ◌≢◌, Bool, arith, refl, ◌∙◌, sym, ap}
use gameboi.Register16.{Register16, IsBytes, value, increment, decrement}
use gameboi.Register16.Laws.{increment_lem, decrement_lem, decrement-IsBytes, increment-decrement}
use gameboi.Cpu.State.{Cpu}
use gameboi.Cpu.Registers.{Reg16, get16, put16, sp}
use gameboi.Mmu.State.{read_wram, write_wram}
use gameboi.Mmu.Bus.{Bus, IsLawful}
use gameboi.Mmu.Map.{read, write}
use gameboi.Mmu.Bounds.{IsValid}
use gameboi.Mmu.Wram.{read-write, read-write_ne, write-IsValid, write_in_wram, read_in_wram}
use gameboi.Core.Memory.{modify, lowered, raised, lower_stack, raise_stack, top, push, pop}

-- Moving the stack pointer changes no other register.
get16-sp :
    (reg : Reg16) (s : Register16) (c : Cpu)
    → reg ≢ sp
    → get16 reg (record c { stack_pointer = s }) ≡ get16 reg c
get16-sp Reg16.af s c ne = refl
get16-sp Reg16.bc s c ne = refl
get16-sp Reg16.de s c ne = refl
get16-sp Reg16.hl s c ne = refl
get16-sp Reg16.sp s c ne = absurd (ne refl)
get16-sp Reg16.pc s c ne = refl

put16-sp :
    (reg : Reg16) (r : Register16) (c : Cpu)
    → reg ≢ sp
    → (put16 reg r c).stack_pointer ≡ c.stack_pointer
put16-sp Reg16.af r c ne = refl
put16-sp Reg16.bc r c ne = refl
put16-sp Reg16.de r c ne = refl
put16-sp Reg16.hl r c ne = refl
put16-sp Reg16.sp r c ne = absurd (ne refl)
put16-sp Reg16.pc r c ne = refl

-- The two assignments of `pop`.
abbrev low_half : Reg16 → ℕ → Cpu → Cpu
low_half reg v c = put16 reg (record { high = (get16 reg c).high; low = v }) c

abbrev high_half : Reg16 → ℕ → Cpu → Cpu
high_half reg v c = put16 reg (record { high = v; low = (get16 reg c).low }) c

half_by_half :
    (reg : Reg16) (high low : ℕ) (c : Cpu)
    → reg ≢ sp
    → high_half reg high (raised (low_half reg low c))
      ≡ put16 reg (record { high = high; low = low }) (raised c)
half_by_half Reg16.af high low c ne = refl
half_by_half Reg16.bc high low c ne = refl
half_by_half Reg16.de high low c ne = refl
half_by_half Reg16.hl high low c ne = refl
half_by_half Reg16.sp high low c ne = absurd (ne refl)
half_by_half Reg16.pc high low c ne = refl

module _ {W : Type 0} (b : Bus W) (lawful : IsLawful b) (cgb : Bool) where
  pub cpu-modify : (f : Cpu → Cpu) (w : W) → b.cpu (modify b f w) ≡ f (b.cpu w)
  cpu-modify f w = lawful.cpu-with_cpu (f (b.cpu w)) w

  pub mmu-modify : (f : Cpu → Cpu) (w : W) → b.mmu (modify b f w) ≡ b.mmu w
  mmu-modify f w = lawful.mmu-with_cpu (f (b.cpu w)) w

  -- A change of the processor's state leaves the work RAM alone.
  pub read-modify :
      (f : Cpu → Cpu) (a : ℕ) (w : W)
      → 0xC000 ≤ a
      → a < 0xE000
      → read b a (modify b f w) ≡ read b a w
  read-modify f a w lo hi =
      read_in_wram b a (modify b f w) lo hi
      ∙ ap (read_wram a) (mmu-modify f w)
      ∙ sym (read_in_wram b a w lo hi)

  -- A write to the work RAM leaves the processor's state alone.
  cpu-write : (a val : ℕ) (w : W) → 0xC000 ≤ a → a < 0xE000 → b.cpu (write b a val w) ≡ b.cpu w
  cpu-write a val w lo hi =
      ap (b.cpu) (write_in_wram b a val w lo hi)
      ∙ lawful.cpu-with_mmu (write_wram a val (b.mmu w)) w

  -- What the processor and the stack are after `push`.
  pub record Pushed (reg : Reg16) (w w' : W) : Type 0 where
    pub cpu_after :
        b.cpu w'
        ≡ record (b.cpu w) { stack_pointer = decrement (decrement (b.cpu w).stack_pointer) }
    pub high_stored : read b (top b w - 1) w' ≡ (get16 reg (b.cpu w)).high
    pub low_stored : read b (top b w - 2) w' ≡ (get16 reg (b.cpu w)).low
    pub mmu_valid : IsValid cgb (b.mmu w')

  lowered-IsValid : (w : W) → IsValid cgb (b.mmu w) → IsValid cgb (b.mmu (lower_stack b w))
  lowered-IsValid w v = rw (mmu-modify lowered w) v

  pub push_lem :
      (reg : Reg16) (w : W)
      → reg ≢ sp
      → IsValid cgb (b.mmu w)
      → IsBytes (b.cpu w).stack_pointer
      → 0xC002 ≤ top b w
      → top b w ≤ 0xE000
      → Pushed reg w (push b reg w)
  unfolding push
  push_lem reg w ne v bytes lo hi =
      let c = b.cpu w in
      let s1 = decrement c.stack_pointer in
      let s2 = decrement s1 in
      let w1 = lower_stack b w in
      let c1 = cpu-modify lowered w in
      let s1_value = decrement_lem bytes in
      let t1 : top b w1 ≡ top b w - 1 = ap (λ x. value x.stack_pointer) c1 ∙ omega arith in
      let high = (get16 reg (b.cpu w1)).high in
      let same1 = ap (get16 reg) c1 ∙ get16-sp reg s1 c ne in
      let v1 = lowered-IsValid w v in
      let w2 = write b (top b w1) high w1 in
      let c2 = cpu-write (top b w1) high w1 (omega arith) (omega arith) ∙ c1 in
      let v2 = write-IsValid b lawful cgb (top b w1) high w1 v1 (omega arith) (omega arith) in
      let w3 = lower_stack b w2 in
      let c3 = cpu-modify lowered w2 ∙ ap lowered c2 in
      let s2_value = decrement_lem (decrement-IsBytes c.stack_pointer) in
      let t3 : top b w3 ≡ top b w - 2 = ap (λ x. value x.stack_pointer) c3 ∙ omega arith in
      let low = (get16 reg (b.cpu w3)).low in
      let same3 = ap (get16 reg) c3 ∙ get16-sp reg s2 c ne in
      let v3 = lowered-IsValid w2 v2 in
      let w4 = write b (top b w3) low w3 in
      record {
        cpu_after = cpu-write (top b w3) low w3 (omega arith) (omega arith) ∙ c3;
        high_stored =
            read-write_ne b lawful cgb (top b w3) (top b w - 1) low w3 v3 (omega arith)
              (omega arith) (omega arith) (omega arith) (λ e. omega arith)
            ∙ read-modify lowered (top b w - 1) w2 (omega arith) (omega arith)
            ∙ ap (λ a. read b a w2) (sym t1)
            ∙ read-write b lawful cgb (top b w1) high w1 v1 (omega arith) (omega arith)
            ∙ ap (λ r. r.high) same1;
        low_stored =
            ap (λ a. read b a w4) (sym t3)
            ∙ read-write b lawful cgb (top b w3) low w3 v3 (omega arith) (omega arith)
            ∙ ap (λ r. r.low) same3;
        mmu_valid = write-IsValid b lawful cgb (top b w3) low w3 v3 (omega arith) (omega arith);
      }

  -- What the processor is after `pop`.
  pub pop_lem :
      (reg : Reg16) (w : W)
      → reg ≢ sp
      → IsBytes (b.cpu w).stack_pointer
      → 0xC000 ≤ top b w
      → top b w + 2 ≤ 0xE000
      → b.cpu (pop b reg w)
        ≡ put16 reg
            (record { high = read b (top b w + 1) w; low = read b (top b w) w })
            (raised (raised (b.cpu w)))
  unfolding pop
  pop_lem reg w ne bytes lo hi =
      let c = b.cpu w in
      let w1 = raise_stack b w in
      let c1 = cpu-modify raised w in
      let low = read b (top b w) w1 in
      let low_eq = read-modify raised (top b w) w (omega arith) (omega arith) in
      let w2 = modify b (low_half reg low) w1 in
      let c2 = cpu-modify (low_half reg low) w1 ∙ ap (low_half reg low) c1 in
      let kept =
        ap (λ x. value x.stack_pointer) c2
        ∙ ap value (
            put16-sp reg (record { high = (get16 reg (raised c)).high; low = low }) (raised c)
              ne) in
      let up = increment_lem bytes in
      let t2 : top b w2 ≡ top b w + 1 = omega arith in
      let w3 = raise_stack b w2 in
      let c3 = cpu-modify raised w2 ∙ ap raised c2 in
      let high = read b (top b w2) w3 in
      let high_eq =
        read-modify raised (top b w2) w2 (omega arith) (omega arith)
        ∙ read-modify (low_half reg low) (top b w2) w1 (omega arith) (omega arith)
        ∙ read-modify raised (top b w2) w (omega arith) (omega arith)
        ∙ ap (λ a. read b a w) t2 in
      cpu-modify (high_half reg high) w3
      ∙ ap (high_half reg high) c3
      ∙ half_by_half reg high low (raised c) ne
      ∙ ap (λ v. put16 reg (record { high = v; low = low }) (raised (raised c))) high_eq
      ∙ ap (λ v. put16 reg (record { high = read b (top b w + 1) w; low = v }) (raised (raised c)))
          low_eq

  -- A pop of two bytes that lie where a push from `w` puts them.
  pub pop_stored :
      (to : Reg16) (r : Register16) (w w' : W)
      → to ≢ sp
      → IsBytes (b.cpu w).stack_pointer
      → 0xC002 ≤ top b w
      → top b w ≤ 0xE000
      → (b.cpu w').stack_pointer ≡ decrement (decrement (b.cpu w).stack_pointer)
      → read b (top b w - 1) w' ≡ r.high
      → read b (top b w - 2) w' ≡ r.low
      → b.cpu (pop b to w')
        ≡ put16 to r (record (b.cpu w') { stack_pointer = (b.cpu w).stack_pointer })
  pop_stored to r w w' nt bytes lo hi moved high low =
      let c = b.cpu w in
      let s1 = decrement c.stack_pointer in
      let s1_bytes = decrement-IsBytes c.stack_pointer in
      let s1_value = decrement_lem bytes in
      let s2_value = decrement_lem s1_bytes in
      let t : top b w' ≡ top b w - 2 = ap value moved ∙ omega arith in
      let t_high : top b w' + 1 ≡ top b w - 1 = omega arith in
      let s_bytes : IsBytes (b.cpu w').stack_pointer = rw moved (decrement-IsBytes s1) in
      let back =
        ap (λ x. increment (increment x)) moved
        ∙ ap increment (increment-decrement s1_bytes)
        ∙ increment-decrement bytes in
      pop_lem to w' nt s_bytes (omega arith) (omega arith)
      ∙ ap
          (λ x.
            put16 to (record { high = read b (top b w' + 1) w'; low = read b (top b w') w' })
              (record (b.cpu w') { stack_pointer = x }))
          back
      ∙ ap
          (λ x.
            put16 to (record { high = x; low = read b (top b w') w' })
              (record (b.cpu w') { stack_pointer = c.stack_pointer }))
          (ap (λ a. read b a w') t_high ∙ high)
      ∙ ap
          (λ x.
            put16 to (record { high = r.high; low = x })
              (record (b.cpu w') { stack_pointer = c.stack_pointer }))
          (ap (λ a. read b a w') t ∙ low)

  -- With the stack in the work RAM, what is pushed from one register is popped into another, and
  -- the stack pointer is back where it was; no other register changes.
  pub pop-push :
      (from to : Reg16) (w : W)
      → from ≢ sp
      → to ≢ sp
      → IsValid cgb (b.mmu w)
      → IsBytes (b.cpu w).stack_pointer
      → 0xC002 ≤ top b w
      → top b w ≤ 0xE000
      → b.cpu (pop b to (push b from w)) ≡ put16 to (get16 from (b.cpu w)) (b.cpu w)
  pop-push from to w nf nt v bytes lo hi =
      let p = push_lem from w nf v bytes lo hi in
      pop_stored to (get16 from (b.cpu w)) w (push b from w) nt bytes lo hi
        (ap (λ x. x.stack_pointer) (p.cpu_after)) (p.high_stored) (p.low_stored)
      ∙ ap
          (λ x.
            put16 to (get16 from (b.cpu w)) (record x { stack_pointer = (b.cpu w).stack_pointer }))
          (p.cpu_after)
