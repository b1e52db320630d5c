-- ===== src/Mmu/Dma.antt =====
-- `mmu::dma` within the work RAM.
use gameboi.Base.{
  ℕ, zero, suc, ◌+◌, ◌-◌, ◌≤◌, ◌<◌, ◌≡◌, Bool, ◌&&◌, leb, ltb, ◌⊎◌, inl, inr, if◌then◌else◌, arith,
  ap, ◌∙◌, u16,
}
use native.Mathlib.Decide.{dec_lt}
use gameboi.Mmu.Bus.{Bus, IsLawful}
use gameboi.Mmu.Map.{write, read, dma, dma_from}
use gameboi.Mmu.Bounds.{IsValid}
use gameboi.Mmu.Wram.{read-write, read-write_ne, write-IsValid}

-- Two ranges of one length that have no address in common.
abbrev pub Apart : ℕ → ℕ → ℕ → Type 0
Apart source destination length = (source + length ≤ destination) ⊎ (destination + length ≤ source)

module _ {W : Type 0} (b : Bus W) (lawful : IsLawful b) (cgb : Bool) where
  dma_from-read :
      (i left source destination a : ℕ) (w : W)
      → IsValid cgb (b.mmu w)
      → 0xC000 ≤ source
      → source + (i + left) ≤ 0xE000
      → 0xC000 ≤ destination
      → destination + (i + left) ≤ 0xE000
      → Apart source destination (i + left)
      → 0xC000 ≤ a
      → a < 0xE000
      → read b a (dma_from b i left source destination w) ≡ (
          if leb (destination + i) a && ltb a (destination + (i + left))
          then read b (source + (a - destination)) w
          else read b a w)
  dma_from-read i zero source destination a w v s1 s2 d1 d2 apart a1 a2 = ground arith
  dma_from-read i (suc left) source destination a w v s1 s2 d1 d2 apart a1 a2 =
      let to : u16 (destination + i) ≡ destination + i = omega arith in
      let from : u16 (source + i) ≡ source + i = omega arith in
      let val = read b (source + i) w in
      let w' = write b (destination + i) val w in
      let v' = write-IsValid b lawful cgb (destination + i) val w v (omega arith) (omega arith) in
      let rest =
        dma_from-read (i + 1) left source destination a w' v' s1 (omega arith) d1 (omega arith)
          (elim apart [ inl h ↦ inl (omega arith) | inr h ↦ inr (omega arith) ]) a1 a2 in
      rw (to, from)
        (elim (dec_lt a (destination + i)) [
          | yes before ↦
              let other =
                read-write_ne b lawful cgb (destination + i) a val w v (omega arith) (omega arith)
                  a1 a2 (λ e. omega arith) in
              rest ∙ ground (arith, other)
          | no not_before ↦ elim (dec_lt (destination + i) a) [
            | yes after ↦
                let other =
                  read-write_ne b lawful cgb (destination + i) a val w v (omega arith) (omega arith)
                    a1 a2 (λ e. omega arith) in
                elim (dec_lt a (destination + (i + suc left))) [
                  | yes inside ↦
                      let source_kept =
                        read-write_ne b lawful cgb (destination + i) (source + (a - destination))
                          val w v (omega arith) (omega arith) (omega arith) (omega arith)
                          (λ e. elim apart [ inl h ↦ omega arith | inr h ↦ omega arith ]) in
                      rest ∙ ground (arith, source_kept)
                  | no outside ↦ rest ∙ ground (arith, other)
                ]
            | no not_after ↦
                let here : a ≡ destination + i = omega arith in
                let written =
                  read-write b lawful cgb (destination + i) val w v (omega arith) (omega arith) in
                let at_end = ap (λ x. read b x w') here in
                let index : source + (a - destination) ≡ source + i = omega arith in
                let at_source = ap (λ x. read b x w) index in
                rest ∙ ground (arith, written, at_end, at_source)
          ]
        ])

  -- A transfer within the work RAM between two ranges that are apart: every address of the
  -- destination holds what its source held, and every other address of the work RAM what it held.
  pub dma-read :
      (source destination length a : ℕ) (w : W)
      → IsValid cgb (b.mmu w)
      → 0xC000 ≤ source
      → source + length ≤ 0xE000
      → 0xC000 ≤ destination
      → destination + length ≤ 0xE000
      → Apart source destination length
      → 0xC000 ≤ a
      → a < 0xE000
      → read b a (dma b source destination length w) ≡ (
          if leb destination a && ltb a (destination + length)
          then read b (source + (a - destination)) w
          else read b a w)
  unfolding dma
  dma-read source destination length a w v s1 s2 d1 d2 apart a1 a2 =
      dma_from-read 0 length source destination a w v s1 (omega arith) d1 (omega arith)
        (elim apart [ inl h ↦ inl (omega arith) | inr h ↦ inr (omega arith) ]) a1 a2
      ∙ ground arith
