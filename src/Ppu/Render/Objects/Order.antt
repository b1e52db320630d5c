-- ===== src/Ppu/Render/Objects/Order.antt =====
-- Which objects of a line are drawn, and in which order.
use gameboi.Base.{
  ℕ, zero, suc, ◌+◌, ◌-◌, ◌≤◌, ◌<◌, ◌≡◌, ◌⊎◌, Bool, true, false, not, ◌==◌, List, [], ◌∷◌,
  if◌then◌else◌, Bool-cases, inl, inr, arith, refl, ap, ◌∙◌, sym,
}
use gameboi.Ppu.State.{Ppu}
use gameboi.Ppu.Render.Tile.{reversed_onto}
use gameboi.Ppu.Render.Objects.{
  obj_at, is_on_line, objects_from, comes_before, insert_index, sort_indices, indices,
}

abbrev pub first : ℕ → List ℕ → List ℕ
first zero l = []
first (suc n) [] = []
first (suc n) (i ∷ is) = i ∷ first n is

-- The indices from `idx` on, `left` of them, whose objects are on the line.
abbrev pub on_line_from : Ppu → ℕ → ℕ → List ℕ
on_line_from p idx zero = []
on_line_from p idx (suc left) =
    let rest = on_line_from p (idx + 1) left in
    if is_on_line p (obj_at p idx) then idx ∷ rest else rest

none_first : (n : ℕ) → n ≡ 0 → (l : List ℕ) → first n l ≡ []
none_first zero e l = refl
none_first (suc n) e l = absurd (omega arith)

chosen_full :
    (hit full : Bool) (n idx : ℕ) (rest shown : List ℕ)
    → full ≡ true
    → n ≡ 0
    → (if full then [] else if hit then idx ∷ rest else rest)
      ≡ first n (if hit then idx ∷ shown else shown)
chosen_full hit true n idx rest shown e h = sym (none_first n h _)
chosen_full hit false n idx rest shown e h = absurd (ground arith)

chosen_step :
    (hit full : Bool) (n idx : ℕ) (rest shown : List ℕ)
    → full ≡ false
    → 1 ≤ n
    → rest ≡ first (if hit then n - 1 else n) shown
    → (if full then [] else if hit then idx ∷ rest else rest)
      ≡ first n (if hit then idx ∷ shown else shown)
chosen_step hit true n idx rest shown e sum h = absurd (ground arith)
chosen_step true false zero idx rest shown e sum h = absurd (omega arith)
chosen_step true false (suc n) idx rest shown e sum h =
    let one : suc n - 1 ≡ n = omega arith in ap (λ l. idx ∷ l) (h ∙ ap (λ k. first k shown) one)
chosen_step false false n idx rest shown e sum h = h

sum_step :
    (hit : Bool) (found n : ℕ)
    → found + n ≡ 10
    → 1 ≤ n
    → (if hit then found + 1 else found) + (if hit then n - 1 else n) ≡ 10
sum_step hit found n sum some = ground arith

full_zero : (found n : ℕ) → found + n ≡ 10 → (found == 10) ≡ true → n ≡ 0
full_zero found n sum h = ground arith

open_some : (found n : ℕ) → found + n ≡ 10 → (found == 10) ≡ false → 1 ≤ n
open_some found n sum h = ground arith

-- The loop that leaves at the tenth gives the first ten of all.
objects_from-first :
    (left found n idx : ℕ) (p : Ppu)
    → found + n ≡ 10
    → objects_from p idx left found ≡ first n (on_line_from p idx left)
unfolding objects_from
objects_from-first zero found zero idx p sum = refl
objects_from-first zero found (suc n) idx p sum = refl
objects_from-first (suc left) found n idx p sum =
    let hit = is_on_line p (obj_at p idx) in
    let shown = on_line_from p (idx + 1) left in
    elim (Bool-cases (found == 10)) [
      | inl full ↦ chosen_full hit (found == 10) n idx _ shown full (full_zero found n sum full)
      | inr free ↦
          let some = open_some found n sum free in
          chosen_step hit (found == 10) n idx _ shown free some (
            objects_from-first left (if hit then found + 1 else found) (if hit then n - 1 else n)
              (idx + 1) p (sum_step hit found n sum some))
    ]

-- `i` is not after `j`: it lies further left, or on the same column and not later in the table.
abbrev pub Precedes : Ppu → ℕ → ℕ → Type 0
Precedes p i j = ((obj_at p i).x < (obj_at p j).x) ⊎ (((obj_at p i).x ≡ (obj_at p j).x) × (i ≤ j))

abbrev pub IsSorted : Ppu → List ℕ → Type 0
IsSorted p [] = Unit
IsSorted p (i ∷ []) = Unit
IsSorted p (i ∷ j ∷ is) = Precedes p i j × IsSorted p (j ∷ is)

before-Precedes : (p : Ppu) (i j : ℕ) → comes_before p i j ≡ true → Precedes p i j
unfolding comes_before
before-Precedes p i j h = ground arith

after-Precedes : (p : Ppu) (i j : ℕ) → comes_before p i j ≡ false → Precedes p j i
unfolding comes_before
after-Precedes p i j h = ground arith

placed_last :
    (p : Ppu) (idx i : ℕ) (t : Bool)
    → comes_before p idx i ≡ t
    → IsSorted p (if t then idx ∷ i ∷ [] else i ∷ idx ∷ [])
placed_last p idx i true e = (before-Precedes p idx i e, tt)
placed_last p idx i false e = (after-Precedes p idx i e, tt)

placed_among :
    (p : Ppu) (idx i j : ℕ) (is rest : List ℕ) (t u : Bool)
    → comes_before p idx i ≡ t
    → Precedes p i j
    → IsSorted p (j ∷ is)
    → IsSorted p (if u then idx ∷ j ∷ is else j ∷ rest)
    → IsSorted p (if t then idx ∷ i ∷ j ∷ is else i ∷ (if u then idx ∷ j ∷ is else j ∷ rest))
placed_among p idx i j is rest true u e order sorted placed =
    (before-Precedes p idx i e, (order, sorted))
placed_among p idx i j is rest false true e order sorted placed = (after-Precedes p idx i e, placed)
placed_among p idx i j is rest false false e order sorted placed = (order, placed)

insert-IsSorted :
    (p : Ppu) (idx : ℕ) (is : List ℕ) → IsSorted p is → IsSorted p (insert_index p idx is)
unfolding insert_index
insert-IsSorted p idx [] h = tt
insert-IsSorted p idx (i ∷ []) h = placed_last p idx i (comes_before p idx i) refl
insert-IsSorted p idx (i ∷ j ∷ is) h =
    placed_among p idx i j is (insert_index p idx is) (comes_before p idx i) (comes_before p idx j)
      refl h.0 h.1 (insert-IsSorted p idx (j ∷ is) h.1)

sort-IsSorted : (p : Ppu) (is : List ℕ) → IsSorted p (sort_indices p is)
unfolding sort_indices
sort-IsSorted p [] = tt
sort-IsSorted p (i ∷ is) = insert-IsSorted p i (sort_indices p is) (sort-IsSorted p is)

abbrev pub count : ℕ → List ℕ → ℕ
count n [] = 0
count n (i ∷ is) = (if i == n then 1 else 0) + count n is

count_placed :
    (n idx i : ℕ) (is rest : List ℕ) (t : Bool)
    → count n rest ≡ (if idx == n then 1 else 0) + count n is
    → count n (if t then idx ∷ i ∷ is else i ∷ rest) ≡ count n (idx ∷ i ∷ is)
count_placed n idx i is rest true h = refl
count_placed n idx i is rest false h = omega (arith, h)

count-insert :
    (p : Ppu) (n idx : ℕ) (is : List ℕ) → count n (insert_index p idx is) ≡ count n (idx ∷ is)
unfolding insert_index
count-insert p n idx [] = refl
count-insert p n idx (i ∷ is) =
    count_placed n idx i is (insert_index p idx is) (comes_before p idx i) (count-insert p n idx is)

count-sort : (p : Ppu) (n : ℕ) (is : List ℕ) → count n (sort_indices p is) ≡ count n is
unfolding sort_indices
count-sort p n [] = refl
count-sort p n (i ∷ is) =
    count-insert p n i (sort_indices p is)
    ∙ ap (λ k. (if i == n then 1 else 0) + k) (count-sort p n is)

-- The objects that are drawn are the first ten of the table that are on the line: on the colour
-- machine in the table's order and on the gray one by their column, and by the table where that is
-- equal; each is drawn as often as it stands among the ten, and the list is drawn from its end.
pub indices_lem :
    (p : Ppu)
    → let chosen = first 10 (on_line_from p 0 40) in
      (drawn : List ℕ) × (indices p ≡ reversed_onto [] drawn)
      × (p.cgb_enabled ≡ true → drawn ≡ chosen)
      × (p.cgb_enabled ≡ false → IsSorted p drawn)
      × ((i : ℕ) → count i drawn ≡ count i chosen)
unfolding indices
indices_lem p =
    let found = objects_from p 0 40 0 in
    let chosen = first 10 (on_line_from p 0 40) in
    let same : found ≡ chosen = objects_from-first 40 0 10 0 p refl in
    elim (Bool-cases p.cgb_enabled) [
      | inl color ↦ (
        chosen,
        ap (reversed_onto [])
            (ap (λ c. if not c then sort_indices p found else found) color ∙ same),
        λ e. refl,
        λ e. absurd (ground (arith, color, e)),
        λ i. refl,
      )
      | inr gray ↦ (
        sort_indices p chosen,
        ap (reversed_onto []) (
            ap (λ c. if not c then sort_indices p found else found) gray
            ∙ ap (sort_indices p) same),
        λ e. absurd (ground (arith, gray, e)),
        λ e. sort-IsSorted p chosen,
        λ i. count-sort p i chosen,
      )
    ]
