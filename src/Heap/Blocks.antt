-- ===== src/Heap/Blocks.antt =====
-- Sequences of mappings: the blocks that `mmap` has given out never overlap.
use pico_ocaml.Prelude.{
  ℕ, ◌+◌, ◌-◌, ◌^◌, ◌≤◌, ◌<◌, ◌≡◌, refl, ◌≢◌, ◌⊎◌, inl, inr, Option, none, some, List, [], ◌∷◌,
  arith, ◌==◌, if◌then◌else◌,
}
use pico_ocaml.Heap.{Layout, Heap, round_up, caml_plat_mem_map}
use pico_ocaml.Heap.Bump.{IsLayout, break_at, IsHeap, mmap_lem, Mapped}

-- a block that was given out: its address and its length
abbrev Block : Type 0
Block = ℕ × ℕ

-- `caml_plat_mem_map` for each size in turn, with the blocks of those that did not return NULL.
pub map_all : Layout → List ℕ → Heap → Option (List Block × Heap)
map_all l [] h = some ([], h)
map_all l (size ∷ sizes) h = elim (caml_plat_mem_map l size h) [
  | none ↦ none
  | some (p, h') ↦ elim (map_all l sizes h') [
    | none ↦ none
    | some (blocks, h'') ↦ some ((if p == 0 then blocks else (p, size) ∷ blocks), h'')
  ]
]

abbrev Apart : Block → Block → Type 0
Apart (p, m) (q, n) = (p + m ≤ q) ⊎ (q + n ≤ p)

abbrev ApartFrom : Block → List Block → Type 0
ApartFrom b [] = Unit {0}
ApartFrom b (c ∷ cs) = Apart b c × ApartFrom b cs

-- Every two blocks of the list share no byte.
abbrev AllApart : List Block → Type 0
AllApart [] = Unit {0}
AllApart (b ∷ bs) = ApartFrom b bs × AllApart bs

-- Every block lies in the heap, at `from` or above.
abbrev Within : (from limit : ℕ) → List Block → Type 0
Within from limit [] = Unit {0}
Within from limit ((p, n) ∷ bs) = (from ≤ p) × (p + n ≤ limit) × Within from limit bs

Within-mono : (a b limit : ℕ) (bs : List Block) → a ≤ b → Within b limit bs → Within a limit bs
Within-mono a b limit [] h w = tt
Within-mono a b limit ((p, n) ∷ bs) h w = (omega arith, w.1, Within-mono a b limit bs h w.2)

ApartFrom-below :
    (p n from limit : ℕ) (bs : List Block)
    → p + n ≤ from
    → Within from limit bs
    → ApartFrom (p, n) bs
ApartFrom-below p n from limit [] h w = tt
ApartFrom-below p n from limit ((q, m) ∷ bs) h w =
    (inl (omega arith), ApartFrom-below p n from limit bs h w.2)

abbrev AllSmall : List ℕ → Type 0
AllSmall [] = Unit {0}
AllSmall (n ∷ ns) = (n < 2 ^ 31 - 8) × AllSmall ns

module _ (l : Layout) (v : IsLayout l) where
  data Given (size : ℕ) (h : Heap) (r : Option (ℕ × Heap)) : Type 0 where
    given : (p : ℕ) (h' : Heap) → r ≡ some (p, h') → p ≢ 0 → Mapped l v size h p h' → Given size h r
    not_given :
        (h' : Heap)
        → r ≡ some (0, h')
        → l.limit < break_at l h + round_up size
        → break_at l h' ≡ break_at l h
        → IsHeap l h'
        → Given size h r

  caml_plat_mem_map-Given :
      (size : ℕ) {h : Heap}
      → IsHeap l h
      → size < 2 ^ 31 - 8
      → Given size h (caml_plat_mem_map l size h)
  unfolding caml_plat_mem_map
  caml_plat_mem_map-Given size {h} i small =
      let (p, h', e, o) = mmap_lem l v 0 size 3 i small (inl refl) in
      elim o [
        | inl m ↦
            given p h' (ground (arith, e, m.start, i.below, v.low))
              (ground (arith, m.start, i.above, v.base_pos)) m
        | inr r ↦ not_given h' (ground (arith, e, r.code)) r.too_long r.same_break r.heap
      ]

  -- What `map_all` has done.
  abbrev pub Mappings : List ℕ → Heap → Type 0
  Mappings sizes h =
      (blocks : List Block) × (h' : Heap) × (map_all l sizes h ≡ some (blocks, h'))
      × Within (break_at l h) l.limit blocks
      × AllApart blocks
      × IsHeap l h'

  map_step :
      {size : ℕ} (sizes : List ℕ) {h : Heap}
      → IsHeap l h
      → Given size h (caml_plat_mem_map l size h)
      → ((h' : Heap) → IsHeap l h' → Mappings sizes h')
      → Mappings (size ∷ sizes) h
  unfolding map_all
  map_step {size} sizes {h} i (given p h' e ne m) rest =
      let (blocks, h'', f, w, a, i') = rest h' m.heap in
      (
        (p, size) ∷ blocks,
        h'',
        ground (arith, e, f, ne),
        (
          omega (arith, m.start),
          omega (arith, m.end, m.enough, m.heap.below),
          Within-mono (break_at l h) (break_at l h') l.limit blocks (omega (arith, m.end, m.start))
              w,
        ),
        (
          ApartFrom-below p size (break_at l h') l.limit blocks (omega (arith, m.end, m.enough)) w,
          a,
        ),
        i',
      )
  map_step {size} sizes {h} i (not_given h' e long same i') rest =
      let (blocks, h'', f, w, a, i'') = rest h' i' in
      (
        blocks,
        h'',
        ground (arith, e, f),
        Within-mono (break_at l h) (break_at l h') l.limit blocks (omega (arith, same)) w,
        a,
        i'',
      )

  -- With a heap in the lower half of the address space, the break in it and the mutex free, a
  -- mapping for each of any sizes below 2 ^ 31 - 8, in order: every call comes back, the blocks
  -- that were given out lie between the first break and the limit, and no two of them share a byte.
  pub map_all-AllApart :
      (sizes : List ℕ) {h : Heap} → IsHeap l h → AllSmall sizes → Mappings sizes h
  unfolding map_all
  map_all-AllApart [] {h} i small = ([], h, refl, tt, tt, i)
  map_all-AllApart (size ∷ sizes) {h} i small =
      map_step sizes i (caml_plat_mem_map-Given size i small.0)
        (λ h' i'. map_all-AllApart sizes {h = h'} i' small.1)
