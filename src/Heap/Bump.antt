-- ===== src/Heap/Bump.antt =====
-- `_sbrk` and `mmap` over a heap whose pointer lies between the linker's symbols.
use pico_ocaml.Prelude.{
  ℕ, ◌+◌, ◌-◌, ◌^◌, ◌≤◌, ◌<◌, ◌≡◌, refl, ◌⊎◌, inl, inr, true, false, some, arith, leb, ◌==◌,
  if◌then◌else◌, Bool-cases, length,
}
use pico_ocaml.Heap.{failed, Layout, Heap, sbrk, zero_fill, round_up, is_fixed, mmap}

-- The linker places the heap in RAM, in the lower half of the address space.
pub record IsLayout (l : Layout) : Type 0 where
  pub base_pos : 0 < l.base
  pub ordered : l.base ≤ l.limit
  pub low : l.limit < 2 ^ 31

-- where the next block begins
abbrev pub break_at : Layout → Heap → ℕ
break_at l h = if h.heap_ptr == 0 then l.base else h.heap_ptr

-- The break lies in the heap and no one is inside `_sbrk`.
pub record IsHeap (l : Layout) (h : Heap) : Type 0 where
  pub above : l.base ≤ break_at l h
  pub below : break_at l h ≤ l.limit
  pub unlocked : h.mutex_held ≡ false

module _ (l : Layout) (v : IsLayout l) where
  -- With a heap in the lower half of the address space, the break in it and the mutex free: on a
  -- request that is not negative `_sbrk` returns the old break and moves it up by the
  -- request, if the new one is within the limit. If it is not, `_sbrk` returns -1, sets ENOMEM and
  -- leaves the break where it is. Either way it releases the mutex.
  pub sbrk_lem :
      (incr : ℕ) {h : Heap}
      → IsHeap l h
      → incr < 2 ^ 31
      → sbrk l incr h
        ≡ some (
            if leb (break_at l h + incr) l.limit
            then (break_at l h, record h { heap_ptr = break_at l h + incr; mutex_held = false })
            else (failed, record h { heap_ptr = break_at l h; mutex_held = false; enomem = true }))
  unfolding sbrk
  sbrk_lem incr {h} i small = ground arith

  sbrk-IsHeap :
      (incr : ℕ) {h h' : Heap} {p : ℕ}
      → IsHeap l h
      → incr < 2 ^ 31
      → sbrk l incr h ≡ some (p, h')
      → IsHeap l h'
  sbrk-IsHeap incr {h} {h'} {p} i small e = ground (arith, sbrk_lem incr i small)

  -- What a mapping gives: a block of at least `length` bytes that begins at the old break and ends
  -- at the new one, within the heap and all zero; memory outside it is as it was.
  pub record Mapped (length : ℕ) (h : Heap) (p : ℕ) (h' : Heap) : Type 0 where
    pub start : p ≡ break_at l h
    pub end : break_at l h' ≡ p + round_up length
    pub enough : length ≤ round_up length
    pub heap : IsHeap l h'
    pub zeroed : (a : ℕ) → p ≤ a → a < p + round_up length → h'.memory a ≡ 0
    pub outside : (a : ℕ) → (a < p) ⊎ (p + round_up length ≤ a) → h'.memory a ≡ h.memory a

  -- What a refusal leaves.
  pub record Refused (length : ℕ) (h : Heap) (p : ℕ) (h' : Heap) : Type 0 where
    pub code : p ≡ failed
    pub too_long : l.limit < break_at l h + round_up length
    pub same_break : break_at l h' ≡ break_at l h
    pub heap : IsHeap l h'
    pub memory : h'.memory ≡ h.memory

  -- With such a heap, for a length below 2 ^ 31 - 8 `mmap` without MAP_FIXED maps a zeroed block at
  -- the break, if the length, rounded up to eight, fits below the limit; and otherwise, only then,
  -- it fails and changes neither the break nor memory. It never waits for the mutex in vain.
  pub mmap_lem :
      (addr length flags : ℕ) {h : Heap}
      → IsHeap l h
      → length < 2 ^ 31 - 8
      → (addr ≡ 0) ⊎ (is_fixed flags ≡ false)
      → (p : ℕ) × (h' : Heap) × (mmap l addr length flags h ≡ some (p, h'))
        × (Mapped length h p h' ⊎ Refused length h p h')
  unfolding mmap
  mmap_lem addr length flags {h} i small c =
      elim (Bool-cases (leb (break_at l h + round_up length) l.limit)) [
        | inl fits ↦ (
          break_at l h,
          zero_fill (break_at l h) (round_up length)
              (record h { heap_ptr = break_at l h + round_up length; mutex_held = false }),
          ground (arith, sbrk_lem (round_up length) i),
          inl (record {
            start = refl;
            end = ground arith;
            enough = omega arith;
            heap = ground arith;
            zeroed = λ a. ground arith;
            outside = λ a. ground arith;
          }),
        )
        | inr long ↦ (
          failed,
          record h { heap_ptr = break_at l h; mutex_held = false; enomem = true },
          ground (arith, sbrk_lem (round_up length) i),
          inr (record {
            code = refl;
            too_long = ground arith;
            same_break = ground arith;
            heap = ground arith;
            memory = refl;
          }),
        )
      ]

  -- With such a heap, a request below 2 ^ 32 - 8 whose end lies past the address space wraps round:
  -- `mmap` returns the old break as if the block were there, and moves the break down, although the
  -- heap is far too small.
  pub mmap_wraps :
      (length : ℕ) {h : Heap}
      → IsHeap l h
      → length < 2 ^ 32 - 8
      → 2 ^ 32 ≤ break_at l h + round_up length
      → (h' : Heap) × (mmap l 0 length 3 h ≡ some (break_at l h, h'))
        × (h'.heap_ptr < break_at l h)
        × (l.limit < break_at l h + length)
  unfolding mmap sbrk
  mmap_wraps length {h} i small wraps = (
    zero_fill (break_at l h) (round_up length)
        (record h { heap_ptr = break_at l h + round_up length - 2 ^ 32; mutex_held = false }),
    ground arith,
    ground arith,
    omega arith,
  )
