-- ===== src/Heap/Tests.antt =====
-- The theorems on the heap with a heap of a few kilobytes.
use pico_ocaml.Prelude.{ℕ, ◌+◌, ◌*◌, ◌^◌, ◌≤◌, ◌<◌, ◌≡◌, refl, false, true, some, [], ◌∷◌, arith}
use pico_ocaml.Heap.{Layout, Heap, pointer_size, at_least_pointer, request, posix_memalign}
use pico_ocaml.Heap.Bump.{IsLayout, IsHeap}
use pico_ocaml.Heap.Blocks.{Mappings, map_all-AllApart}
use pico_ocaml.Heap.Align.{posix_memalign_lem}

abbrev ram : Layout
ram = record { base = 536870912; limit = 536875008 }

ram-IsLayout : IsLayout ram
ram-IsLayout = record { base_pos = omega arith; ordered = omega arith; low = omega arith }

-- as the runtime finds it, and with 96 bytes left
abbrev first_heap : Heap
first_heap = record {
  heap_ptr = 0;
  mutex_initialized = true;
  mutex_held = false;
  enomem = false;
  memory = λ a. 7;
}

first_heap-IsHeap : IsHeap ram first_heap
first_heap-IsHeap = record { above = ground arith; below = ground arith; unlocked = refl }

map_all-AllApart_example : Mappings ram ram-IsLayout (100 ∷ 5000 ∷ 3 ∷ []) first_heap
map_all-AllApart_example =
    map_all-AllApart ram ram-IsLayout (100 ∷ 5000 ∷ 3 ∷ []) first_heap-IsHeap
      (omega arith, (omega arith, (omega arith, tt)))

inside_ram : 536870920 + request 64 100 < 2 ^ 32
unfolding request
inside_ram = omega arith

posix_memalign_lem_example :
    (p : ℕ) × (posix_memalign 64 (some 536870920) ≡ (0, some p))
    × ((m : ℕ) × (p ≡ m * at_least_pointer 64))
    × (536870920 + pointer_size ≤ p)
    × (p + 100 ≤ 536870920 + request 64 100)
posix_memalign_lem_example = posix_memalign_lem 64 100 536870920 6 refl (omega arith) inside_ram
