-- ===== src/Heap.antt =====
-- ocaml_stubs.c, memory: `_sbrk` over the linker's heap, `mmap` and its kin as a bump allocator on
-- it, `posix_memalign`, and the runtime's `caml_plat_mem_…` functions. Addresses and sizes are
-- 32-bit words; NULL is 0 and `(void *)-1` is `failed`.
pub mod Bump
pub mod Blocks
pub mod Align
pub mod Tests
use Prim.Native.Nat.{bit_and}
use pico_ocaml.Prelude.{
  ℕ, ◌+◌, ◌-◌, ◌*◌, ◌/◌, ◌%◌, ◌^◌, Bool, true, false, ◌&&◌, not, Option, none, some, ltb, leb, ◌==◌,
  if◌then◌else◌,
}

-- `(void *)-1`, which is also MAP_FAILED
abbrev pub failed : ℕ
failed = 2 ^ 32 - 1

-- The linker's symbols `__end__` and `__HeapLimit`.
pub record Layout : Type 0 where
  pub base : ℕ
  pub limit : ℕ

-- `heap_ptr`, `sbrk_mutex` and its flag, `errno`, and memory as a function of the address.
pub record Heap : Type 0 where
  pub heap_ptr : ℕ
  pub mutex_initialized : Bool
  pub mutex_held : Bool
  pub enomem : Bool
  pub memory : ℕ → ℕ

unfoldable pub init_sbrk_mutex : Heap → Heap
init_sbrk_mutex h = record h { mutex_initialized = true; mutex_held = false }

-- `mutex_enter_blocking` and `mutex_exit`, if the mutex is initialised. `none` is a core that waits
-- for itself.
enter : Heap → Option Heap
enter h =
    if h.mutex_initialized
    then (if h.mutex_held then none else some (record h { mutex_held = true }))
    else some h

leave : Heap → Heap
leave h = if h.mutex_initialized then record h { mutex_held = false } else h

-- `if (heap_ptr == NULL) heap_ptr = &__end__;`
abbrev set_base : Layout → Heap → Heap
set_base l h = record h { heap_ptr = if h.heap_ptr == 0 then l.base else h.heap_ptr }

-- Between the lock and the unlock; `incr` is the bit pattern of the `ptrdiff_t`. The message on the
-- console is left out.
bump : Layout → (incr : ℕ) → Heap → ℕ × Heap
bump l incr h =
    let h' = set_base l h in
    let new_heap = (h'.heap_ptr + incr) % 2 ^ 32 in
    if ltb l.limit new_heap
    then (failed, record h' { enomem = true })
    else (h'.heap_ptr, record h' { heap_ptr = new_heap })

pub sbrk : Layout → (incr : ℕ) → Heap → Option (ℕ × Heap)
unfolding enter leave bump
sbrk l incr h = elim (enter h) [
  | none ↦ none
  | some h' ↦ let (p, h'') = bump l incr h' in some (p, leave h'')
]

-- `memset(p, 0, length)`
pub zero_fill : ℕ → ℕ → Heap → Heap
zero_fill p length h = record h {
  memory = λ a. if leb p a && ltb a (p + length) then 0 else h.memory a;
}

-- `(length + 7) & ~7` in `size_t`
abbrev pub round_up : ℕ → ℕ
round_up length = (length + 7) % 2 ^ 32 / 8 * 8

-- `flags & MAP_FIXED`
abbrev pub is_fixed : ℕ → Bool
is_fixed flags = (flags / 4 % 2) == 1

pub mmap : Layout → (addr length flags : ℕ) → Heap → Option (ℕ × Heap)
unfolding sbrk zero_fill
mmap l addr length flags h =
    if not (addr == 0) && is_fixed flags
    then some (addr, h)
    else elim (sbrk l (round_up length) h) [
      | none ↦ none
      | some (p, h') ↦
          some (if p == failed then (failed, h') else (p, zero_fill p (round_up length) h'))
    ]

munmap : (addr length : ℕ) → Heap → ℕ × Heap
munmap addr length h = (0, h)

unfoldable mprotect : (addr length prot : ℕ) → Heap → ℕ × Heap
mprotect addr length prot h = (0, h)

-- PROT_READ | PROT_WRITE do not matter; MAP_PRIVATE | MAP_ANONYMOUS is 3.
pub caml_plat_mem_map : Layout → (size : ℕ) → Heap → Option (ℕ × Heap)
caml_plat_mem_map l size h = elim (mmap l 0 size 3 h) [
  | none ↦ none
  | some (p, h') ↦ some ((if p == failed then 0 else p), h')
]

unfoldable caml_plat_mem_commit : (addr size : ℕ) → Heap → ℕ × Heap
caml_plat_mem_commit addr size h = (addr, h)

unfoldable caml_plat_mem_decommit : (addr size : ℕ) → Heap → Heap
caml_plat_mem_decommit addr size h = h

unfoldable caml_plat_mem_unmap : (addr size : ℕ) → Heap → Heap
unfolding munmap
caml_plat_mem_unmap addr size h = (munmap addr size h).1

-- `posix_memalign`: `raw` is what `malloc` returned for `request alignment size`, `none` for NULL.
-- The result is the code and what is written through `memptr`. A pointer takes four bytes, and
-- `~x` is `2 ^ 32 - 1 - x`.
abbrev pub pointer_size : ℕ
pointer_size = 4

abbrev pub at_least_pointer : ℕ → ℕ
at_least_pointer alignment = if ltb alignment pointer_size then pointer_size else alignment

pub request : (alignment size : ℕ) → ℕ
request alignment size = (size + at_least_pointer alignment + pointer_size) % 2 ^ 32

abbrev enomem_code : ℕ
enomem_code = 12

pub posix_memalign : (alignment : ℕ) → (raw : Option ℕ) → ℕ × Option ℕ
posix_memalign alignment none = (enomem_code, none)
posix_memalign alignment (some raw) =
    let a = at_least_pointer alignment in
    (0, some (bit_and ((raw + pointer_size + a - 1) % 2 ^ 32) (2 ^ 32 - 1 - (a - 1))))
