-- ===== src/Board/Main.antt =====
-- pico_main.c, `main`: what it calls before it starts OCaml, and the two locks that it sets up.
use pico_ocaml.Prelude.{
  ℕ, zero, suc, ◌+◌, ◌-◌, ◌/◌, ◌%◌, ◌^◌, ◌≤◌, ◌<◌, ◌≡◌, refl, ◌∙◌, ap, true, false, some, List, [],
  ◌∷◌, ◌++◌, arith,
}
use pico_ocaml.Sync.Sdk.{Core, other, RecursiveMutex}
use pico_ocaml.Heap.{Layout, Heap, init_sbrk_mutex, sbrk}
use pico_ocaml.Heap.Bump.{IsLayout, IsHeap, sbrk_lem}
use pico_ocaml.Runtime.MallocLock.{
  Malloc, init_malloc_mutex, malloc_lock, inside, malloc_lock-unlock,
}

-- The calls of `main`, with the numbers that are put out.
pub data MainCall : Type 0 where
  stdio_init_all call_init_malloc_mutex call_init_sbrk_mutex : MainCall
  waiting_for_usb : (i : ℕ) → MainCall
  sleep_ms : (ms : ℕ) → MainCall
  banner : MainCall
  heap_available : (kb : ℕ) → MainCall
  starting returned flush : MainCall
  caml_startup : MainCall
  heartbeat : (count : ℕ) → MainCall

-- `for (int i = 0; i < 10; i++)`, from `i` on
usb_loop : (rounds i : ℕ) → List MainCall
usb_loop zero i = []
usb_loop (suc rounds) i =
    MainCall.waiting_for_usb i ∷ MainCall.sleep_ms 500 ∷ usb_loop rounds (i + 1)

-- The first `rounds` rounds of the loop that follows OCaml; `count` wraps as an `int`.
heartbeats : (rounds count : ℕ) → List MainCall
heartbeats zero count = []
heartbeats (suc rounds) count =
    MainCall.heartbeat count ∷ MainCall.sleep_ms 2000 ∷ heartbeats rounds ((count + 1) % 2 ^ 32)

-- What is called before `caml_startup`.
before_ocaml : Layout → List MainCall
unfolding usb_loop
before_ocaml l =
    MainCall.stdio_init_all
      ∷ MainCall.call_init_malloc_mutex
      ∷ MainCall.call_init_sbrk_mutex
      ∷ usb_loop 10 0
    ++ (MainCall.banner
        ∷ MainCall.heap_available ((l.limit - l.base) / 1024)
        ∷ MainCall.flush
        ∷ MainCall.starting
        ∷ MainCall.flush
        ∷ [])

-- All of `main`, up to `rounds` rounds after OCaml has returned.
pub main : Layout → (rounds : ℕ) → List MainCall
unfolding before_ocaml heartbeats
main l rounds = before_ocaml l ++ (MainCall.caml_startup ∷ MainCall.returned ∷ heartbeats rounds 0)

module _ (R : RecursiveMutex) where
  open R use {init, init_free}

  -- The locks of the allocators.
  pub record Locks : Type 0 where
    pub malloc : Malloc R
    pub heap : Heap

  main_step : MainCall → Locks → Locks
  main_step MainCall.call_init_malloc_mutex s = record s { malloc = init_malloc_mutex R s.malloc }
  main_step MainCall.call_init_sbrk_mutex s = record s { heap = init_sbrk_mutex s.heap }
  main_step _ s = s

  run_calls : List MainCall → Locks → Locks
  unfolding main_step
  run_calls [] s = s
  run_calls (c ∷ cs) s = run_calls cs (main_step c s)

  -- The locks when OCaml starts.
  pub locks_at_start : Layout → Locks → Locks
  unfolding run_calls before_ocaml
  locks_at_start l s = run_calls (before_ocaml l) s

  at_start :
      (l : Layout) (s : Locks)
      → locks_at_start l s
        ≡ record { malloc = init_malloc_mutex R s.malloc; heap = init_sbrk_mutex s.heap }
  unfolding locks_at_start run_calls before_ocaml main_step usb_loop
  at_start l s = refl

  -- As the linker leaves the static variables: nothing is set up, and the heap has no break yet.
  pub record IsZero (s : Locks) : Type 0 where
    pub malloc_fresh : s.malloc.initialized ≡ false
    pub no_break : s.heap.heap_ptr ≡ 0

  -- When `main` calls `caml_startup`, both locks of the allocators are set up and free:
  -- `__malloc_lock` by either core returns at once with that core inside once and the other
  -- outside, and a first `_sbrk` of a request that is not negative and fits returns the start of
  -- the heap, under its mutex, which it releases.
  pub ocaml_starts_ready :
      (l : Layout)
      → IsLayout l
      → (s : Locks) → IsZero s
      → let t = locks_at_start l s in
        ((c : Core)
          → (m : Malloc R) × (malloc_lock R c [] t.malloc ≡ some m)
            × (inside R c m ≡ 1)
            × (inside R (other c) m ≡ 0))
        × (t.heap.mutex_initialized ≡ true)
        × ((incr : ℕ)
            → l.base + incr ≤ l.limit
            → (h : Heap) × (sbrk l incr t.heap ≡ some (l.base, h))
              × (h.mutex_held ≡ false)
              × (h.heap_ptr ≡ l.base + incr))
  unfolding init_malloc_mutex init_sbrk_mutex
  ocaml_starts_ready l v s z =
      rw (at_start l s, fresh_malloc)
        (
          (λ c.
              let (m, e, mine, others, _, _) =
                malloc_lock-unlock R c [] fresh (omega (arith, init_free c)) tt
                  (init_free (other c)) in
              (m, e, mine ∙ ap (λ n. n + 1) (init_free c), others)),
          refl,
          λ incr fits.
              let small : incr < 2 ^ 31 = omega (arith, v.low) in
              (
                record ready { heap_ptr = l.base + incr; mutex_held = false },
                ground (arith, sbrk_lem l v incr (heap v) small, z.no_break, fits),
                refl,
                refl,
              ),
        )
    where
      fresh : Malloc R
      fresh = record { mutex = init; initialized = true }

      fresh_malloc : init_malloc_mutex R s.malloc ≡ fresh
      fresh_malloc = ground (arith, z.malloc_fresh)

      ready : Heap
      ready = init_sbrk_mutex s.heap

      heap : IsLayout l → IsHeap l ready
      heap v = record {
        above = ground (arith, z.no_break);
        below = ground (arith, z.no_break, v.ordered);
        unlocked = refl;
      }
