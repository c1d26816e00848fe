-- ===== src/Threads/Ids.antt =====
-- ocaml_stubs.c, the functions on thread identifiers, the per-core area for thread-local
-- variables, and those on threads and attributes that only return a code.
use pico_ocaml.Prelude.{
  ℕ, ◌+◌, ◌%◌, ◌≤◌, ◌<◌, ◌≡◌, ◌≢◌, ◌↔◌, ◌⊎◌, inl, inr, Bool, true, arith, ◌==◌, if◌then◌else◌,
}
use pico_ocaml.Prelude.Int.{ℤ, pos, negsuc}
use pico_ocaml.Sync.Sdk.{Core}

-- SIO_CPUID
abbrev pub cpuid : Core → ℕ
cpuid Core.core0 = 0
cpuid Core.core1 = 1

pub pthread_self : Core → ℕ
pthread_self c = cpuid c % 2 + 1

pub pthread_equal : (t1 t2 : ℕ) → ℤ
pthread_equal t1 t2 = if t1 == t2 then pos 1 else pos 0

-- What `pthread_create` writes through `t`, with `count` for `pthread_create_count` after its step.
pub created_id : (count : ℕ) → ℕ
created_id count = if count % 2 == 1 then 100 + count else 2

-- Whether `pthread_join` waits for core 1.
pub join_waits : (t : ℕ) → Bool
join_waits t = t == 2

unfoldable pthread_detach : (t : ℕ) → ℤ
pthread_detach t = pos 0

unfoldable pthread_cancel : (t : ℕ) → ℤ
pthread_cancel t = negsuc 0

unfoldable pthread_getaffinity_np : (t size set : ℕ) → ℤ
pthread_getaffinity_np t size set = negsuc 0

unfoldable pthread_mutexattr_init : (attr : ℕ) → ℤ
pthread_mutexattr_init attr = pos 0

unfoldable pthread_mutexattr_destroy : (attr : ℕ) → ℤ
pthread_mutexattr_destroy attr = pos 0

unfoldable pthread_mutexattr_settype : (attr : ℕ) → (type : ℤ) → ℤ
pthread_mutexattr_settype attr type = pos 0

unfoldable pthread_condattr_init : (attr : ℕ) → ℤ
pthread_condattr_init attr = pos 0

unfoldable pthread_condattr_destroy : (attr : ℕ) → ℤ
pthread_condattr_destroy attr = pos 0

unfoldable pthread_condattr_setclock : (attr : ℕ) → (clock : ℤ) → ℤ
pthread_condattr_setclock attr clock = pos 0

-- `tls_area_core0` and `tls_area_core1`: where the linker puts them.
pub record TlsAreas : Type 0 where
  pub core0_at : ℕ
  pub core1_at : ℕ

abbrev pub tls_size : ℕ
tls_size = 256

-- `__aeabi_read_tp`
pub aeabi_read_tp : TlsAreas → Core → ℕ
aeabi_read_tp areas c = if cpuid c == 0 then areas.core0_at else areas.core1_at

-- The identifier that `pthread_create` gives is that of the thread on core 1 exactly if the call
-- is one that launches core 1, an even one; it is never that of core 0; and `pthread_join` waits
-- for it exactly if it is that of core 1.
pub created_id_self :
    (count : ℕ)
    → ((pthread_equal (created_id count) (pthread_self Core.core1) ≡ pos 1) ↔ (count % 2 ≡ 0))
      × (pthread_equal (created_id count) (pthread_self Core.core0) ≡ pos 0)
      × ((join_waits (created_id count) ≡ true)
          ↔ (pthread_equal (created_id count) (pthread_self Core.core1) ≡ pos 1))
unfolding pthread_equal created_id pthread_self join_waits
created_id_self count =
    ((λ e. ground arith, λ e. ground arith), ground arith, (λ e. ground arith, λ e. ground arith))

-- Where the two areas lie apart, no address of a thread-local variable of one core is one of the
-- other's.
aeabi_read_tp-apart :
    (areas : TlsAreas) (x y : ℕ)
    → (areas.core0_at + tls_size ≤ areas.core1_at) ⊎ (areas.core1_at + tls_size ≤ areas.core0_at)
    → x < tls_size
    → y < tls_size
    → aeabi_read_tp areas Core.core0 + x ≢ aeabi_read_tp areas Core.core1 + y
unfolding aeabi_read_tp
aeabi_read_tp-apart areas x y (inl h) hx hy e = absurd (omega (arith, e))
aeabi_read_tp-apart areas x y (inr h) hx hy e = absurd (omega (arith, e))
