-- ===== src/Sync/Sdk.antt =====
-- The two cores, and the Pico SDK's `recursive_mutex_t`, of which the code relies on this much.
pub mod Owned
use pico_ocaml.Prelude.{ℕ, suc, ◌-◌, ◌<◌, ◌≡◌, Bool, true, false}

-- `SIO_CPUID & 1`
pub data Core : Type 0 where
  core0 core1 : Core

abbrev pub other : Core → Core
other Core.core0 = Core.core1
other Core.core1 = Core.core0

abbrev pub same_core : Core → Core → Bool
same_core Core.core0 Core.core0 = true
same_core Core.core1 Core.core1 = true
same_core _ _ = false

-- `depth c m` is how many times core `c` has entered `m` and not left it; a mutex counts to 255.
pub record RecursiveMutex : Type 1 where
  pub Mutex : Type 0
  pub init : Mutex
  pub try_enter : Core → Mutex → Bool × Mutex
  pub exit : Mutex → Mutex
  pub depth : Core → Mutex → ℕ
  -- A new mutex is free.
  pub init_free : (c : Core) → depth c init ≡ 0
  -- A core enters a mutex that the other does not own, again if it owns it itself.
  pub enter_got :
      (c : Core) (m : Mutex) → depth (other c) m ≡ 0 → depth c m < 255 → (try_enter c m).0 ≡ true
  pub enter_deeper :
      (c : Core) (m : Mutex)
      → depth (other c) m ≡ 0
      → depth c m < 255
      → depth c (try_enter c m).1 ≡ suc (depth c m)
  -- A try for a mutex that the other core owns is refused and changes nothing.
  pub enter_busy : (c : Core) (m : Mutex) → 0 < depth (other c) m → (try_enter c m).0 ≡ false
  pub enter_busy_same :
      (c d : Core) (m : Mutex) → 0 < depth (other c) m → depth d (try_enter c m).1 ≡ depth d m
  pub enter_other : (c : Core) (m : Mutex) → depth (other c) (try_enter c m).1 ≡ depth (other c) m
  -- Its owner leaves a mutex once.
  pub exit_own : (c : Core) (m : Mutex) → 0 < depth c m → depth c (exit m) ≡ depth c m - 1
  pub exit_other :
      (c : Core) (m : Mutex) → 0 < depth c m → depth (other c) (exit m) ≡ depth (other c) m
