-- ===== src/Sync/Sdk/Owned.antt =====
-- A recursive mutex that has an owner and a count keeps the laws.
use pico_ocaml.Prelude.{
  ℕ, zero, suc, ◌-◌, ◌<◌, ◌≡◌, refl, Bool, true, false, ◌&&◌, arith, ltb, if◌then◌else◌,
}
use pico_ocaml.Sync.Sdk.{Core, other, same_core, RecursiveMutex}

-- `owned c k` was entered k + 1 times by core c.
pub data Sdk : Type 0 where
  free : Sdk
  owned : Core → ℕ → Sdk

abbrev try_sdk : Core → Sdk → Bool × Sdk
try_sdk c free = (true, owned c 0)
try_sdk c (owned d k) =
    if same_core c d && ltb k 254 then (true, owned d (suc k)) else (false, owned d k)

abbrev exit_sdk : Sdk → Sdk
exit_sdk free = free
exit_sdk (owned d zero) = free
exit_sdk (owned d (suc k)) = owned d k

abbrev pub depth_sdk : Core → Sdk → ℕ
depth_sdk c free = 0
depth_sdk c (owned d k) = if same_core c d then suc k else 0

pub enters :
    (c : Core) (m : Sdk)
    → depth_sdk (other c) m ≡ 0
    → depth_sdk c m < 255
    → ((try_sdk c m).0 ≡ true) × (depth_sdk c (try_sdk c m).1 ≡ suc (depth_sdk c m))
enters Core.core0 free h l = ground arith
enters Core.core1 free h l = ground arith
enters Core.core0 (owned Core.core0 k) h l = ground arith
enters Core.core0 (owned Core.core1 k) h l = ground arith
enters Core.core1 (owned Core.core0 k) h l = ground arith
enters Core.core1 (owned Core.core1 k) h l = ground arith

pub refuses : (c : Core) (m : Sdk) → 0 < depth_sdk (other c) m → (try_sdk c m).0 ≡ false
refuses Core.core0 free h = ground arith
refuses Core.core1 free h = ground arith
refuses Core.core0 (owned Core.core0 k) h = ground arith
refuses Core.core0 (owned Core.core1 k) h = ground arith
refuses Core.core1 (owned Core.core0 k) h = ground arith
refuses Core.core1 (owned Core.core1 k) h = ground arith

pub refuses_same :
    (c d : Core) (m : Sdk) → 0 < depth_sdk (other c) m → depth_sdk d (try_sdk c m).1 ≡ depth_sdk d m
refuses_same Core.core0 d free h = ground arith
refuses_same Core.core1 d free h = ground arith
refuses_same Core.core0 d (owned Core.core0 k) h = ground arith
refuses_same Core.core0 d (owned Core.core1 k) h = ground arith
refuses_same Core.core1 d (owned Core.core0 k) h = ground arith
refuses_same Core.core1 d (owned Core.core1 k) h = ground arith

pub leaves_other :
    (c : Core) (m : Sdk) → depth_sdk (other c) (try_sdk c m).1 ≡ depth_sdk (other c) m
leaves_other Core.core0 free = refl
leaves_other Core.core1 free = refl
leaves_other Core.core0 (owned Core.core0 k) = ground arith
leaves_other Core.core0 (owned Core.core1 k) = ground arith
leaves_other Core.core1 (owned Core.core0 k) = ground arith
leaves_other Core.core1 (owned Core.core1 k) = ground arith

exits :
    (c d : Core) (m : Sdk)
    → 0 < depth_sdk c m
    → depth_sdk d (exit_sdk m) ≡ (if same_core c d then depth_sdk d m - 1 else depth_sdk d m)
exits c d free h = ground arith
exits Core.core0 d (owned Core.core0 zero) h = ground arith
exits Core.core0 d (owned Core.core0 (suc k)) h = ground arith
exits Core.core0 d (owned Core.core1 k) h = ground arith
exits Core.core1 d (owned Core.core0 k) h = ground arith
exits Core.core1 Core.core0 (owned Core.core1 zero) h = ground arith
exits Core.core1 Core.core1 (owned Core.core1 zero) h = ground arith
exits Core.core1 Core.core0 (owned Core.core1 (suc k)) h = ground arith
exits Core.core1 Core.core1 (owned Core.core1 (suc k)) h = ground arith

pub exits_own :
    (c : Core) (m : Sdk) → 0 < depth_sdk c m → depth_sdk c (exit_sdk m) ≡ depth_sdk c m - 1
exits_own c m h = ground (arith, exits c c m h)

pub exits_other :
    (c : Core) (m : Sdk)
    → 0 < depth_sdk c m
    → depth_sdk (other c) (exit_sdk m) ≡ depth_sdk (other c) m
exits_other c m h = ground (arith, exits c (other c) m h)

abbrev pub sdk : RecursiveMutex
sdk = record {
  Mutex = Sdk;
  init = free;
  try_enter = try_sdk;
  exit = exit_sdk;
  depth = depth_sdk;
  init_free = λ c. refl;
  enter_got = λ c m h l. (enters c m h l).0;
  enter_deeper = λ c m h l. (enters c m h l).1;
  enter_busy = refuses;
  enter_busy_same = refuses_same;
  enter_other = leaves_other;
  exit_own = exits_own;
  exit_other = exits_other;
}
