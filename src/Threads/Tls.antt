-- ===== src/Threads/Tls.antt =====
-- ocaml_stubs.c, `pthread_key_…`, `pthread_getspecific` and `pthread_setspecific`: a table of
-- values for each core.
use pico_ocaml.Prelude.{
  ℕ, zero, suc, ◌+◌, ◌-◌, ◌≤◌, ◌<◌, min, ◌≡◌, ap, ◌↔◌, ◌&&◌, Option, none, some, List, [], ◌∷◌,
  arith, ltb, leb, ◌==◌, if◌then◌else◌,
}
use pico_ocaml.Sync.Sdk.{Core, same_core}

-- MAX_TLS_KEYS
abbrev max_tls_keys : ℕ
max_tls_keys = 16

pub data Code : Type 0 where
  success eagain einval : Code

-- `tls_values`, 0 for NULL, and `next_tls_key`.
pub record Tls : Type 0 where
  pub values : Core → ℕ → ℕ
  pub next_key : ℕ

abbrev no_keys : Tls
no_keys = record { values = λ c k. 0; next_key = 0 }

-- The code, and what is written through `key`.
pthread_key_create : Tls → Code × Option ℕ × Tls
pthread_key_create s =
    if leb max_tls_keys s.next_key
    then (Code.eagain, none, s)
    else (Code.success, some s.next_key, record s { next_key = s.next_key + 1 })

unfoldable pthread_key_delete : ℕ → Tls → Code × Tls
pthread_key_delete key s = (Code.success, s)

pthread_getspecific : Core → ℕ → Tls → ℕ
pthread_getspecific c key s = if leb max_tls_keys key then 0 else s.values c key

pthread_setspecific : Core → ℕ → (value : ℕ) → Tls → Code × Tls
pthread_setspecific c key value s = if leb max_tls_keys key then (Code.einval, s) else (
  Code.success,
  record s { values = λ d k. if same_core c d && key == k then value else s.values d k },
)

-- The loop of `pthread_create` that clears the values of core 1.
unfoldable clear_core1 : Tls → Tls
clear_core1 s = record s {
  values = λ d k. if same_core Core.core1 d && ltb k max_tls_keys then 0 else s.values d k;
}

-- A value that a core sets under a key below 16 is what it gets from that key until it is set
-- again; every other key, and every key of the other core, keeps its value. A key from 16 on is
-- refused, changes nothing and reads as NULL.
getspecific-setspecific :
    (c d : Core) (key k value : ℕ) (s : Tls)
    → let (code, s') = pthread_setspecific c key value s in
      (pthread_getspecific d k s' ≡ (
        if same_core c d && (key == k && ltb key max_tls_keys)
        then value
        else pthread_getspecific d k s))
      × ((code ≡ Code.success) ↔ (key < max_tls_keys))
      × (s'.next_key ≡ s.next_key)
unfolding pthread_setspecific pthread_getspecific
getspecific-setspecific c d key k value s =
    (ground arith, (λ e. ground arith, λ h. ground arith), ground arith)

-- `n` keys asked for in a row, with those that were given.
create_keys : ℕ → Tls → List ℕ × Tls
create_keys zero s = ([], s)
create_keys (suc n) s =
    let (code, key, s') = pthread_key_create s in
    let (keys, s'') = create_keys n s' in (elim key [ none ↦ keys | some k ↦ k ∷ keys ], s'')

-- the numbers from `a` on, `n` of them
abbrev pub from : ℕ → ℕ → List ℕ
from a zero = []
from a (suc n) = a ∷ from (a + 1) n

create_keys_room :
    (n room : ℕ) (s : Tls)
    → s.next_key + room ≡ max_tls_keys
    → ((create_keys n s).0 ≡ from s.next_key (min n room))
      × ((create_keys n s).1.next_key ≤ max_tls_keys)
unfolding create_keys pthread_key_create
create_keys_room zero room s h =
    let none_left : 0 ≡ min 0 room = omega arith in (ap (from s.next_key) none_left, omega arith)
create_keys_room (suc n) zero s h =
    let full : min n 0 ≡ min (suc n) 0 = omega arith in
    ground (arith, create_keys_room n zero s h, ap (from s.next_key) full)
create_keys_room (suc n) (suc room) s h =
    let one : suc (min n room) ≡ min (suc n) (suc room) = omega arith in
    ground (
      arith,
      create_keys_room n room (record s { next_key = s.next_key + 1 }) (omega arith),
      ap (from s.next_key) one,
    )

-- However many keys are asked for, those given are the next numbers in order, all different, and
-- none is given beyond the sixteenth.
create_keys-from :
    (n : ℕ) (s : Tls)
    → s.next_key ≤ max_tls_keys
    → ((create_keys n s).0 ≡ from s.next_key (min n (max_tls_keys - s.next_key)))
      × ((create_keys n s).1.next_key ≤ max_tls_keys)
create_keys-from n s h = create_keys_room n (max_tls_keys - s.next_key) s (omega arith)
