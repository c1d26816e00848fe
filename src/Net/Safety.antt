-- ===== src/Net/Safety.antt =====
-- What every function of net_stubs.c keeps true of the socket table, the event queue and the lock;
-- and rules that show it for the blocks in which the functions are written.
use pico_ocaml.Prelude.{
  ℕ, zero, suc, ◌<◌, ◌≡◌, refl, subst, ◌∙◌, ◌⊎◌, inl, inr, Bool, true, false, none, some, List, [],
  ◌∷◌, arith, ltb, if◌then◌else◌, is_some, ltb→lt, Bool-cases, length, get_elem?, set, length-set,
}
use pico_ocaml.Prelude.Int.{ℤ, pos, negsuc}
use pico_ocaml.Queue.{Event, EventQueue, event_enqueue}
use pico_ocaml.Queue.Inv.{IsQueue, event_enqueue-IsQueue}
use pico_ocaml.Queue.Refine.{get_elem?-eq-get_or}
use pico_ocaml.Net.World.{Call, Trace}
use pico_ocaml.Net.State.{
  max_sockets, Socket, zero_socket, Net, M, pure, ◌>>=◌, ◌>>◌, load, store, call, ask, enqueue,
  with_slot, bind-some, load_lem,
}
use pico_ocaml.Net.Buffer.{IsLive}

-- A socket has its buffer, with counts that are true of it, or it has neither buffer nor pcb.
abbrev pub IsSound : Socket → Type 0
IsSound s = IsLive s ⊎ ((s.recv_buf ≡ none) × (s.pcb ≡ none))

abbrev pub AllSound : List Socket → Type 0
AllSound [] = Unit {0}
AllSound (s ∷ ss) = IsSound s × AllSound ss

pub record IsNet (n : Net) : Type 0 where
  pub all : length n.sockets ≡ max_sockets
  pub sound : AllSound n.sockets
  pub queue : IsQueue n.queue
  pub unlocked : n.net_lock ≡ false

pub AllSound-get :
    (ss : List Socket) (i : ℕ) (s : Socket) → AllSound ss → get_elem? ss i ≡ some s → IsSound s
AllSound-get [] i s v e = cc
AllSound-get (t ∷ ts) zero s v e = subst IsSound (ground (arith, e)) v.0
AllSound-get (t ∷ ts) (suc i) s v e = AllSound-get ts i s v.1 e

pub AllSound-set :
    (ss : List Socket) (i : ℕ) (s : Socket) → AllSound ss → IsSound s → AllSound (set ss i s)
AllSound-set [] i s v h = tt
AllSound-set (t ∷ ts) zero s v h = (h, v.1)
AllSound-set (t ∷ ts) (suc i) s v h = (v.0, AllSound-set ts i s v.1 h)

-- Socket `i` of the table.
pub socket_at :
    (n : Net) (i : ℕ) → IsNet n → i < max_sockets → (s : Socket) × (get_elem? n.sockets i ≡ some s)
socket_at n i v lt = (_, get_elem?-eq-get_or n.sockets i zero_socket (omega (arith, v.all)))

-- From every sound state the code returns, with a result of which `P` holds, in a sound state.
abbrev pub Returns : {A : Type 0} → (A → Type 0) → M A → Net → Type 0
Returns {A} P m n = (a : A) × (n' : Net) × (m n ≡ some (a, n')) × IsNet n' × P a

abbrev Safe : {A : Type 0} → (A → Type 0) → M A → Type 0
Safe P m = (n : Net) → IsNet n → Returns P m n

-- `Safe`, whatever is returned
abbrev pub Keeps : {A : Type 0} → M A → Type 0
Keeps m = Safe (λ a. Unit {0}) m

Safe-pure : {A : Type 0} {P : A → Type 0} (a : A) → P a → Safe P (pure a)
Safe-pure a h n v = (a, n, refl, v, h)

pub Safe-bind :
    {A B : Type 0} {P : A → Type 0} {Q : B → Type 0} (m : M A) (f : A → M B)
    → Safe P m
    → ((a : A) → P a → Safe Q (f a))
    → Safe Q (m >>= f)
Safe-bind m f hm hf n v =
    let (a, n', e, v', p) = hm n v in
    let (b, n'', e', v'', q) = hf a p n' v' in (b, n'', bind-some m f e ∙ e', v'', q)

pub Safe-if :
    {A : Type 0} {P : A → Type 0} (b : Bool) (m k : M A)
    → Safe P m
    → Safe P k
    → Safe P (if b then m else k)
Safe-if true m k hm hk = hm
Safe-if false m k hm hk = hk

pub Safe-slot :
    {A : Type 0} {P : A → Type 0} (id : ℤ) (bad : M A) (k : ℕ → M A)
    → Safe P bad
    → ((i : ℕ) → i < max_sockets → Safe P (k i))
    → Safe P (with_slot id bad k)
Safe-slot (pos i) bad k hb hk = elim (Bool-cases (ltb i max_sockets)) [
  | inl inside ↦ rw inside (hk i (ltb→lt i max_sockets inside))
  | inr outside ↦ rw outside hb
]
Safe-slot (negsuc i) bad k hb hk = hb

pub Keeps-call : (c : Call) → Keeps (call c)
unfolding call
Keeps-call c n v = (
  tt,
  record n { trace = c ∷ n.trace },
  refl,
  record { all = v.all; sound = v.sound; queue = v.queue; unlocked = v.unlocked },
  tt,
)

pub Keeps-ask : {A : Type 0} (c : Call) (r : Trace → A) → Keeps (ask c r)
unfolding ask
Keeps-ask c r n v = (
  r n.trace,
  record n { trace = c ∷ n.trace },
  refl,
  record { all = v.all; sound = v.sound; queue = v.queue; unlocked = v.unlocked },
  tt,
)

pub Keeps-enqueue : (e : Event) → Keeps (enqueue e)
unfolding enqueue
Keeps-enqueue e n v = (
  tt,
  record n { queue = (event_enqueue e n.queue).1 },
  refl,
  record {
    all = v.all;
    sound = v.sound;
    queue = event_enqueue-IsQueue e v.queue;
    unlocked = v.unlocked;
  },
  tt,
)

pub Safe-load : (i : ℕ) → i < max_sockets → Safe IsSound (load i)
Safe-load i lt n v =
    let (s, at) = socket_at n i v lt in
    (s, n, load_lem i n at, v, AllSound-get n.sockets i s v.sound at)

-- A socket of the table replaced by a sound one.
pub stored :
    (n : Net) (i : ℕ) (s : Socket)
    → IsNet n
    → IsSound s
    → IsNet (record n { sockets = set n.sockets i s })
stored n i s v h = record {
  all = length-set n.sockets i s ∙ v.all;
  sound = AllSound-set n.sockets i s v.sound h;
  queue = v.queue;
  unlocked = v.unlocked;
}

pub Keeps-store : (i : ℕ) (s : Socket) → IsSound s → Keeps (store i s)
unfolding store
Keeps-store i s h n v = (tt, record n { sockets = set n.sockets i s }, refl, stored n i s v h, tt)

pub Keeps-pure : {A : Type 0} (a : A) → Keeps (pure a)
Keeps-pure a = Safe-pure a tt

pub Keeps-then : {A : Type 0} (m : M (Unit {0})) (k : M A) → Keeps m → Keeps k → Keeps (m >> k)
Keeps-then m k hm hk = Safe-bind m (λ _. k) hm (λ _ _. hk)

-- What a socket is or has besides its buffer does not matter, if it has no pcb without one.
pub IsSound-same :
    (s s' : Socket)
    → s'.recv_buf ≡ s.recv_buf
    → s'.recv_capacity ≡ s.recv_capacity
    → s'.recv_len ≡ s.recv_len
    → ((s.pcb ≡ none) → s'.pcb ≡ none)
    → IsSound s
    → IsSound s'
IsSound-same s s' b c l p (inl v) = inl (record {
  block = v.block;
  is_block = b ∙ v.is_block;
  size = v.size;
  capacity = c ∙ v.capacity;
  within = rw l v.within;
})
IsSound-same s s' b c l p (inr e) = inr (b ∙ e.0, p e.1)

-- A statement of the socket that a number names, if it names one.
abbrev pub At : (Socket → Type 0) → Net → ℤ → Type 0
At P n (pos i) = (s : Socket) → get_elem? n.sockets i ≡ some s → P s
At P n (negsuc i) = Unit {0}

-- A socket with a pcb has its buffer.
pub IsSound-pcb : (s : Socket) → IsSound s → is_some s.pcb ≡ true → IsLive s
IsSound-pcb s (inl v) e = v
IsSound-pcb s (inr h) e = absurd (ground (arith, h.1, e))

-- A sound socket put back, the lock released, with the event queue and the calls as they may be.
pub moved :
    (n : Net) (i : ℕ) (s : Socket) (q : EventQueue) (t : Trace)
    → IsNet n
    → IsSound s
    → IsQueue q
    → IsNet (record n { sockets = set n.sockets i s; queue = q; net_lock = false; trace = t })
moved n i s q t v h hq = record {
  all = length-set n.sockets i s ∙ v.all;
  sound = AllSound-set n.sockets i s v.sound h;
  queue = hq;
  unlocked = refl;
}
