-- ===== src/Net/Socket/Alloc.antt =====
-- Which slot `socket_alloc` gives out.
use pico_ocaml.Prelude.{
  ℕ, zero, suc, ◌+◌, ◌<◌, ◌≡◌, refl, sym, ap, ◌∙◌, inl, inr, true, Option, none, some, List, [],
  ◌∷◌, arith, if◌then◌else◌, is_some, Bool-cases, Option-cases, length, get_elem?, set,
}
use pico_ocaml.Prelude.Int.{ℤ, pos}
use pico_ocaml.Net.World.{World, Call}
use pico_ocaml.Net.State.{
  max_sockets, SocketState, is_closed, Proto, Socket, Net, M, pure, load, minus_one, bind-some,
  load_lem,
}
use pico_ocaml.Net.Socket.{claim, alloc_from, socket_alloc, socket_free}
use mathlib.Core.Option

-- the first closed socket of a list
abbrev pub first_closed : List Socket → Option ℕ
first_closed [] = none
first_closed (s ∷ ss) = if is_closed s.state then some 0 else Option.map suc (first_closed ss)

module _ (w : World) (proto : Proto) where
  -- What the loop does from slot `i` on, when the first closed slot from there is at distance `k`.
  abbrev claim_from : ℕ → Option ℕ → M ℤ
  claim_from i none = pure minus_one
  claim_from i (some k) = claim w proto (i + k)

  claim_from-suc :
      (i : ℕ) (o : Option ℕ) (n : Net) → claim_from (i + 1) o n ≡ claim_from i (Option.map suc o) n
  claim_from-suc i none n = refl
  claim_from-suc i (some k) n = ap (λ j. claim w proto j n) (omega arith)

  pick : ℕ → M ℤ → Socket → M ℤ
  pick i rest s = if is_closed s.state then claim w proto i else rest

  alloc_from_lem :
      (n : Net) (suffix : List Socket) (i : ℕ)
      → ((k : ℕ) → get_elem? n.sockets (i + k) ≡ get_elem? suffix k)
      → alloc_from w proto (length suffix) i n ≡ claim_from i (first_closed suffix) n
  unfolding alloc_from pick
  alloc_from_lem n [] i same = refl
  alloc_from_lem n (s ∷ ss) i same =
      bind-some (load i) (pick i (alloc_from w proto (length ss) (i + 1))) (load_lem i n here)
      ∙ elim (Bool-cases (is_closed s.state)) [
        | inl c ↦ rw (c, here_index) refl
        | inr o ↦ rw o (alloc_from_lem n ss (i + 1) later ∙ claim_from-suc i (first_closed ss) n)
      ]
    where
      here_index : i + 0 ≡ i
      here_index = omega arith

      here : get_elem? n.sockets i ≡ some s
      here = ap (get_elem? n.sockets) (sym here_index) ∙ same 0

      later : (k : ℕ) → get_elem? n.sockets (i + 1 + k) ≡ get_elem? ss k
      later k = ap (get_elem? n.sockets) next_index ∙ same (suc k)
        where
          next_index : i + 1 + k ≡ i + suc k
          next_index = omega arith

  -- `socket_alloc` takes the first closed slot of the table.
  pub socket_alloc_lem :
      (n : Net)
      → length n.sockets ≡ max_sockets
      → socket_alloc w proto n ≡ claim_from 0 (first_closed n.sockets) n
  unfolding socket_alloc
  socket_alloc_lem n all =
      ap (λ k. alloc_from w proto k 0 n) (sym all)
      ∙ alloc_from_lem n n.sockets 0 (λ k. ap (get_elem? n.sockets) (omega arith))

pub set-set {ℓ} : {A : Type ℓ} (xs : List A) (i : ℕ) (x y : A) → set (set xs i x) i y ≡ set xs i y
set-set [] i x y = refl
set-set (z ∷ zs) zero x y = refl
set-set (z ∷ zs) (suc i) x y = ap (◌∷◌ z) (set-set zs i x y)

pub first_closed-lt : (ss : List Socket) (i : ℕ) → first_closed ss ≡ some i → i < length ss
first_closed-lt [] i e = cc
first_closed-lt (s ∷ ss) i e = elim (Option-cases (first_closed ss)) [
  | inl r ↦ ground (arith, r)
  | inr (k, r) ↦ ground (arith, r, first_closed-lt ss k r)
]

-- The slot found keeps its place if what is put there is closed too.
pub first_closed-set_closed :
    (ss : List Socket) (i : ℕ) (s : Socket)
    → first_closed ss ≡ some i
    → is_closed s.state ≡ true
    → first_closed (set ss i s) ≡ some i
first_closed-set_closed [] i s e c = cc
first_closed-set_closed (t ∷ ts) zero s e c = rw c
first_closed-set_closed (t ∷ ts) (suc i) s e c = elim (Option-cases (first_closed ts)) [
  | inl r ↦ ground (arith, r)
  | inr (k, r) ↦ ground (arith, r, first_closed-set_closed ts i s)
]

-- A slot that is not closed is never found.
pub first_closed-is_closed :
    (ss : List Socket) (i : ℕ)
    → first_closed ss ≡ some i
    → (s : Socket) × (get_elem? ss i ≡ some s) × (is_closed s.state ≡ true)
first_closed-is_closed [] i e = cc
first_closed-is_closed (t ∷ ts) zero e = elim (Option-cases (first_closed ts)) [
  | inl r ↦ (t, refl, ground (arith, r))
  | inr (k, r) ↦ (t, refl, ground (arith, r))
]
first_closed-is_closed (t ∷ ts) (suc i) e = elim (Option-cases (first_closed ts)) [
  | inl r ↦ absurd (ground (arith, r))
  | inr (k, r) ↦ first_closed-is_closed ts i (ground (arith, r))
]

-- What `socket_free` leaves of a socket. The counts stay as they were.
abbrev pub freed : Socket → Socket
freed s = record s { recv_buf = none; state = SocketState.closed; pcb = none }

-- `socket_free` on a socket of the table: the buffer goes back to the allocator, if there is one,
-- and the slot is closed.
pub socket_free_lem :
    (n : Net) (i : ℕ) (s : Socket)
    → i < max_sockets
    → get_elem? n.sockets i ≡ some s
    → socket_free (pos i) n
      ≡ some (
        tt,
        record n {
          sockets = set n.sockets i (freed s);
          trace = if is_some s.recv_buf then Call.free ∷ n.trace else n.trace;
        },
      )
unfolding socket_free
socket_free_lem n i s lt at = elim (Bool-cases (is_some s.recv_buf)) [
  | inl some_buf ↦ ground (arith, some_buf)
  | inr no_buf ↦ ground (arith, no_buf)
]
