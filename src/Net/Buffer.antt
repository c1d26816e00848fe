-- ===== src/Net/Buffer.antt =====
-- The receive buffer of a socket: what it holds, and what appending to it and taking from it do.
use pico_ocaml.Prelude.{
  ℕ, ◌+◌, ◌≤◌, ◌≡◌, refl, sym, ap, ◌∙◌, none, some, List, [], ◌++◌, length, take, drop,
  length-append, length-take, length-drop, take-append_length, take_split, append_assoc, arith, ◌-◌,
  Bool-cases, ltb, inl, inr, append-nil,
}
use pico_ocaml.Net.State.{Socket, max_recv_buffer}
use pico_ocaml.Net.Tcp.{append_bytes, take_bytes}

-- the bytes received and not yet read, oldest first
abbrev pub received : Socket → List ℕ
received s = elim s.recv_buf [ none ↦ [] | some b ↦ take s.recv_len b ]

-- The socket has its buffer, and what it says of it is true.
pub record IsLive (s : Socket) : Type 0 where
  pub block : List ℕ
  pub is_block : s.recv_buf ≡ some block
  pub size : length block ≡ max_recv_buffer
  pub capacity : s.recv_capacity ≡ max_recv_buffer
  pub within : s.recv_len ≤ max_recv_buffer

-- The fields that moving bytes leaves alone.
pub record SameSocket (s s' : Socket) : Type 0 where
  pub proto : s'.proto ≡ s.proto
  pub state : s'.state ≡ s.state
  pub pcb : s'.pcb ≡ s.pcb
  pub src_ip : s'.udp_src_ip ≡ s.udp_src_ip
  pub src_port : s'.udp_src_port ≡ s.udp_src_port

-- `write_at` replaces a stretch of the block.
length-write_at :
    (off : ℕ) (xs b : List ℕ)
    → off + length xs ≤ length b
    → length (take off b ++ (xs ++ drop (off + length xs) b)) ≡ length b
length-write_at off xs b h = omega (
  arith,
  length-append (take off b) (xs ++ drop (off + length xs) b),
  length-append xs (drop (off + length xs) b),
  length-take off b,
  length-drop (off + length xs) b,
)

take-write_at :
    (off : ℕ) (xs b : List ℕ)
    → off + length xs ≤ length b
    → take (off + length xs) (take off b ++ (xs ++ drop (off + length xs) b)) ≡ take off b ++ xs
take-write_at off xs b h =
    ap (take (off + length xs)) (sym (append_assoc (take off b) xs (drop (off + length xs) b)))
    ∙ ap (λ k. take k ((take off b ++ xs) ++ drop (off + length xs) b)) size
    ∙ take-append_length (take off b ++ xs) (drop (off + length xs) b)
  where
    size : off + length xs ≡ length (take off b ++ xs)
    size = omega (arith, length-append (take off b) xs, length-take off b)

pub record Appended (s : Socket) (xs : List ℕ) (s' : Socket) : Type 0 where
  pub live : IsLive s'
  pub same : SameSocket s s'
  pub bytes : received s' ≡ received s ++ xs

-- Bytes that fit are appended to what the buffer holds.
pub append_bytes-Appended :
    (s : Socket) (xs : List ℕ)
    → IsLive s
    → s.recv_len + length xs ≤ max_recv_buffer
    → (s' : Socket) × (append_bytes s xs ≡ some s') × Appended s xs s'
unfolding append_bytes
append_bytes-Appended s xs v h = (
  record s {
    recv_buf = some (take s.recv_len v.block ++ (xs ++ drop (s.recv_len + length xs) v.block));
    recv_len = s.recv_len + length xs;
  },
  ground (arith, v.is_block, v.size),
  record {
    live = record {
      block = _;
      is_block = refl;
      size = omega (arith, length-write_at s.recv_len xs v.block);
      capacity = v.capacity;
      within = h;
    };
    same = record { proto = refl; state = refl; pcb = refl; src_ip = refl; src_port = refl };
    bytes =
        take-write_at s.recv_len xs v.block (omega (arith, v.size))
        ∙ ap (λ o. elim o [ none ↦ [] | some b ↦ take s.recv_len b ] ++ xs) (sym v.is_block);
  },
)

pub record Taken (s : Socket) (n : ℕ) (out : List ℕ) (s' : Socket) : Type 0 where
  pub live : IsLive s'
  pub same : SameSocket s s'
  pub count : length out ≡ n
  pub bytes : received s ≡ out ++ received s'

pub received-live : (s : Socket) (v : IsLive s) → received s ≡ take s.recv_len v.block
received-live s v = ground (arith, v.is_block)

taken_all :
    (s : Socket) (n : ℕ) (v : IsLive s)
    → s.recv_len ≡ n
    → received s ≡ take n v.block ++ received (record s { recv_len = s.recv_len - n })
taken_all s n v e =
    received-live s v
    ∙ ap (λ k. take k v.block) e
    ∙ sym (append-nil (take n v.block))
    ∙ ap (◌++◌ (take n v.block)) (sym none_left)
  where
    zero_left : s.recv_len - n ≡ 0
    zero_left = omega arith

    none_left : received (record s { recv_len = s.recv_len - n }) ≡ []
    none_left = ground (arith, v.is_block, zero_left)

-- Up to all of what the buffer holds is taken from its front, and the rest moves to the front.
pub take_bytes-Taken :
    (s : Socket) (n : ℕ)
    → IsLive s
    → n ≤ s.recv_len
    → (out : List ℕ) × (s' : Socket) × (take_bytes s n ≡ some (out, s')) × Taken s n out s'
unfolding take_bytes
take_bytes-Taken s n v h = elim (Bool-cases (ltb n s.recv_len)) [
  | inl part ↦ (
    take n v.block,
    record s { recv_buf = some moved; recv_len = s.recv_len - n },
    ground (arith, v.is_block, v.size, rest_length),
    record {
      live = record {
        block = moved;
        is_block = refl;
        size =
            length-write_at 0 rest v.block (omega (arith, rest_length, v.size, v.within)) ∙ v.size;
        capacity = v.capacity;
        within = omega (arith, v.within);
      };
      same = record { proto = refl; state = refl; pcb = refl; src_ip = refl; src_port = refl };
      count = omega (arith, length-take n v.block, v.size, v.within);
      bytes = received-live s v ∙ cut ∙ ap (◌++◌ (take n v.block)) (sym kept);
    },
  )
  | inr all ↦ (
    take n v.block,
    record s { recv_len = s.recv_len - n },
    ground (arith, v.is_block, v.size, v.within),
    record {
      live = record {
        block = v.block;
        is_block = v.is_block;
        size = v.size;
        capacity = v.capacity;
        within = omega (arith, v.within);
      };
      same = record { proto = refl; state = refl; pcb = refl; src_ip = refl; src_port = refl };
      count = omega (arith, length-take n v.block, v.size, v.within);
      bytes = taken_all s n v (ground arith);
    },
  )
]
  where
    rest : List ℕ
    rest = take (s.recv_len - n) (drop n v.block)

    moved : List ℕ
    moved = take 0 v.block ++ (rest ++ drop (0 + length rest) v.block)

    rest_length : length rest ≡ s.recv_len - n
    rest_length = omega (
      arith,
      length-take (s.recv_len - n) (drop n v.block),
      length-drop n v.block,
      v.size,
      v.within,
    )

    cut : take s.recv_len v.block ≡ take n v.block ++ rest
    cut = ap (λ k. take k v.block) whole ∙ take_split n (s.recv_len - n) v.block
      where
        whole : s.recv_len ≡ n + (s.recv_len - n)
        whole = omega arith

    kept : take (s.recv_len - n) moved ≡ rest
    kept =
        ap (λ k. take k moved) (sym rest_length)
        ∙ take-append_length rest (drop (0 + length rest) v.block)

pub length-received : (s : Socket) → IsLive s → length (received s) ≡ s.recv_len
length-received s v =
    ap length (received-live s v) ∙ omega (arith, length-take s.recv_len v.block, v.size, v.within)
