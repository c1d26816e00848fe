-- ===== src/Net/Tests/Sections.antt =====
-- Core 1 is in the section of the callback, with its copy of the socket, when core 0 calls a read.
use pico_ocaml.Prelude.{ℕ, ◌≡◌, refl, ◌&&◌, false, true, List, [], ◌∷◌, ◌++◌}
use pico_ocaml.Net.State.{Socket}
use pico_ocaml.Net.Buffer.{received, IsLive}
use pico_ocaml.Net.Tcp.Cores.{Writer, Reader, Cores, Step, start, Reach}
use pico_ocaml.Net.Tcp.Cores.Safety.{writes, reads, cores_safe}
use pico_ocaml.Net.Tests.{open_socket, open_socket-IsLive}

abbrev crossing : Cores
crossing = record (start open_socket) {
  net_lock = true;
  writer = Writer.loaded (4 ∷ 5 ∷ []) open_socket;
  reader = Reader.waiting 2;
}

crossing-Reach : Reach open_socket crossing
crossing-Reach =
    Reach.later
      (Reach.later
        (Reach.later (Reach.later Reach.here (Step.call (4 ∷ 5 ∷ []) refl))
          (Step.acquire (4 ∷ 5 ∷ []) refl refl))
        (Step.load (4 ∷ 5 ∷ []) refl))
      (Step.read_call 2 refl)

cores_safe_example :
    (writes crossing.writer && reads crossing.reader ≡ false)
    × IsLive crossing.sock
    × (crossing.stored ≡ crossing.returned ++ received crossing.sock)
    × ((p : List ℕ) (t : Socket)
        → crossing.writer ≡ Writer.loaded p t
        → (d : Cores) × Step crossing d × (d.writer ≡ Writer.leaving))
    × ((n : ℕ) (t : Socket)
        → crossing.reader ≡ Reader.loaded n t
        → (d : Cores) × Step crossing d × (d.reader ≡ Reader.leaving))
cores_safe_example = cores_safe open_socket-IsLive crossing-Reach
