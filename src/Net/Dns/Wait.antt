-- ===== src/Net/Dns/Wait.antt =====
-- `dns_resolve` always comes back, and with what.
use pico_ocaml.Prelude.{
  ℕ, zero, suc, ◌+◌, ◌≤◌, ◌≡◌, refl, inl, inr, true, false, not, ◌&&◌, Option, none, some, List,
  Bool, [], ◌∙◌, ◌∷◌, arith, ◌==◌, if◌then◌else◌, is_some, Bool-cases,
}
use pico_ocaml.Prelude.Int.{pos}
use pico_ocaml.Net.World.{World, Call, Trace, Lookup}
use pico_ocaml.Net.State.{M, Net, call, minus_one, eq_ℤ}
use pico_ocaml.Net.Dns.{
  Others, first_others, later_others, beside_dns, dns_callback, poll_for, wait_dns, set_dns_done,
  read_dns_result, wait_for, dns_resolve,
}

abbrev address_or_zero : Option ℕ → ℕ
address_or_zero none = 0
address_or_zero (some ip) = ip

-- A property that neither the calls made nor the variables of DNS matter to.
abbrev pub IsStable : (Net → Type 0) → Type 0
IsStable P =
    (n : Net)
    → P n
    → (t : Trace) (done : Bool) (ip : ℕ)
    → P (record n { trace = t; dns_done = done; dns_result_ip = ip })

-- Callbacks that return, and keep `P`.
abbrev pub KeepsIt : (Net → Type 0) → M (Unit {0}) → Type 0
KeepsIt P m = (n : Net) → P n → (n' : Net) × (m n ≡ some (tt, n')) × P n'

abbrev pub AllKeep : (Net → Type 0) → Others → Type 0
AllKeep P [] = Unit {0}
AllKeep P (m ∷ ms) = KeepsIt P m × AllKeep P ms

module _ (P : Net → Type 0) (stable : IsStable P) where
  first-keeps : (others : Others) → AllKeep P others → KeepsIt P (first_others others)
  first-keeps [] k = λ n v. (n, refl, v)
  first-keeps (m ∷ ms) k = k.0

  later-keeps : (others : Others) → AllKeep P others → AllKeep P (later_others others)
  later-keeps [] k = tt
  later-keeps (m ∷ ms) k = k.1

  -- A round of the loop in which the callback does not come, and one in which it does.
  quiet :
      (k : ℕ) (answer : Option ℕ) (m : M (Unit {0})) (n : Net)
      → KeepsIt P m
      → P n
      → (n' : Net) × (poll_for (suc k) answer m n ≡ some (tt, n'))
        × P n'
        × (n'.dns_done ≡ n.dns_done)
  unfolding poll_for beside_dns call
  quiet k answer m n keeps v =
      let polled = record n { trace = Call.arch_poll ∷ n.trace } in
      let (n1, e, v1) = keeps polled (stable n v polled.trace n.dns_done n.dns_result_ip) in
      (
        record n1 { dns_done = n.dns_done; dns_result_ip = n.dns_result_ip },
        ground (arith, e),
        stable n1 v1 n1.trace n.dns_done n.dns_result_ip,
        refl,
      )

  called :
      (answer : Option ℕ) (m : M (Unit {0})) (n : Net)
      → KeepsIt P m
      → P n
      → (n' : Net) × (poll_for zero answer m n ≡ some (tt, n'))
        × P n'
        × (n'.dns_done ≡ true)
        × (n'.dns_result_ip ≡ address_or_zero answer)
  unfolding poll_for beside_dns call dns_callback
  called answer m n keeps v =
      let polled = record n { trace = Call.arch_poll ∷ n.trace } in
      let (n1, e, v1) = keeps polled (stable n v polled.trace n.dns_done n.dns_result_ip) in
      (
        record n1 { dns_done = true; dns_result_ip = address_or_zero answer },
        by_answer answer n1 e,
        stable n1 v1 n1.trace true (address_or_zero answer),
        refl,
        refl,
      )
    where
      by_answer :
          (answer : Option ℕ) (n1 : Net)
          → m (record n { trace = Call.arch_poll ∷ n.trace }) ≡ some (tt, n1)
          → poll_for zero answer m n
            ≡ some (tt, record n1 { dns_done = true; dns_result_ip = address_or_zero answer })
      by_answer none n1 e = ground (arith, e)
      by_answer (some ip) n1 e = ground (arith, e)

  -- The callback comes in the round after `k` others, and the loop ends with it.
  wait_dns_lem :
      (k fuel : ℕ) (answer : Option ℕ) (others : Others) (n : Net)
      → AllKeep P others
      → P n
      → n.dns_done ≡ false
      → k + 2 ≤ fuel
      → (n' : Net) × (wait_dns fuel k answer others n ≡ some (tt, n'))
        × P n'
        × (n'.dns_result_ip ≡ address_or_zero answer)
  unfolding wait_dns call
  wait_dns_lem k zero answer others n keep v waits h = absurd (omega arith)
  wait_dns_lem k (suc zero) answer others n keep v waits h = absurd (omega arith)
  wait_dns_lem zero (suc (suc fuel)) answer others n keep v waits h =
      let (n1, e, v1, done, ip) =
        called answer (first_others others) n (first-keeps others keep) v in
      let n2 = record n1 { trace = Call.sleep_ms 10 ∷ n1.trace } in
      (n2, ground (arith, waits, e, done), stable n1 v1 n2.trace n1.dns_done n1.dns_result_ip, ip)
  wait_dns_lem (suc k) (suc (suc fuel)) answer others n keep v waits h =
      let (n1, e, v1, same) = quiet k answer (first_others others) n (first-keeps others keep) v in
      let n2 = record n1 { trace = Call.sleep_ms 10 ∷ n1.trace } in
      let (n3, e', v3, ip) =
        wait_dns_lem k (suc fuel) answer (later_others others) n2 (later-keeps others keep)
          (stable n1 v1 n2.trace n1.dns_done n1.dns_result_ip) (same ∙ waits) (omega arith) in
      (n3, ground (arith, waits, e, e'), v3, ip)

-- What lwIP's answers amount to: the address, if there is one.
abbrev pub resolved : World → Lookup → Option ℕ
resolved w r =
    if eq_ℤ r.code w.err_ok
    then some r.cached
    else if eq_ℤ r.code w.err_inprogress && not (address_or_zero r.answer == 0)
    then some (address_or_zero r.answer)
    else none

-- Whatever lwIP answers, at once or with its callback after any number of polls, and whatever its
-- other callbacks do in these polls, as long as each returns and keeps a property `P` that
-- neither the calls made nor the variables of DNS matter to: `dns_resolve` returns, 0 with the
-- address if there is one, cached or given to the callback and not 0, and otherwise -1 with none;
-- and `P` is kept.
pub dns_resolve_lem :
    (P : Net → Type 0) (w : World) (others : Others) (hostname : List ℕ) (n : Net)
    → IsStable P
    → AllKeep P others
    → P n
    → let ip = resolved w (w.lookup_result (Call.lwip_begin ∷ n.trace)) in
      (n' : Net) × (dns_resolve w others hostname n
        ≡ some (((if is_some ip then pos 0 else minus_one), ip), n'))
      × P n'
unfolding dns_resolve wait_for set_dns_done read_dns_result
dns_resolve_lem P w others hostname n stable keep v =
    let r = w.lookup_result (Call.lwip_begin ∷ n.trace) in
    let asked = record n {
      trace = Call.lwip_end ∷ Call.gethostbyname hostname ∷ Call.lwip_begin ∷ n.trace;
    } in
    let v1 = stable n v asked.trace n.dns_done n.dns_result_ip in
    elim (Bool-cases (eq_ℤ r.code w.err_ok)) [
      | inl cached ↦ (asked, ground (arith, cached), v1)
      | inr uncached ↦ elim (Bool-cases (eq_ℤ r.code w.err_inprogress)) [
        | inr failed ↦ (asked, ground (arith, uncached, failed), v1)
        | inl waits ↦
            let (n', e, v', ip) =
              wait_dns_lem P stable r.polls (r.polls + 2) r.answer others
                (record asked { dns_done = false }) keep
                (stable n v asked.trace false n.dns_result_ip) refl (omega arith) in
            (n', ground (arith, uncached, waits, e, ip), v')
      ]
    ]
