-- ===== src/Console/Lock/Whole.antt =====
-- The texts of two cores come out whole, one after the other.
use pico_ocaml.Prelude.{
  ℕ, ◌≡◌, refl, sym, ap, subst, ◌∙◌, Bool, true, false, List, [], ◌∷◌, ◌++◌, append-nil,
  append_assoc, arith, if◌then◌else◌,
}
use pico_ocaml.Sync.Sdk.{Core, other, same_core}
use pico_ocaml.Console.Lock.{
  Printer, printing, Console, Step, call, acquire, spin, put, unlock, Reach, here, later,
}

abbrev pub concat : List (List ℕ) → List ℕ
concat [] = []
concat (t ∷ ts) = t ++ concat ts

concat_snoc : (ts : List (List ℕ)) (t : List ℕ) → concat (ts ++ (t ∷ [])) ≡ concat ts ++ t
concat_snoc [] t = append-nil t
concat_snoc (u ∷ ts) t = ap (◌++◌ u) (concat_snoc ts t) ∙ sym (append_assoc u (concat ts) t)

abbrev pub is_printing : Printer → Bool
is_printing (printing text rest) = true
is_printing _ = false

-- Either no core is printing, the lock is free and the console has received the texts, whole; or
-- one is, the lock is set, and it has also received the front of that core's text.
data Inv (s : Console) : Type 0 where
  free :
      s.lock ≡ false
      → ((c : Core) → is_printing (s.printer c) ≡ false)
      → s.out ≡ concat s.texts
      → Inv s
  held :
      (c : Core) (front text rest : List ℕ)
      → s.lock ≡ true
      → s.printer c ≡ Printer.printing text rest
      → is_printing (s.printer (other c)) ≡ false
      → text ≡ front ++ rest
      → s.out ≡ concat s.texts ++ front
      → Inv s

-- The core that prints is the one that the invariant names.
same_printer :
    (s : Console) (c d : Core) (text rest : List ℕ)
    → is_printing (s.printer (other c)) ≡ false
    → s.printer d ≡ Printer.printing text rest
    → c ≡ d
same_printer s Core.core0 Core.core0 text rest f e = refl
same_printer s Core.core1 Core.core1 text rest f e = refl
same_printer s Core.core0 Core.core1 text rest f e = absurd (ground (arith, f, e))
same_printer s Core.core1 Core.core0 text rest f e = absurd (ground (arith, f, e))

-- What the invariant says of the core that prints.
record Printing (s : Console) (c : Core) (text rest : List ℕ) : Type 0 where
  front : List ℕ
  locked : s.lock ≡ true
  alone : is_printing (s.printer (other c)) ≡ false
  whole : text ≡ front ++ rest
  out : s.out ≡ concat s.texts ++ front

Inv-Printing :
    {s : Console} (c : Core) (text rest : List ℕ)
    → Inv s
    → s.printer c ≡ Printer.printing text rest
    → Printing s c text rest
Inv-Printing {s} c text rest (free l f o) e = absurd (ground (arith, f c, e))
Inv-Printing {s} c text rest (held d front text' rest' l p f g o) e =
    let same = same_printer s d c text rest f e in
    let at = ap s.printer (sym same) ∙ p in
    record {
      front = front;
      locked = l;
      alone = subst (λ k. is_printing (s.printer (other k)) ≡ false) same f;
      whole = ground (arith, at, e, g);
      out = o;
    }

same_core_refl : (c : Core) → same_core c c ≡ true
same_core_refl Core.core0 = refl
same_core_refl Core.core1 = refl

other_not_same : (c : Core) → same_core c (other c) ≡ false
other_not_same Core.core0 = refl
other_not_same Core.core1 = refl

Step-Inv : {s t : Console} → Step s t → Inv s → Inv t
Step-Inv {s} (call c text e q) (free l f o) = rw q (free l (λ d. ground (arith, f d)) o)
Step-Inv {s} (call c text e q) (held d front text' rest l p f g o) =
    rw q (held d front text' rest l (ground (arith, p, e)) (ground (arith, f)) g o)
Step-Inv {s} (acquire c text e l q) (free l' f o) = rw q (
    held c [] text text refl (ground (arith, same_core_refl c))
      (ground (arith, f (other c), other_not_same c)) refl (o ∙ sym (append-nil (concat s.texts))))
Step-Inv {s} (acquire c text e l q) (held d front text' rest l' p f g o) =
    absurd (ground (arith, l, l'))
Step-Inv {s} (spin c text e l q) (free l' f o) = absurd (ground (arith, l, l'))
Step-Inv {s} (spin c text e l q) (held d front text' rest l' p f g o) =
    rw q (held d front text' rest refl p f g o)
Step-Inv {s} (put c text rest x e q) v =
    let k = Inv-Printing c text (x ∷ rest) v e in
    rw q (
      held c (k.front ++ (x ∷ [])) text rest k.locked (ground (arith, same_core_refl c))
        (ground (arith, k.alone, other_not_same c))
        (k.whole ∙ sym (append_assoc k.front (x ∷ []) rest))
        (ap (λ o. o ++ (x ∷ [])) k.out ∙ append_assoc (concat s.texts) k.front (x ∷ [])))
Step-Inv {s} (unlock c text e q) v =
    let k = Inv-Printing c text [] v e in
    rw q (
      free refl (all_idle c k.alone) (
        k.out
        ∙ ap (◌++◌ (concat s.texts)) (sym (k.whole ∙ append-nil k.front))
        ∙ sym (concat_snoc s.texts text)))
  where
    all_idle :
        (c : Core)
        → is_printing (s.printer (other c)) ≡ false
        → (d : Core) → is_printing (if same_core c d then Printer.idle else s.printer d) ≡ false
    all_idle Core.core0 f Core.core0 = refl
    all_idle Core.core0 f Core.core1 = f
    all_idle Core.core1 f Core.core0 = f
    all_idle Core.core1 f Core.core1 = refl

Reach-Inv : {s : Console} → Reach s → Inv s
Reach-Inv here = free refl (λ c. refl) refl
Reach-Inv (later r st) = Step-Inv st (Reach-Inv r)

-- In every reachable state of two cores that call `raw_puts`, a core that has put out all of its
-- text but `rest` is the only one that is printing, and the console has received exactly the
-- texts of the calls that have come back, whole and in the order of their ends, followed by the
-- front of that core's text.
pub raw_puts_whole :
    {s : Console} (c : Core) (text rest : List ℕ)
    → Reach s
    → s.printer c ≡ Printer.printing text rest
    → (is_printing (s.printer (other c)) ≡ false)
      × ((front : List ℕ) × (text ≡ front ++ rest) × (s.out ≡ concat s.texts ++ front))
raw_puts_whole c text rest r e =
    let k = Inv-Printing c text rest (Reach-Inv r) e in (k.alone, (k.front, k.whole, k.out))
