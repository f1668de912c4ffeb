-- ===== src/Programs/Stack/Chain.antt =====
-- The cells of a linked list in the heap (benchmarks/slmc/programs/aplas-stack.c).
use cyclist.Base.{
  ℕ, suc, ◌<◌, none, some, List, [], ◌∷◌, map, Memᴰ, length, ◌≡◌, ◌≢◌, refl, sym, ap, ◌∙◌, subst,
  inl, inr, arith, some_injective,
}
use mathlib.Core.List.Memᴰ
use cyclist.Programs.Heap.{Heap, store, store-other}
use cyclist.Programs.Stack.{Node}

-- An address with the value there.
abbrev pub Cell : Type 0
Cell = ℕ × ℕ

-- The list that starts at `a` has these cells, and ends with a null pointer.
abbrev pub Chain : Heap Node → ℕ → List Cell → Type 0
Chain h a [] = a ≡ 0
Chain h a ((b, v) ∷ cells) =
    (a ≡ b) × (a ≢ 0) × (n : ℕ) × (h a ≡ some (record { next = n; value = v })) × Chain h n cells

abbrev pub addresses : List Cell → List ℕ
addresses = map (λ c. c.0)

-- Where a heap keeps the cells, it keeps the list.
pub Chain-keeps :
    (h k : Heap Node)
    → (cells : List Cell) (a : ℕ) → ((b : ℕ) → Memᴰ b (addresses cells) → k b ≡ h b)
    → Chain h a cells
    → Chain k a cells
Chain-keeps h k [] a same c = c
Chain-keeps h k ((b, v) ∷ cells) a same (e, nonzero, n, there, rest) = (
  e,
  nonzero,
  n,
  (rw e (same b (Memᴰ.head refl))) ∙ there,
  Chain-keeps h k cells n (λ x m. same x (Memᴰ.tail m)) rest,
)

-- A list at an address has one length.
Chain-length :
    (h : Heap Node) (xs ys : List Cell) (a : ℕ)
    → Chain h a xs
    → Chain h a ys
    → length xs ≡ length ys
Chain-length h [] [] a c d = refl
Chain-length h [] (y ∷ ys) a c d = absurd (d.1 c)
Chain-length h (x ∷ xs) [] a c d = absurd (c.1 d)
Chain-length h (x ∷ xs) (y ∷ ys) a (_, _, n, e, c) (_, _, n', f, d) =
    let same : n' ≡ n = ap (λ (q : Node). q.next) (some_injective (sym f ∙ e)) in
    ap suc (Chain-length h xs ys n c (subst (λ q. Chain h q ys) same d))

-- The cells of a list start lists no longer than it.
Chain-within :
    (h : Heap Node) (xs : List Cell) (a b : ℕ)
    → Chain h a xs
    → Memᴰ b (addresses xs)
    → (ys : List Cell) × Chain h b ys × (length ys < suc (length xs))
Chain-within h [] a b c m = absurd (Memᴰ.not-nil m)
Chain-within h (x ∷ xs) a b c m = elim (Memᴰ.cases_cons m) [
  | inl same ↦ (x ∷ xs, subst (λ q. Chain h q (x ∷ xs)) (c.0 ∙ sym same) c, omega arith)
  | inr k ↦
      let (_, _, n, _, rest) = c in
      let (ys, d, le) = Chain-within h xs n b rest k in (ys, d, omega arith)
]

-- No cell occurs twice.
pub Chain-fresh :
    (h : Heap Node) (x : Cell) (xs : List Cell) (a : ℕ)
    → Chain h a (x ∷ xs)
    → ¬ Memᴰ a (addresses xs)
Chain-fresh h x xs a c m =
    let (_, _, n, _, rest) = c in
    let (ys, d, le) = Chain-within h xs n a rest m in
    let same = Chain-length h (x ∷ xs) ys a c d in omega arith

-- The memory without the first cell still has the others.
pub Chain-released :
    (h : Heap Node) (x : Cell) (xs : List Cell) (a n : ℕ)
    → Chain h a (x ∷ xs)
    → Chain h n xs
    → Chain (store h a none) n xs
Chain-released h x xs a n c rest =
    Chain-keeps h (store h a none) xs n
      (λ b m.
        store-other h a none b
          λ e. Chain-fresh h x xs a c (subst (λ q. Memᴰ q (addresses xs)) (sym e) m))
      rest

-- A cell is allocated.
pub Chain-allocated :
    (h : Heap Node) (xs : List Cell) (a b : ℕ) → Chain h a xs → Memᴰ b (addresses xs) → h b ≢ none
Chain-allocated h [] a b c m e = absurd (Memᴰ.not-nil m)
Chain-allocated h (x ∷ xs) a b (same, _, n, there, rest) m e = elim (Memᴰ.cases_cons m) [
  | inl k ↦ let at_a : h a ≡ none = rw (same ∙ sym k) e in cc
  | inr k ↦ Chain-allocated h xs n b rest k e
]
