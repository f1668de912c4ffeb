-- ===== src/Programs/Stack/Refines.antt =====
-- The operations of benchmarks/slmc/programs/aplas-stack.c and the list of values they stand for.
use cyclist.Base.{
  ℕ, zero, suc, ◌+◌, ◌<◌, ◌≤◌, false, none, some, List, [], ◌∷◌, Memᴰ, length, ◌≡◌, ◌≢◌, refl, sym,
  ◌∙◌, inl, inr, arith, subst, ◌==◌, ==_iff, Bool-cases,
}
use mathlib.Core.List.Memᴰ
use cyclist.Programs.Heap.{Heap, store, store-same, store-other, update-some, release-some}
use cyclist.Programs.Stack.{
  Node, Stack, Memory, Malloc, max_int, create_stack, push, pop, count_nodes, get_length,
}
use cyclist.Programs.Stack.Chain.{
  Cell, Chain, addresses, Chain-keeps, Chain-released, Chain-allocated,
}

-- The stack at `s` has these cells, the top first.
abbrev pub IsStack : Memory → ℕ → List Cell → Type 0
IsStack m s cells = (st : Stack) × (m.stacks s ≡ some st) × Chain m.nodes st.head cells

-- A block is new and not at the null pointer.
pub record IsFresh (malloc : Malloc) : Type 0 where
  pub node_fresh :
      (m : Memory) (a : ℕ) (n : Node)
      → malloc.new_node m ≡ some (a, n)
      → (a ≢ 0) × (m.nodes a ≡ none)
  pub stack_fresh :
      (m : Memory) (s : ℕ) (st : Stack)
      → malloc.new_stack m ≡ some (s, st)
      → (s ≢ 0) × (m.stacks s ≡ none)

-- The address is not zero as a test.
nonzero_test : (a : ℕ) → a ≢ 0 → (a == 0) ≡ false
nonzero_test a other = elim (Bool-cases (a == 0)) [
  | inl same ↦ absurd (other ((==_iff a 0).0 same))
  | inr differs ↦ differs
]

other_test : (r : ℕ) → r < max_int → (r == max_int) ≡ false
other_test r lt = elim (Bool-cases (r == max_int)) [
  | inl same ↦ let e = (==_iff r max_int).0 same in absurd (omega arith)
  | inr differs ↦ differs
]

-- Where `malloc` gives a new block, `push` returns; the stack has the value on top of its cells,
-- in that block, and no other node changes.
pub push-IsStack :
    (malloc : Malloc) (s x : ℕ) (m : Memory) (cells : List Cell) (a : ℕ) (n : Node)
    → IsFresh malloc
    → malloc.new_node m ≡ some (a, n)
    → IsStack m s cells
    → (m' : Memory) × (push malloc s x m ≡ some m')
      × IsStack m' s ((a, x) ∷ cells)
      × ((b : ℕ) → a ≢ b → m'.nodes b ≡ m.nodes b)
unfolding push
push-IsStack malloc s x m cells a n fresh made (st, at_s, chain) =
    let (nonzero, unused) = fresh.node_fresh m a n made in
    let n1 : Node = record n { next = st.head } in
    let h0 = store m.nodes a (some n) in
    let h1 = store h0 a (some n1) in
    let h2 = store h1 a (some (record n1 { value = x })) in
    let frame : (b : ℕ) → a ≢ b → h2 b ≡ m.nodes b = λ b other.
      store-other h1 a _ b other ∙ store-other h0 a _ b other ∙ store-other m.nodes a _ b other in
    let first =
      update-some h0 a (λ (c : Node). record c { next = st.head }) n
        (store-same m.nodes a (some n)) in
    let second =
      update-some h1 a (λ (c : Node). record c { value = x }) n1 (store-same h0 a (some n1)) in
    let third = update-some m.stacks s (λ (c : Stack). record c { head = a }) st at_s in
    (
      record { nodes = h2; stacks = store m.stacks s (some (record { head = a })) },
      rw (made, at_s, first, second, third) refl,
      (
        record { head = a },
        store-same m.stacks s _,
        (
          refl,
          nonzero,
          st.head,
          store-same h1 a _,
          Chain-keeps m.nodes h2 cells st.head
              (λ b k. frame b λ e.
                Chain-allocated m.nodes cells st.head b chain k
                  (subst (λ q. m.nodes q ≡ none) e unused))
              chain,
        ),
      ),
      frame,
    )

-- `pop` on a stack that is not empty returns the value on top; the stack has the other cells, the
-- block of the top is free, and no other node changes.
pub pop-IsStack :
    (s a v : ℕ) (m : Memory) (cells : List Cell)
    → IsStack m s ((a, v) ∷ cells)
    → (m' : Memory) × (pop s m ≡ some (v, m'))
      × IsStack m' s cells
      × (m'.nodes a ≡ none)
      × ((b : ℕ) → a ≢ b → m'.nodes b ≡ m.nodes b)
unfolding pop
pop-IsStack s a v m cells (st, at_s, chain) =
    let (same, nonzero, n, there, rest) = chain in
    let third = update-some m.stacks s (λ (c : Stack). record c { head = n }) st at_s in
    let freed = release-some m.nodes st.head _ there in
    (
      record {
        nodes = store m.nodes st.head none;
        stacks = store m.stacks s (some (record { head = n }));
      },
      rw (at_s, there, third, freed) refl,
      (
        record { head = n },
        store-same m.stacks s _,
        Chain-released m.nodes (a, v) cells st.head n chain rest,
      ),
      rw (← same) (store-same m.nodes st.head none),
      λ b other. store-other m.nodes st.head none b λ e. other (sym same ∙ e),
    )

count_nodes-Chain :
    (cells : List Cell) (fuel n r : ℕ) (h : Heap Node)
    → Chain h n cells
    → length cells < fuel
    → r + length cells ≤ max_int
    → count_nodes fuel n r h ≡ some (r + length cells)
unfolding count_nodes
count_nodes-Chain cells zero n r h chain lt le = absurd (omega arith)
count_nodes-Chain [] (suc fuel) n r h chain lt le =
    let e : r + 0 ≡ r = omega arith in rw (chain, e) refl
count_nodes-Chain (c ∷ cells) (suc fuel) n r h (same, nonzero, next, there, rest) lt le =
    let ih = count_nodes-Chain cells fuel next (suc r) h rest (omega arith) (omega arith) in
    let e : suc r + length cells ≡ r + suc (length cells) = omega arith in
    let small = other_test r (omega arith) in
    rw (nonzero_test n nonzero, small, there) (ih ∙ (rw e refl))

-- When the number of cells is an `int` and the loop may run once more than there are cells,
-- `get_length` returns that number.
pub get_length-IsStack :
    (fuel s : ℕ) (m : Memory) (cells : List Cell)
    → IsStack m s cells
    → length cells < fuel
    → length cells ≤ max_int
    → get_length fuel s m ≡ some (length cells)
unfolding get_length
get_length-IsStack fuel s m cells (st, at_s, chain) lt le =
    let e : 0 + length cells ≡ length cells = omega arith in
    rw at_s (count_nodes-Chain cells fuel st.head 0 m.nodes chain lt (omega arith) ∙ (rw e refl))

-- What the loop of `dispose` leaves.
abbrev Disposed : List Cell → Heap Node → Heap Node → Type 0
Disposed cells h k =
    ((b : ℕ) → Memᴰ b (addresses cells) → k b ≡ none)
    × ((b : ℕ) → ¬ Memᴰ b (addresses cells) → k b ≡ h b)

-- Where `malloc` gives a new block, `create_stack` returns an empty stack in it, and no node
-- changes.
pub create_stack-IsStack :
    (malloc : Malloc) (m : Memory) (s : ℕ) (st : Stack)
    → malloc.new_stack m ≡ some (s, st)
    → (m' : Memory) × (create_stack malloc m ≡ some (s, m'))
      × IsStack m' s []
      × (m'.nodes ≡ m.nodes)
unfolding create_stack
create_stack-IsStack malloc m s st made =
    let h = store m.stacks s (some st) in
    let written =
      update-some h s (λ (c : Stack). record c { head = 0 }) st (store-same m.stacks s (some st)) in
    (
      record m { stacks = store h s (some (record { head = 0 })) },
      rw (made, written) refl,
      (record { head = 0 }, store-same h s _, refl),
      refl,
    )
