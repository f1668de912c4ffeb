-- ===== src/Tests/StackRuns.antt =====
-- Runs of the stack of benchmarks/slmc/programs/aplas-stack.c.
use cyclist.Base.{ℕ, ◌≡◌, ◌≢◌, Option, none, some, [], ◌∷◌, length, refl, arith}
use cyclist.Programs.Heap.{store}
use cyclist.Programs.Stack.{Node, Memory, Malloc, create_stack, push, pop, get_length}
use cyclist.Programs.Stack.Chain.{Cell}
use cyclist.Programs.Stack.Refines.{
  IsStack, IsFresh, push-IsStack, pop-IsStack, get_length-IsStack, create_stack-IsStack,
}

abbrev junk : Node
junk = record { next = 9; value = 9 }

-- A `malloc` with one block for nodes, at 1, and one for stacks, at 2.
abbrev small_malloc : Malloc
small_malloc = record {
  new_node = λ m. elim (m.nodes 1) [ none ↦ some (1, junk) | some _ ↦ none ];
  new_stack = λ m. elim (m.stacks 2) [ none ↦ some (2, record { head = 9 }) | some _ ↦ none ];
}

if_unused :
    {A : Type 0} (found : Option A) (k a : ℕ) (j n : A)
    → ◌≡◌ {A = Option (ℕ × A)} (elim found [ none ↦ some (k, j) | some _ ↦ none ]) (some (a, n))
    → (k ≡ a) × (found ≡ none)
if_unused none k a j n e = (cc, refl)
if_unused (some c) k a j n e = cc

small_malloc-IsFresh : IsFresh small_malloc
small_malloc-IsFresh = record {
  node_fresh = λ m a n e.
      let (same, unused) = if_unused (m.nodes 1) 1 a junk n e in
      (omega (arith, same), rw (← same) unused);
  stack_fresh = λ m a n e.
      let (same, unused) = if_unused (m.stacks 2) 2 a (record { head = 9 }) n e in
      (omega (arith, same), rw (← same) unused);
}

abbrev no_memory : Memory
no_memory = record { nodes = λ a. none; stacks = λ a. none }

abbrev empty_memory : Memory
empty_memory = record {
  nodes = λ a. none;
  stacks = store (λ a. none) 2 (some (record { head = 0 }));
}

abbrev one_memory : Memory
one_memory = record {
  nodes = store (λ a. none) 1 (some (record { next = 0; value = 7 }));
  stacks = store (λ a. none) 2 (some (record { head = 1 }));
}

empty_memory-IsStack : IsStack empty_memory 2 []
unfolding store
empty_memory-IsStack = (record { head = 0 }, refl, refl)

one_memory-IsStack : IsStack one_memory 2 ((1, 7) ∷ [])
unfolding store
one_memory-IsStack = (record { head = 1 }, refl, (refl, omega arith, 0, refl, refl))

create_stack-IsStack_example :
    (m' : Memory) × (create_stack small_malloc no_memory ≡ some (2, m'))
    × IsStack m' 2 []
    × (m'.nodes ≡ no_memory.nodes)
create_stack-IsStack_example =
    create_stack-IsStack small_malloc no_memory 2 (record { head = 9 }) refl

push-IsStack_example :
    (m' : Memory) × (push small_malloc 2 7 empty_memory ≡ some m')
    × IsStack m' 2 ((1, 7) ∷ [])
    × ((b : ℕ) → 1 ≢ b → m'.nodes b ≡ empty_memory.nodes b)
push-IsStack_example =
    push-IsStack small_malloc 2 7 empty_memory [] 1 junk small_malloc-IsFresh refl
      empty_memory-IsStack

pop-IsStack_example :
    (m' : Memory) × (pop 2 one_memory ≡ some (7, m'))
    × IsStack m' 2 []
    × (m'.nodes 1 ≡ none)
    × ((b : ℕ) → 1 ≢ b → m'.nodes b ≡ one_memory.nodes b)
pop-IsStack_example = pop-IsStack 2 1 7 one_memory [] one_memory-IsStack

get_length-IsStack_example : get_length 2 2 one_memory ≡ some (length {A = Cell} ((1, 7) ∷ []))
get_length-IsStack_example =
    get_length-IsStack 2 2 one_memory ((1, 7) ∷ []) one_memory-IsStack (omega arith) (omega arith)
