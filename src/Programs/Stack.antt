-- ===== src/Programs/Stack.antt =====
-- The stack of benchmarks/slmc/programs/aplas-stack.c: a linked list in the heap.
pub mod Chain
pub mod Refines
use cyclist.Base.{
  ℕ, zero, suc, ◌+◌, ◌<◌, Bool, true, false, Option, none, some, ◌>>=◌, if◌then◌else◌, ◌>>◌, ◌==◌,
  assert,
}
use cyclist.Programs.Heap.{Heap, store, update, release}

-- `struct node`; a value is only copied
pub record Node : Type 0 where
  pub next : ℕ
  pub value : ℕ

-- `struct stack`
pub record Stack : Type 0 where
  pub head : ℕ

pub record Memory : Type 0 where
  pub nodes : Heap Node
  pub stacks : Heap Stack

-- `malloc` for the two structs: an address with what lies there, or a null pointer as `none`.
pub record Malloc : Type 0 where
  pub new_node : Memory → Option (ℕ × Node)
  pub new_stack : Memory → Option (ℕ × Stack)

-- The largest `int`.
abbrev pub max_int : ℕ
max_int = 2147483647

-- `none` is `abort` or a fault.
unfoldable pub create_stack : Malloc → Memory → Option (ℕ × Memory)
create_stack malloc m = do
  made ← malloc.new_stack m
  stacks ← update (store m.stacks made.0 (some made.1)) made.0 (λ s. record s { head = 0 })
  some (made.0, record m { stacks = stacks })

unfoldable pub push : Malloc → ℕ → ℕ → Memory → Option Memory
push malloc s x m = do
  made ← malloc.new_node m
  st ← m.stacks s
  nodes1 ← update (store m.nodes made.0 (some made.1)) made.0 (λ n. record n { next = st.head })
  nodes2 ← update nodes1 made.0 (λ n. record n { value = x })
  stacks ← update m.stacks s (λ st. record st { head = made.0 })
  some (record { nodes = nodes2; stacks = stacks })

unfoldable pub pop : ℕ → Memory → Option (ℕ × Memory)
pop s m = do
  st ← m.stacks s
  node ← m.nodes st.head
  stacks ← update m.stacks s (λ c. record c { head = node.next })
  nodes ← release m.nodes st.head
  some (node.value, record { nodes = nodes; stacks = stacks })

-- The loop of `dispose`, on fuel.
unfoldable pub dispose_nodes : ℕ → ℕ → Heap Node → Option (Heap Node)
dispose_nodes zero n nodes = none
dispose_nodes (suc fuel) n nodes =
    let rest = dispose_nodes fuel in
    if n == 0
    then some nodes
    else (do node ← nodes n; nodes' ← release nodes n; rest node.next nodes')

unfoldable pub dispose : ℕ → ℕ → Memory → Option Memory
dispose fuel s m = do
  st ← m.stacks s
  nodes ← dispose_nodes fuel st.head m.nodes
  stacks ← release m.stacks s
  some (record { nodes = nodes; stacks = stacks })

-- The loop of `get_length`, on fuel; an `int` that overflows is a fault.
unfoldable pub count_nodes : ℕ → ℕ → ℕ → Heap Node → Option ℕ
count_nodes zero n r nodes = none
count_nodes (suc fuel) n r nodes =
    let rest = count_nodes fuel in
    if n == 0 then some r else (do
      assert (elim (r == max_int) [ true ↦ false | false ↦ true ])
      node ← nodes n
      rest node.next (suc r) nodes)

unfoldable pub get_length : ℕ → ℕ → Memory → Option ℕ
get_length fuel s m = do st ← m.stacks s; count_nodes fuel st.head 0 m.nodes
