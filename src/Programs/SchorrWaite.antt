-- ===== src/Programs/SchorrWaite.antt =====
-- The marking of a tree in benchmarks/slmc/programs/schorr_waite.c, which keeps its way back in
-- the tree's own pointers.
pub mod Shapes
mod Steps
pub mod Marks
use cyclist.Base.{
  ℕ, zero, suc, Bool, true, false, not, Option, none, some, ◌>>=◌, if◌then◌else◌, ◌==◌,
}
use cyclist.Programs.Heap.{Heap, update}

-- `struct node`
pub record Node : Type 0 where
  pub m : Bool
  pub c : Bool
  pub l : ℕ
  pub r : ℕ

-- The memory with the variables `t` and `p`.
pub record State : Type 0 where
  pub heap : Heap Node
  pub t : ℕ
  pub p : ℕ

-- `t == 0 || t->m`
unfoldable pub settled : State → Option Bool
settled s = if s.t == 0 then some true else (do n ← s.heap s.t; some n.m)

-- `p != 0 || (t != 0 && ! (t->m))`
unfoldable pub goes_on : State → Option Bool
goes_on s = if s.p == 0 then (do back ← settled s; some (not back)) else some true

-- The branch `pop`.
unfoldable pub pop_node : State → Option State
pop_node s = do
  n ← s.heap s.p
  h ← update s.heap s.p (λ x. record x { r = s.t })
  some (record { heap = h; t = s.p; p = n.r })

-- The branch `swing`.
unfoldable pub swing : State → Option State
swing s = do
  n ← s.heap s.p
  h1 ← update s.heap s.p (λ x. record x { r = x.l })
  h2 ← update h1 s.p (λ x. record x { l = s.t })
  h3 ← update h2 s.p (λ x. record x { c = true })
  some (record { heap = h3; t = n.r; p = s.p })

-- The branch `push`.
unfoldable pub push_node : State → Option State
push_node s = do
  n ← s.heap s.t
  h1 ← update s.heap s.t (λ x. record x { l = s.p })
  h2 ← update h1 s.t (λ x. record x { m = true })
  h3 ← update h2 s.t (λ x. record x { c = false })
  some (record { heap = h3; t = n.l; p = s.t })

-- The body of the loop.
unfoldable pub body : State → Option State
body s = do
  back ← settled s
  if back then (do n ← s.heap s.p; if n.c then pop_node s else swing s) else push_node s

-- The loop, on fuel.
unfoldable pub loop : ℕ → State → Option State
loop zero s = none
loop (suc fuel) s =
    let rest = loop fuel in (do go ← goes_on s; if go then body s >>= rest else some s)

unfoldable pub schorr_waite : ℕ → ℕ → Heap Node → Option (Heap Node)
schorr_waite fuel root h = do s ← loop fuel (record { heap = h; t = root; p = 0 }); some s.heap
