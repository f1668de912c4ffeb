-- ===== src/Proof/Reachable.antt =====
-- The graphs that a client of class Proof can make: the constructor, then any calls.
use cyclist.Base.{ℕ, some, ◌≡◌}
use cyclist.Bdd.{BddLibrary, Vertex}
use cyclist.Proof.{
  Proof, Quad, Tag, new_proof, create_vertex, tag_vertex, set_initial_vertex, set_successor,
  set_trace_pair, set_progress_pair,
}
use cyclist.Proof.Invariant.{IsWellFormed}
use cyclist.Proof.Creation.{new_proof-IsWellFormed, create_vertex-IsWellFormed}
use cyclist.Proof.Filling.{
  tag_vertex-IsWellFormed, set_successor-IsWellFormed, set_initial_vertex-IsWellFormed,
}
use cyclist.Proof.Pairs.{set_trace_pair-IsWellFormed, set_progress_pair-IsWellFormed}

module _ ⦃B : BddLibrary⦄ where
  -- A call that returns.
  pub data Call (p q : Proof) : Type 0 where
    creates : (v : Vertex) → create_vertex p ≡ some (v, q) → Call p q
    tags : (v : Vertex) (t : Tag) → tag_vertex p v t ≡ some q → Call p q
    starts : (v : Vertex) → set_initial_vertex p v ≡ some q → Call p q
    joins : (u v : Vertex) → set_successor p u v ≡ some q → Call p q
    traces : (x : Quad) → set_trace_pair p x ≡ some q → Call p q
    progresses : (x : Quad) → set_progress_pair p x ≡ some q → Call p q

  pub data Reachable (k : ℕ) : Proof → Type 0 where
    constructed : {p : Proof} → p ≡ new_proof k → Reachable k p
    called : {p q : Proof} → Reachable k p → Call p q → Reachable k q

  Call-IsWellFormed : (p q : Proof) → Call p q → IsWellFormed p → IsWellFormed q
  Call-IsWellFormed p q (creates v h) w = (create_vertex-IsWellFormed p q v w h).0
  Call-IsWellFormed p q (tags v t h) w = tag_vertex-IsWellFormed p q v t w h
  Call-IsWellFormed p q (starts v h) w = set_initial_vertex-IsWellFormed p q v w h
  Call-IsWellFormed p q (joins u v h) w = set_successor-IsWellFormed p q u v w h
  Call-IsWellFormed p q (traces x h) w = set_trace_pair-IsWellFormed p q x w h
  Call-IsWellFormed p q (progresses x h) w = set_progress_pair-IsWellFormed p q x w h

  -- Every graph that the constructor and calls of the class make is well formed.
  pub Reachable-IsWellFormed : (k : ℕ) (p : Proof) → Reachable k p → IsWellFormed p
  Reachable-IsWellFormed k p (constructed e) = rw e (new_proof-IsWellFormed k)
  Reachable-IsWellFormed k p (called {p = before} r c) =
      Call-IsWellFormed before p c (Reachable-IsWellFormed k before r)
