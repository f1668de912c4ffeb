-- ===== src/Soundness.antt =====
-- The functions that src/generic/soundness.c exports to OCaml, over its two static variables.
-- `none` is a failed assertion.
pub mod Condition
use cyclist.Base.{
  ℕ, Bool, true, false, not, Option, none, some, List, [], Eq, nat_eq, lookup, assign, ◌>>=◌, ◌>>◌,
  assert,
}
use cyclist.Bdd.{BddLibrary, Vertex}
use cyclist.Proof.{Proof, Tag, Quad, new_proof}
use cyclist.Proof
use cyclist.Automaton.{Twa}
use cyclist.ProofAut.{proof_automaton}
use cyclist.Trace.{trace_automaton}

module _ ⦃B : BddLibrary⦄ where
  -- What `check_soundness` calls of Spot.
  pub record SpotLibrary : Type 1 where
    pub make_twa_graph : Twa → Twa
    pub contains : Twa → Twa → Bool

  -- `proof` and `bdd_map`
  pub record Globals : Type 0 where
    pub proof : Option Proof
    pub bdd_map : List (ℕ × Vertex)

  abbrev pub initial_globals : Globals
  initial_globals = record { proof = none; bdd_map = [] }

  -- `assert(bdd_map.find(id) != bdd_map.end())`, and `bdd_map[id]`
  abbrev pub find_vertex : Globals → ℕ → Option Vertex
  find_vertex g id = lookup ⦃e = nat_eq⦄ id g.bdd_map

  unfoldable pub create_aut : ℕ → Globals → Option Globals
  create_aut max_log2_states g = do
    assert (elim g.proof [ none ↦ true | some _ ↦ false ])
    some (record g { proof = some (new_proof max_log2_states) })

  unfoldable pub destroy_aut : Globals → Option Globals
  destroy_aut g = do _ ← g.proof; some (record { proof = none; bdd_map = [] })

  unfoldable pub create_vertex : ℕ → Globals → Option Globals
  create_vertex id g = do
    p ← g.proof
    made ← Proof.create_vertex p
    assert (elim (find_vertex g id) [ none ↦ true | some _ ↦ false ])
    some (record { proof = some made.1; bdd_map = assign ⦃e = nat_eq⦄ id made.0 g.bdd_map })

  unfoldable pub tag_vertex : ℕ → Tag → Globals → Option Globals
  tag_vertex v t g = do
    p ← g.proof
    u ← find_vertex g v
    p' ← Proof.tag_vertex p u t
    some (record g { proof = some p' })

  unfoldable pub set_successor : ℕ → ℕ → Globals → Option Globals
  set_successor v1 v2 g = do
    p ← g.proof
    u1 ← find_vertex g v1
    u2 ← find_vertex g v2
    p' ← Proof.set_successor p u1 u2
    some (record g { proof = some p' })

  unfoldable pub set_trace_pair : ℕ → ℕ → Tag → Tag → Globals → Option Globals
  set_trace_pair v1 v2 t1 t2 g = do
    p ← g.proof
    u1 ← find_vertex g v1
    u2 ← find_vertex g v2
    p' ←
        Proof.set_trace_pair p
          (record { source = u1; target = u2; source_tag = t1; target_tag = t2 })
    some (record g { proof = some p' })

  unfoldable pub set_progress_pair : ℕ → ℕ → Tag → Tag → Globals → Option Globals
  set_progress_pair v1 v2 t1 t2 g = do
    p ← g.proof
    u1 ← find_vertex g v1
    u2 ← find_vertex g v2
    p' ←
        Proof.set_progress_pair p
          (record { source = u1; target = u2; source_tag = t1; target_tag = t2 })
    some (record g { proof = some p' })

  unfoldable pub set_initial_vertex : ℕ → Globals → Option Globals
  set_initial_vertex v g = do
    p ← g.proof
    u ← find_vertex g v
    p' ← Proof.set_initial_vertex p u
    some (record g { proof = some p' })

  -- A null `proof` is a fault.
  unfoldable pub check_soundness : SpotLibrary → Globals → Option Bool
  check_soundness spot g = do
    p ← g.proof
    let graph = spot.make_twa_graph (trace_automaton p)
    let prf = spot.make_twa_graph (proof_automaton p)
    some (spot.contains graph prf)
