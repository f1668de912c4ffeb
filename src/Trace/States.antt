-- ===== src/Trace/States.antt =====
-- The order of the states of the trace automaton (src/generic/trace.c).
use Prim.Native.Nat.{Ordering}
use cyclist.Base.{◌≡◌, ap, arith, ◌↔◌, true, ==_iff}
use cyclist.Bdd.{BddLibrary, no_vertex, vertex_beq_iff}
use cyclist.Proof.{no_tag}
use cyclist.ProofAut.States.{opposite}
use cyclist.Trace.{TraceState, initial_state, initial, compare_states}

module _ ⦃B : BddLibrary⦄ where
  pub initial_iff : (s : TraceState) → (initial s ≡ true) ↔ (s ≡ initial_state)
  unfolding initial
  initial_iff s = ground (arith, vertex_beq_iff s.vertex no_vertex, ==_iff s.tag no_tag)

  -- `compare` is antisymmetric.
  pub compare_states-swap : (s t : TraceState) → compare_states t s ≡ opposite (compare_states s t)
  unfolding compare_states
  compare_states-swap s t = ground arith

  -- `compare` on the states of the trace automaton is 0 exactly on equal states.
  pub compare_states-eq_iff : (s t : TraceState) → (compare_states s t ≡ Ordering.eq) ↔ (s ≡ t)
  unfolding compare_states
  compare_states-eq_iff s t = (
    λ h. ground (arith, initial_iff s, initial_iff t, B.id-injective s.vertex t.vertex),
    λ h.
        ground
          (arith, ap B.id (ap (λ x. x.vertex) h), ap (λ x. x.tag) h, initial_iff s, initial_iff t),
  )
