-- ===== src/ProofAut/Paths.antt =====
-- The words of the proof automaton (src/generic/proof_aut.c) and the paths of the proof graph.
use cyclist.Base.{ℕ, zero, suc, true, Memᴰ, ◌≡◌, ◌↔◌, refl, ap, subst, at, arith, ∥∥₁_map}
use cyclist.Bdd.{BddLibrary, Vertex, no_vertex, Sat, vertex_eq}
use cyclist.Proof.{Proof}
use cyclist.Proof.Invariant.{IsWellFormed}
use cyclist.Automaton.{Step, Run, Word, Accepts}
use cyclist.ProofAut.{ProofAutState, ghost, state, proof_automaton}
use cyclist.ProofAut.Steps.{Step-ghost, Step-ghost_inv, Step-state, Step-state_inv}

module _ ⦃B : BddLibrary⦄ where
  -- An infinite path of the graph from its initial vertex.
  pub record IsPath (p : Proof) (path : ℕ → Vertex) : Type 0 where
    pub starts : path 0 ≡ p.initial_vertex
    pub follows : (i : ℕ) → Memᴰ (path (suc i)) (at p.trans_map (path i))

  -- Each letter satisfies the vertex at its position.
  abbrev pub Reads : Word → (ℕ → Vertex) → Type 0
  Reads w path = (i : ℕ) → Sat (w i) (path i)

  module _ (p : Proof) (wf : IsWellFormed p) (known : Memᴰ p.initial_vertex p.vertices) where
    pub path_known : (path : ℕ → Vertex) → IsPath p path → (i : ℕ) → Memᴰ (path i) p.vertices
    path_known path h zero = rw h.starts known
    path_known path h (suc i) = (wf.succs_known (path i) (path (suc i)) (h.follows i)).1

    abbrev run_states : (ℕ → Vertex) → ℕ → ProofAutState
    run_states path zero = ghost
    run_states path (suc i) = state (path i) (at p.tag_map (path i))

    Run-of_path :
        (w : Word) (path : ℕ → Vertex) → IsPath p path → Reads w path → Run (proof_automaton p) w
    Run-of_path w path h reads = record {
      states = run_states path;
      marks = λ i. true;
      starts = refl;
      steps = elim [
        | zero ↦ rw h.starts (Step-ghost p wf (w 0) known (rw (← h.starts) (reads 0)))
        | suc i ↦
            Step-state p wf (w (suc i)) (path i) (path (suc i)) _ (h.follows i) (reads (suc i))
      ];
      buchi = λ n. (n, omega arith, refl);
    }

    abbrev vertex_of : ProofAutState → Vertex
    vertex_of ghost = no_vertex
    vertex_of (state v ts) = v

    module _ (w : Word) (r : Run (proof_automaton p) w) where
      path : ℕ → Vertex
      path i = vertex_of (r.states (suc i))

      -- Where the run is after the letter `i`.
      record Follows (i : ℕ) : Type 0 where
        at_state : r.states (suc i) ≡ state (path i) (at p.tag_map (path i))
        is_known : Memᴰ (path i) p.vertices
        sat : Sat (w i) (path i)

      enter :
          (r.states 1 ≡ state p.initial_vertex (at p.tag_map p.initial_vertex))
          × Sat (w 0) p.initial_vertex
      enter = Step-ghost_inv p wf (w 0) known (
          subst (λ s. Step (proof_automaton p) s (r.states 1) (w 0) (r.marks 0)) r.starts
            (r.steps 0))

      leave :
          (i : ℕ)
          → Follows i
          → (u : Vertex) × Memᴰ u (at p.trans_map (path i))
            × (r.states (suc (suc i)) ≡ state u (at p.tag_map u))
            × Sat (w (suc i)) u
      leave i f = Step-state_inv p wf (w (suc i)) (path i) (at p.tag_map (path i)) f.is_known (
          subst
            (λ s. Step (proof_automaton p) s (r.states (suc (suc i))) (w (suc i)) (r.marks (suc i)))
            f.at_state (r.steps (suc i)))

      path-Follows : (i : ℕ) → Follows i
      unfolding path
      path-Follows zero =
          let (there, sat) = enter in
          let v = ap vertex_of there in
          record { at_state = rw v there; is_known = rw v known; sat = rw v sat }
      path-Follows (suc i) =
          let f = path-Follows i in
          let (u, m, there, sat) = leave i f in
          let v = ap vertex_of there in
          record {
            at_state = rw v there;
            is_known = rw v (wf.succs_known (path i) u m).1;
            sat = rw v sat;
          }

      path-IsPath : IsPath p path
      unfolding path
      path-IsPath = record {
        starts = ap vertex_of (enter).0;
        follows = λ i. let (u, m, there, _) = leave i (path-Follows i) in rw (ap vertex_of there) m;
      }

      IsPath-of_run : (π : ℕ → Vertex) × IsPath p π × Reads w π
      IsPath-of_run = (path, path-IsPath, λ i. (path-Follows i).sat)

    -- The proof automaton of a well-formed graph with an initial vertex accepts a word exactly
    -- when the word spells an infinite path from the initial vertex.
    pub proof_automaton_language :
        (w : Word)
        → Accepts (proof_automaton p) w ↔ ∥ ((path : ℕ → Vertex) × IsPath p path × Reads w path) ∥₁
    proof_automaton_language w = (
      λ r. ∥∥₁_map r (IsPath-of_run w),
      λ h. ∥∥₁_map h (λ (path, is_path, reads). Run-of_path w path is_path reads),
    )
