-- ===== src/Soundness/Condition.antt =====
-- `check_soundness` (src/generic/soundness.c) and the global trace condition on the graph.
use cyclist.Base.{ℕ, Bool, true, some, Memᴰ, ◌≡◌, ◌↔◌, ∥∥₁_elim}
use cyclist.Bdd.{BddLibrary, Vertex, vertex_eq}
use cyclist.Bdd.Cube.{test_bit}
use cyclist.Proof.{Proof}
use cyclist.Proof.Vertices.{Numbered-letter}
use cyclist.Proof.Invariant.{IsWellFormed}
use cyclist.Automaton.{Twa, Word, Accepts}
use cyclist.ProofAut.{proof_automaton}
use cyclist.ProofAut.Paths.{IsPath, Reads, path_known, proof_automaton_language}
use cyclist.Trace.{trace_automaton}
use cyclist.Trace.Traces.{ProgressingTrace, trace_automaton_language}
use cyclist.Soundness.{SpotLibrary, Globals, check_soundness}

module _ ⦃B : BddLibrary⦄ where
  -- The global trace condition: along each infinite path from the initial vertex some trace
  -- progresses infinitely often.
  abbrev pub GlobalTrace : Proof → Type 0
  GlobalTrace p = (path : ℕ → Vertex) → IsPath p path → ∥ ProgressingTrace p path ∥₁

  -- Each word of `right` is a word of `left`.
  abbrev pub Includes : Twa → Twa → Type 0
  Includes left right = (w : Word) → Accepts right w → Accepts left w

  module _ (p : Proof) (wf : IsWellFormed p) (known : Memᴰ p.initial_vertex p.vertices) where
    -- A word that spells the path.
    letters : (path : ℕ → Vertex) → IsPath p path → Word
    letters path is_path i =
        test_bit (wf.numbered (path i) (path_known p wf known path is_path i)).0

    letters-Reads :
        (path : ℕ → Vertex) (is_path : IsPath p path) → Reads (letters path is_path) path
    unfolding letters
    letters-Reads path is_path i =
        let (n, _, _, num) = wf.numbered (path i) (path_known p wf known path is_path i) in
        Numbered-letter p.max_vertices_log2 p.propositions wf.props n (path i) num

    pub inclusion_iff : Includes (trace_automaton p) (proof_automaton p) ↔ GlobalTrace p
    inclusion_iff = (
      λ includes path is_path.
          let w = letters path is_path in
          let reads = letters-Reads path is_path in
          (trace_automaton_language p wf w path (path_known p wf known path is_path) is_path.follows
              reads).0
            (includes w ((proof_automaton_language p wf known w).1 ∣ (path, is_path, reads) ∣₁)),
      λ condition w accepted.
          ∥∥₁_elim ((proof_automaton_language p wf known w).0 accepted) squash₁
            λ (path, is_path, reads).
              (trace_automaton_language p wf w path (path_known p wf known path is_path)
                  is_path.follows reads).1
                (condition path is_path),
    )

  -- `make_twa_graph` keeps the language, as Spot documents it.
  abbrev pub KeepsLanguage : SpotLibrary → Type 1
  KeepsLanguage spot = (T : Twa) (w : Word) → Accepts (spot.make_twa_graph T) w ↔ Accepts T w

  -- `contains` decides inclusion for the two automata, as Spot documents it.
  abbrev pub Decides : SpotLibrary → Twa → Twa → Type 0
  Decides spot left right = (spot.contains left right ≡ true) ↔ Includes left right

  -- With a well-formed graph that has an initial vertex, and with Spot as documented,
  -- `check_soundness` returns, and returns true exactly when the global trace condition holds.
  pub check_soundness_iff :
      (spot : SpotLibrary) (g : Globals) (p : Proof)
      → g.proof ≡ some p
      → IsWellFormed p
      → Memᴰ p.initial_vertex p.vertices
      → KeepsLanguage spot
      → Decides spot
          (spot.make_twa_graph (trace_automaton p))
          (spot.make_twa_graph (proof_automaton p))
      → (b : Bool) × (check_soundness spot g ≡ some b) × ((b ≡ true) ↔ GlobalTrace p)
  unfolding check_soundness
  check_soundness_iff spot g p e wf known keeps decides =
      let condition = inclusion_iff p wf known in
      (
        spot.contains (spot.make_twa_graph (trace_automaton p))
            (spot.make_twa_graph (proof_automaton p)),
        rw e,
        (
          λ yes'. condition.0 λ w acc.
              (keeps (trace_automaton p) w).0
                (decides.0 yes' w ((keeps (proof_automaton p) w).1 acc)),
          λ holds. decides.1 λ w acc.
              (keeps (trace_automaton p) w).1
                (condition.1 holds w ((keeps (proof_automaton p) w).0 acc)),
        ),
      )
