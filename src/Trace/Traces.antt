-- ===== src/Trace/Traces.antt =====
-- The runs of the trace automaton (src/generic/trace.c) and the traces along a path.
use cyclist.Base.{
  ℕ, zero, suc, ◌+◌, ◌-◌, ◌≤◌, Bool, true, false, Memᴰ, ◌≡◌, ◌↔◌, ◌⊎◌, refl, ap, ◌∙◌, subst, inl,
  inr, at, ltb, if◌then◌else◌, Bool-cases, arith, ∥∥₁_map, contains_iff,
}
use mathlib.Core.Path.{subst₂}
use cyclist.Bdd.{BddLibrary, Valuation, Vertex, no_vertex, Sat, vertex_eq, vertex_beq_iff}
use cyclist.Proof.{Proof, Tag, quad_eq, trace_pair, progress_pair}
use cyclist.Proof.Invariant.{IsWellFormed}
use cyclist.Proof.Letters.{same_vertex}
use cyclist.Automaton.{Step, Run, Word, Accepts}
use cyclist.ProofAut.Paths.{Reads}
use cyclist.Trace.{TraceState, initial_state, quad_to, cond_of, trace_automaton}
use cyclist.Trace.Steps.{Step-initial, Step-known, marked, cond_of-known}

not-ltb : (i k : ℕ) → ltb i k ≡ false → k ≤ i
not-ltb i k h = ground arith

ltb-false : (i k : ℕ) → k ≤ i → ltb i k ≡ false
ltb-false i k h = ground arith

ltb-suc : (i k : ℕ) → ltb i k ≡ false → ltb (suc i) k ≡ false
ltb-suc i k h = ground arith

module _ ⦃B : BddLibrary⦄ where
  -- The path with a tag at each position.
  abbrev pub stand : (ℕ → Vertex) → (ℕ → Tag) → ℕ → TraceState
  stand path tags i = record { vertex = path i; tag = tags i }

  -- A trace along the path from position `from` on, with infinitely many progress points.
  pub record ProgressingTrace (p : Proof) (path : ℕ → Vertex) : Type 0 where
    pub from : ℕ
    pub tags : ℕ → Tag
    pub follows :
        (i : ℕ)
        → from ≤ i
        → trace_pair p (quad_to (stand path tags i) (stand path tags (suc i))) ≡ true
    pub progresses :
        (n : ℕ)
        → (i : ℕ) × (n ≤ i)
          × (from ≤ i)
          × (progress_pair p (quad_to (stand path tags i) (stand path tags (suc i))) ≡ true)

  module _ (p : Proof) (wf : IsWellFormed p) (w : Word) (path : ℕ → Vertex)
      (known : (i : ℕ) → Memᴰ (path i) p.vertices)
      (edge : (i : ℕ) → Memᴰ (path (suc i)) (at p.trans_map (path i))) (reads : Reads w path) where
    module _ (t : ProgressingTrace p path) where
      here : ℕ → TraceState
      here = stand path t.tags

      run_states : ℕ → TraceState
      unfolding here
      run_states zero = initial_state
      run_states (suc i) = if ltb i t.from then initial_state else here i

      reads_cond : (i : ℕ) → Sat (w i) (cond_of (here i))
      unfolding here
      reads_cond i = rw (cond_of-known p wf (here i) (known i)) (reads i)

      wait :
          (i : ℕ)
          → Step
              (trace_automaton p)
              initial_state
              initial_state
              (w i)
              (marked p initial_state initial_state)
      wait i =
          (Step-initial p wf initial_state (w i) _).1
            (inl refl, refl, rw ((vertex_beq_iff no_vertex no_vertex).1 refl) (B.eval-true (w i)))

      has_tag : (i : ℕ) → t.from ≤ i → Memᴰ (t.tags i) (at p.tag_map (path i))
      unfolding trace_pair
      has_tag i le = (wf.traces_tagged _ ((contains_iff ⦃e = quad_eq⦄ _ _).0 (t.follows i le))).0

      enter :
          (i : ℕ)
          → Step
              (trace_automaton p)
              initial_state
              (run_states (suc i))
              (w i)
              (marked p initial_state (run_states (suc i)))
      unfolding run_states here
      enter i = elim (Bool-cases (ltb i t.from)) [
        | inl before ↦ rw before (wait i)
        | inr after ↦ rw after (
            (Step-initial p wf (here i) (w i) _).1
              (inr (known i, has_tag i (not-ltb i t.from after)), refl, reads_cond i))
      ]

      go_on :
          (i : ℕ)
          → Step
              (trace_automaton p)
              (run_states (suc i))
              (run_states (suc (suc i)))
              (w (suc i))
              (marked p (run_states (suc i)) (run_states (suc (suc i))))
      unfolding run_states here
      go_on i = elim (Bool-cases (ltb i t.from)) [
        | inl before ↦ rw before (enter (suc i))
        | inr after ↦
            let le = not-ltb i t.from after in
            rw (after, ltb-suc i t.from after)
              ((Step-known p wf (here i) (here (suc i)) (w (suc i)) _ (known i)).1
                (edge i, t.follows i le, refl, reads (suc i)))
      ]

      Run-of_trace : Run (trace_automaton p) w
      unfolding run_states here
      Run-of_trace = record {
        states = run_states;
        marks = λ i. marked p (run_states i) (run_states (suc i));
        starts = refl;
        steps = elim [ zero ↦ enter 0 | suc i ↦ go_on i ];
        buchi = λ n.
            let (i, le, after, prog) = t.progresses n in
            let out = ltb-false i t.from after in
            (suc i, omega arith, rw (out, ltb-suc i t.from out) prog);
      }

    module _ (r : Run (trace_automaton p) w) where
      progress_known : (s x : TraceState) → marked p s x ≡ true → Memᴰ s.vertex p.vertices
      unfolding progress_pair
      progress_known s x m =
          (wf.tags_known _ _ (wf.progress_tagged _ ((contains_iff ⦃e = quad_eq⦄ _ _).0 m)).0).0

      Placed : TraceState → Type 0
      Placed s = (s ≡ initial_state) ⊎ Memᴰ s.vertex p.vertices

      Step-Placed :
          (s x : TraceState) (letter : Valuation) (m : Bool)
          → Placed s
          → Step (trace_automaton p) s x letter m
          → Placed x × (marked p s x ≡ m)
      unfolding Placed
      Step-Placed s x letter m (inl start) st =
          let st' = subst (λ s'. Step (trace_automaton p) s' x letter m) start st in
          let (k, a, _) = (Step-initial p wf x letter m).0 st' in
          (
            elim k [ inl again ↦ inl again | inr (v, _) ↦ inr v ],
            ap (λ s'. marked p s' x) start ∙ a,
          )
      Step-Placed s x letter m (inr v) st =
          let (e, _, a, _) = (Step-known p wf s x letter m v).0 st in
          (inr (wf.succs_known s.vertex x.vertex e).1, a)

      placed : (i : ℕ) → Placed (r.states i)
      unfolding Placed
      placed zero = inl r.starts
      placed (suc i) = (Step-Placed _ _ (w i) (r.marks i) (placed i) (r.steps i)).0

      mark : (i : ℕ) → marked p (r.states i) (r.states (suc i)) ≡ r.marks i
      mark i = (Step-Placed _ _ (w i) (r.marks i) (placed i) (r.steps i)).1

      -- The first progress point: from there on the run is at vertices.
      start : ℕ
      start = (r.buchi 0).0

      step_at :
          (i : ℕ)
          → Memᴰ (r.states i).vertex p.vertices
          → Memᴰ (r.states (suc i)).vertex (at p.trans_map (r.states i).vertex)
            × (trace_pair p (quad_to (r.states i) (r.states (suc i))) ≡ true)
            × (marked p (r.states i) (r.states (suc i)) ≡ r.marks i)
            × Sat (w i) (r.states (suc i)).vertex
      step_at i k =
          (Step-known p wf (r.states i) (r.states (suc i)) (w i) (r.marks i) k).0 (r.steps i)

      on_graph : (d : ℕ) → Memᴰ (r.states (d + start)).vertex p.vertices
      unfolding start
      on_graph zero =
          let (i, _, hit) = r.buchi 0 in
          subst (λ k. Memᴰ (r.states k).vertex p.vertices) (omega arith)
            (progress_known (r.states i) (r.states (suc i)) (mark i ∙ hit))
      on_graph (suc d) =
          subst (λ k. Memᴰ (r.states k).vertex p.vertices) (omega arith)
            (wf.succs_known _ _ (step_at (d + start) (on_graph d)).0).1

      on_graph_from : (i : ℕ) → start ≤ i → Memᴰ (r.states i).vertex p.vertices
      on_graph_from i le =
          subst (λ k. Memᴰ (r.states k).vertex p.vertices) (omega arith) (on_graph (i - start))

      -- There it is at the vertex that the path is at.
      in_step : (i : ℕ) → start ≤ i → (r.states (suc i)).vertex ≡ path i
      in_step i le =
          same_vertex p wf (w i) _ (path i) (on_graph_from (suc i) (omega arith)) (known i)
            (step_at i (on_graph_from i le)).3 (reads i)

      tag_at : ℕ → Tag
      tag_at i = (r.states (suc i)).tag

      same_state : (i : ℕ) → start ≤ i → r.states (suc i) ≡ stand path tag_at i
      unfolding tag_at
      same_state i le = λ j. record { vertex = in_step i le j; tag = (r.states (suc i)).tag }

      -- A statement on the states of the run, read on the path.
      on_path :
          (P : TraceState → TraceState → Type 0) (i : ℕ)
          → start ≤ i
          → P (r.states (suc i)) (r.states (suc (suc i)))
          → P (stand path tag_at i) (stand path tag_at (suc i))
      on_path P i le = subst₂ P (same_state i le) (same_state (suc i) (omega arith))

      progress_after :
          (n j : ℕ)
          → suc (n + start) ≤ j
          → r.marks j ≡ true
          → (i : ℕ) × (n ≤ i)
            × (start ≤ i)
            × (progress_pair p (quad_to (stand path tag_at i) (stand path tag_at (suc i))) ≡ true)
      progress_after n zero le hit = absurd (omega arith)
      progress_after n (suc i) le hit = (
        i,
        omega arith,
        omega arith,
        on_path (λ s x. marked p s x ≡ true) i (omega arith) (mark (suc i) ∙ hit),
      )

      trace_of_run : ProgressingTrace p path
      trace_of_run = record {
        from = start;
        tags = tag_at;
        follows = λ i le.
            on_path (λ s x. trace_pair p (quad_to s x) ≡ true) i le
              (step_at (suc i) (on_graph_from (suc i) (omega arith))).1;
        progresses = λ n. let (j, le, hit) = r.buchi (suc (n + start)) in progress_after n j le hit;
      }

    -- On a word that spells a path of the well-formed graph, the trace automaton accepts exactly
    -- when a trace along some tail of the path progresses infinitely often.
    pub trace_automaton_language : Accepts (trace_automaton p) w ↔ ∥ ProgressingTrace p path ∥₁
    trace_automaton_language = (λ r. ∥∥₁_map r trace_of_run, λ t. ∥∥₁_map t Run-of_trace)
