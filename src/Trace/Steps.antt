-- ===== src/Trace/Steps.antt =====
-- The edges of the trace automaton (src/generic/trace.c).
mod Vector
use cyclist.Base.{
  ℕ, Bool, true, false, not, ◌&&◌, Option, none, some, List, [], ◌∷◌, Memᴰ, ◌≡◌, ◌≢◌, ◌↔◌, ◌⊎◌,
  refl, sym, ap, ◌∙◌, subst, inl, inr, ◌>>=◌, ◌>>◌, some_injective, assert, length, contains_iff,
  Has, at, lookup-at, at-eq, lookup, arith, Bool-cases, if◌then◌else◌, ◌==◌,
}
use mathlib.Core.List.Memᴰ
use cyclist.Bdd.{
  BddLibrary, Valuation, Vertex, no_vertex, Sat, vertex_eq, vertex_beq, vertex_beq_iff,
}
use cyclist.Bdd.Cube.{test_bit}
use cyclist.Proof.{
  Proof, Tag, get_tags_of_vertex, get_successors, trace_pair, progress_pair, quad_eq,
}
use cyclist.Proof.Letters.{known-ne-no_vertex}
use cyclist.Proof.Invariant.{IsWellFormed}
use cyclist.Automaton.{Edge, Twa, Step, collect}
use cyclist.Automaton.Edges.{list_edges, mem-list_edges, list_edges-total}
use cyclist.Trace.{
  TraceState, initial_state, initial, quad_to, first, cond_of, succ_iterator, edges,
  trace_automaton, StateInfoVector, push_successors,
}
use Vector.{Allowed, Entry, mem-push_successors, push_successors-total}

module _ ⦃B : BddLibrary⦄ where
  not_initial :
      (p : Proof) → IsWellFormed p → (s : TraceState) → Memᴰ s.vertex p.vertices → initial s ≡ false
  unfolding initial
  not_initial p w s m = elim (Bool-cases (vertex_beq s.vertex no_vertex)) [
    | inl null ↦
        absurd (known-ne-no_vertex p w s.vertex m ((vertex_beq_iff s.vertex no_vertex).0 null))
    | inr other ↦ ground arith
  ]

  -- The condition of an edge to a vertex of the graph is the vertex.
  pub cond_of-known :
      (p : Proof)
      → IsWellFormed p
      → (s : TraceState) → Memᴰ s.vertex p.vertices
      → cond_of s ≡ s.vertex
  cond_of-known p w s m = elim (Bool-cases (vertex_beq s.vertex no_vertex)) [
    | inl null ↦
        absurd (known-ne-no_vertex p w s.vertex m ((vertex_beq_iff s.vertex no_vertex).0 null))
    | inr other ↦ rw other
  ]

  -- The mark of an edge.
  abbrev pub marked : Proof → TraceState → TraceState → Bool
  marked p s t = progress_pair p (quad_to s t)

  collect-succ_iterator :
      (p : Proof) (s : TraceState) (xs : StateInfoVector)
      → collect (succ_iterator p s) (length xs) xs
        ≡ list_edges (λ t. some t) cond_of (marked p s) xs
  unfolding collect succ_iterator list_edges
  collect-succ_iterator p s [] = refl
  collect-succ_iterator p s (x ∷ xs) = ground (arith, collect-succ_iterator p s xs)

  edges-eq :
      (p : Proof) (s : TraceState) (infos : StateInfoVector)
      → first p s [] ≡ some infos
      → edges p s ≡ list_edges (λ t. some t) cond_of (marked p s) infos
  unfolding edges succ_iterator collect
  edges-eq p s infos h = rw h (collect-succ_iterator p s infos)

  -- With the vector of `first` at hand, the edges are those to its entries.
  Step-entries :
      (p : Proof) (s : TraceState) (infos : StateInfoVector)
      → first p s [] ≡ some infos
      → (x : TraceState) (letter : Valuation) (m : Bool)
      → Step (trace_automaton p) s x letter m
        ↔ (Memᴰ x infos × (marked p s x ≡ m) × Sat letter (cond_of x))
  Step-entries p s infos h x letter m =
      let (es, made) =
        list_edges-total (λ t. some t) cond_of (marked p s) infos (λ y _. (y, refl)) in
      let explored = edges-eq p s infos h ∙ made in
      let mem = λ (c : Vertex).
        mem-list_edges (λ t. some t) cond_of (marked p s) (record { dst = x; cond = c; acc = m })
          infos es made in
      (
        λ st.
            let same : st.out ≡ es = some_injective (sym st.explored ∙ explored) in
            let (y, k, (d, c, a)) = (mem st.cond).0 (subst (Memᴰ _) same st.edge) in
            let y_x = some_injective d in (rw (← y_x) k, rw (← y_x) a, rw (← y_x, c) st.reads),
        λ (k, a, reads). record {
          out = es;
          explored = explored;
          cond = cond_of x;
          edge = (mem (cond_of x)).1 (x, k, (refl, refl, a));
          reads = reads;
        },
      )

  module _ (p : Proof) (w : IsWellFormed p) where
    first-known :
        (s : TraceState)
        → Memᴰ s.vertex p.vertices
        → (infos : StateInfoVector) × (first p s [] ≡ some infos)
          × ((x : TraceState) → Memᴰ x infos ↔ Entry p s (at p.trans_map s.vertex) x)
    unfolding first get_successors
    first-known s k =
        let vs = at p.trans_map s.vertex in
        let (infos, made) =
          push_successors-total p s vs [] (λ v m. w.has_tags v (w.succs_known s.vertex v m).1) in
        (
          infos,
          rw (not_initial p w s k, lookup-at p.trans_map s.vertex (w.has_succs s.vertex k)) made,
          λ x.
              let mem = mem-push_successors p s x vs [] infos made in
              (
                λ m. elim (mem.0 m) [ inl none_yet ↦ absurd (Memᴰ.not-nil none_yet) | inr e ↦ e ],
                λ e. mem.1 (inr e),
              ),
        )

    initial_state-initial : initial initial_state ≡ true
    unfolding initial
    initial_state-initial = ground (arith, vertex_beq_iff no_vertex no_vertex)

    first-initial :
        (infos : StateInfoVector) × (first p initial_state [] ≡ some infos)
        × ((x : TraceState)
            → Memᴰ x infos ↔ (
                (x ≡ initial_state)
                ⊎ (Memᴰ x.vertex p.vertices × Memᴰ x.tag (at p.tag_map x.vertex))))
    unfolding first
    first-initial =
        let start = initial_state ∷ [] in
        let (infos, made) = push_successors-total p initial_state p.vertices start w.has_tags in
        (
          infos,
          rw initial_state-initial made,
          λ x.
              let mem = mem-push_successors p initial_state x p.vertices start infos made in
              (
                λ m. elim (mem.0 m) [
                  | inl only ↦ inl (Memᴰ.eq_of_singleton only)
                  | inr (v, t, _) ↦ inr (v, t)
                ],
                elim [
                  | inl e ↦ mem.1 (inl (Memᴰ.head e))
                  | inr (v, t) ↦ mem.1 (inr (v, t, inl initial_state-initial))
                ],
              ),
        )

    traced :
        (s x : TraceState)
        → Memᴰ s.vertex p.vertices
        → Allowed p s x
        → trace_pair p (quad_to s x) ≡ true
    traced s x known (inl start) = cc (start, not_initial p w s known)
    traced s x known (inr pair) = pair

    pub tagged :
        (s x : TraceState) → trace_pair p (quad_to s x) ≡ true → Memᴰ x.tag (at p.tag_map x.vertex)
    unfolding trace_pair
    tagged s x pair = (w.traces_tagged _ ((contains_iff ⦃e = quad_eq⦄ _ _).0 pair)).1

    -- From the initial state: to itself, and to each vertex with each of its tags.
    pub Step-initial :
        (x : TraceState) (letter : Valuation) (m : Bool)
        → Step (trace_automaton p) initial_state x letter m ↔ (
            ((x ≡ initial_state) ⊎ (Memᴰ x.vertex p.vertices × Memᴰ x.tag (at p.tag_map x.vertex)))
            × (marked p initial_state x ≡ m)
            × Sat letter (cond_of x))
    Step-initial x letter m =
        let (infos, made, mem) = first-initial in
        let step = Step-entries p initial_state infos made x letter m in
        (
          λ st. let (k, a, reads) = step.0 st in ((mem x).0 k, a, reads),
          λ (k, a, reads). step.1 ((mem x).1 k, a, reads),
        )

    -- From a vertex and a tag: along an edge and a trace pair.
    pub Step-known :
        (s x : TraceState) (letter : Valuation) (m : Bool)
        → Memᴰ s.vertex p.vertices
        → Step (trace_automaton p) s x letter m ↔ (
            Memᴰ x.vertex (at p.trans_map s.vertex)
            × (trace_pair p (quad_to s x) ≡ true)
            × (marked p s x ≡ m)
            × Sat letter x.vertex)
    Step-known s x letter m known =
        let (infos, made, mem) = first-known s known in
        let step = Step-entries p s infos made x letter m in
        let cond = λ (e : Memᴰ x.vertex (at p.trans_map s.vertex)).
          cond_of-known p w x (w.succs_known s.vertex x.vertex e).1 in
        (
          λ st.
              let (k, a, reads) = step.0 st in
              let (e, _, allowed) = (mem x).0 k in
              (e, traced s x known allowed, a, rw (← cond e) reads),
          λ (e, pair, a, reads).
              step.1 ((mem x).1 (e, (tagged s x pair), inr pair), a, rw (cond e) reads),
        )
