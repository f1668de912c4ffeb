-- ===== src/ProofAut/Steps.antt =====
-- The edges of the proof automaton (src/generic/proof_aut.hpp).
use cyclist.Base.{
  Bool, true, Option, some, List, [], ◌∷◌, Memᴰ, ◌≡◌, refl, sym, ap, ◌∙◌, subst, some_injective,
  ◌>>=◌, >>=-eq-some, length, Has, at, lookup-at, at-eq, lookup, arith,
}
use mathlib.Core.List.Memᴰ
use cyclist.Bdd.{BddLibrary, Valuation, Vertex, Sat, vertex_eq}
use cyclist.Proof.{Proof, Tag, get_tags_of_vertex, get_successors}
use cyclist.Proof.Invariant.{IsWellFormed}
use cyclist.Automaton.{Step, collect}
use cyclist.Automaton.Edges.{list_edges, mem-list_edges, list_edges-total}
use cyclist.ProofAut.{
  ProofAutState, ghost, state, ghost_iterator, succ_iterator, edges, proof_automaton,
}

module _ ⦃B : BddLibrary⦄ where
  -- The state at a vertex, with its tags.
  abbrev arrive : Proof → Vertex → Option ProofAutState
  arrive p u = get_tags_of_vertex p u >>= λ ts. some (state u ts)

  collect-succ_iterator :
      (p : Proof) (v : Vertex) (xs : List Vertex)
      → collect (succ_iterator p v) (length xs) xs ≡ list_edges (arrive p) (λ u. u) (λ _. true) xs
  unfolding collect succ_iterator list_edges
  collect-succ_iterator p v [] = refl
  collect-succ_iterator p v (x ∷ xs) = ground (arith, collect-succ_iterator p v xs)

  arrive-eq :
      (p : Proof) (u : Vertex) → Has p.tag_map u → arrive p u ≡ some (state u (at p.tag_map u))
  unfolding get_tags_of_vertex
  arrive-eq p u h = rw (lookup-at p.tag_map u h)

  arrive-inv :
      (p : Proof) (u : Vertex) {t : ProofAutState}
      → arrive p u ≡ some t
      → t ≡ state u (at p.tag_map u)
  unfolding get_tags_of_vertex
  arrive-inv p u h =
      let (ts, found, made) = >>=-eq-some (lookup u p.tag_map) _ h in
      let same = at-eq p.tag_map u found in cc

  edges-ghost :
      (p : Proof)
      → Has p.tag_map p.initial_vertex
      → edges p ghost
        ≡ some (
            record {
              dst = state p.initial_vertex (at p.tag_map p.initial_vertex);
              cond = p.initial_vertex;
              acc = true;
            }
            ∷ [])
  unfolding edges ghost_iterator collect
  edges-ghost p h = rw (arrive-eq p p.initial_vertex h)

  edges-state :
      (p : Proof) (v : Vertex) (ts : List Tag)
      → Has p.trans_map v
      → edges p (state v ts) ≡ list_edges (arrive p) (λ u. u) (λ _. true) (at p.trans_map v)
  unfolding edges succ_iterator get_successors lookup collect
  edges-state p v ts h =
      rw (lookup-at p.trans_map v h) (collect-succ_iterator p v (at p.trans_map v))

  module _ (p : Proof) (w : IsWellFormed p) where
    open w use {has_succs, has_tags, succs_known}

    pub Step-ghost :
        (s : Valuation)
        → Memᴰ p.initial_vertex p.vertices
        → Sat s p.initial_vertex
        → Step
            (proof_automaton p)
            ghost
            (state p.initial_vertex (at p.tag_map p.initial_vertex))
            s
            true
    Step-ghost s m sat = record {
      out = _;
      explored = edges-ghost p (has_tags _ m);
      cond = p.initial_vertex;
      edge = Memᴰ.head refl;
      reads = sat;
    }

    pub Step-ghost_inv :
        {t : ProofAutState} (s : Valuation) {m : Bool}
        → Memᴰ p.initial_vertex p.vertices
        → Step (proof_automaton p) ghost t s m
        → (t ≡ state p.initial_vertex (at p.tag_map p.initial_vertex)) × Sat s p.initial_vertex
    Step-ghost_inv s known st =
        let only = edges-ghost p (has_tags _ known) in
        let e =
          Memᴰ.eq_of_singleton (subst (Memᴰ _) (some_injective (sym st.explored ∙ only)) st.edge) in
        (ap (λ x. x.dst) e, rw (← ap (λ x. x.cond) e) st.reads)

    -- Every edge of the graph is an edge of the automaton ...
    pub Step-state :
        (s : Valuation) (v u : Vertex) (ts : List Tag)
        → Memᴰ u (at p.trans_map v)
        → Sat s u
        → Step (proof_automaton p) (state v ts) (state u (at p.tag_map u)) s true
    Step-state s v u ts m sat =
        let arrives = λ (x : Vertex) (k : Memᴰ x (at p.trans_map v)).
          let r : (d : ProofAutState) × (arrive p x ≡ some d) =
            (_, arrive-eq p x (has_tags x (succs_known v x k).1)) in
          r in
        let (es, made) =
          list_edges-total (arrive p) (λ u. u) (λ _. true) (at p.trans_map v) arrives in
        record {
          out = es;
          explored = edges-state p v ts (has_succs v (succs_known v u m).0) ∙ made;
          cond = u;
          edge =
              (mem-list_edges (arrive p) (λ u. u) (λ _. true) _ (at p.trans_map v) es made).1
                (u, m, ((arrives u m).1, refl, refl));
          reads = sat;
        }

    -- ... and the automaton has no other edges.
    pub Step-state_inv :
        {t : ProofAutState} (s : Valuation) (v : Vertex) (ts : List Tag) {m : Bool}
        → Memᴰ v p.vertices
        → Step (proof_automaton p) (state v ts) t s m
        → (u : Vertex) × Memᴰ u (at p.trans_map v) × (t ≡ state u (at p.tag_map u)) × Sat s u
    Step-state_inv s v ts known st =
        let made = sym (edges-state p v ts (has_succs v known)) ∙ st.explored in
        let (u, m, (d, c, _)) =
          (mem-list_edges (arrive p) (λ u. u) (λ _. true) _ (at p.trans_map v) st.out made).0
            st.edge in
        (u, m, arrive-inv p u d, rw c st.reads)
