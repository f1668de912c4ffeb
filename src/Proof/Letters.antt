-- ===== src/Proof/Letters.antt =====
-- Letters and the vertices of a well-formed graph (src/generic/proof.c).
use cyclist.Base.{Memᴰ, ◌≡◌, ◌≢◌, some_injective, sym, ◌∙◌, subst, ap, arith}
use cyclist.Bdd.{BddLibrary, Valuation, Vertex, no_vertex, Sat}
use cyclist.Bdd.Cube.{test_bit}
use cyclist.Proof.{Proof, encode}
use cyclist.Proof.Vertices.{Numbered-letter, Numbered-disjoint}
use cyclist.Proof.Invariant.{IsWellFormed}

module _ ⦃B : BddLibrary⦄ where
  -- No vertex of the graph is the null vertex: some letter satisfies it.
  pub known-ne-no_vertex :
      (p : Proof) → IsWellFormed p → (v : Vertex) → Memᴰ v p.vertices → v ≢ no_vertex
  known-ne-no_vertex p w v m e =
      let (n, _, _, num) = w.numbered v m in
      let s = Numbered-letter p.max_vertices_log2 p.propositions w.props n v num in
      let sat = subst (Sat (test_bit n)) e s in cc (B.eval-false (test_bit n))

  -- In a well-formed graph, two vertices that one letter satisfies are equal.
  pub same_vertex :
      (p : Proof)
      → IsWellFormed p
      → (letter : Valuation) (u v : Vertex) → Memᴰ u p.vertices
      → Memᴰ v p.vertices
      → Sat letter u
      → Sat letter v
      → u ≡ v
  same_vertex p w letter u v mu mv su sv =
      let (a, _, la, na) = w.numbered u mu in
      let (b, _, lb, nb) = w.numbered v mv in
      let room = w.room in
      let same =
        Numbered-disjoint p.max_vertices_log2 p.propositions w.props a b u v letter na nb
          (omega arith) (omega arith) su sv in
      some_injective
        (sym na ∙ ap (λ n. encode p.max_vertices_log2 0 n p.propositions B.bddtrue) same ∙ nb)
