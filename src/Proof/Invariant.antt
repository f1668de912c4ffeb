-- ===== src/Proof/Invariant.antt =====
-- When a proof graph is well formed (class Proof of src/generic/proof.c).
use cyclist.Base.{ℕ, ◌^◌, ◌≤◌, ◌<◌, ◌≡◌, ◌⊎◌, Memᴰ, Has, at}
use cyclist.Bdd.{BddLibrary, Vertex, no_vertex, vertex_eq}
use cyclist.Proof.{Proof, Quad, Tag}
use cyclist.Proof.Vertices.{Holds, Numbered}

module _ ⦃B : BddLibrary⦄ where
  -- Both tags of the pair are tags of their vertices.
  abbrev pub IsTagged : Proof → Quad → Type 0
  IsTagged p q =
      Memᴰ q.source_tag (at p.tag_map q.source) × Memᴰ q.target_tag (at p.tag_map q.target)

  pub record IsWellFormed (p : Proof) : Type 0 where
    pub props : Holds p.max_vertices_log2 p.propositions
    pub room : p.last_vertex < 2 ^ p.max_vertices_log2
    pub numbered :
        (v : Vertex)
        → Memᴰ v p.vertices
        → (n : ℕ) × (1 ≤ n) × (n ≤ p.last_vertex) × Numbered p.max_vertices_log2 p.propositions n v
    pub has_succs : (v : Vertex) → Memᴰ v p.vertices → Has p.trans_map v
    pub has_tags : (v : Vertex) → Memᴰ v p.vertices → Has p.tag_map v
    pub succs_known :
        (v u : Vertex) → Memᴰ u (at p.trans_map v) → Memᴰ v p.vertices × Memᴰ u p.vertices
    pub tags_known :
        (v : Vertex) (t : Tag) → Memᴰ t (at p.tag_map v) → Memᴰ v p.vertices × (t ≤ p.max_tag)
    pub traces_tagged : (q : Quad) → Memᴰ q p.trace_pairs → IsTagged p q
    pub progress_tagged : (q : Quad) → Memᴰ q p.progress_pairs → IsTagged p q
    pub initial_known : (p.initial_vertex ≡ no_vertex) ⊎ Memᴰ p.initial_vertex p.vertices
