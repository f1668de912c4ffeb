-- ===== src/Soundcheck/Reflects.antt =====
-- What the C++ side holds after some calls: the graph reflects the calls made.
use cyclist.Base.{
  ℕ, some_injective, sym, ap, ◌∙◌, subst, Option, some, List, [], ◌∷◌, Memᴰ, ◌≡◌, ◌≢◌, ◌↔◌, ◌⊎◌,
  inl, inr, at, lookup, nat_eq,
}
use cyclist.Bdd.{BddLibrary, Vertex, vertex_eq}
use cyclist.Proof.{Proof, Tag, Quad}
use cyclist.Proof.Invariant.{IsWellFormed}
use cyclist.Soundcheck.{
  Call, create_vertex, tag_vertex, set_successor, set_initial_vertex, set_trace_pair,
  set_progress_pair,
}

-- The vertex numbers that a call names.
abbrev pub ids : Call → List ℕ
ids (create_vertex i) = i ∷ []
ids (tag_vertex i t) = i ∷ []
ids (set_successor i j) = i ∷ j ∷ []
ids (set_initial_vertex i) = i ∷ []
ids (set_trace_pair i j k l) = i ∷ j ∷ []
ids (set_progress_pair i j k l) = i ∷ j ∷ []

-- The calls of `D`, and `c`.
abbrev pub Adds : Call → (Call → Type 0) → Call → Type 0
Adds c D x = (x ≡ c) ⊎ D x

pub lift {ℓ} : {A : Type ℓ} (D : Call → Type 0) (c x : Call) → x ≢ c → A ↔ D x → A ↔ Adds c D x
lift D c x other e = (λ a. inr (e.0 a), elim [ inl same ↦ absurd (other same) | inr d ↦ e.1 d ])

module _ ⦃B : BddLibrary⦄ where
  abbrev pub find : List (ℕ × Vertex) → ℕ → Option Vertex
  find m i = lookup ⦃e = nat_eq⦄ i m

  abbrev pub quad : Vertex → Vertex → Tag → Tag → Quad
  quad u v k l = record { source = u; target = v; source_tag = k; target_tag = l }

  -- `bdd_map` gives each number that a call named its own vertex, and each vertex has a number.
  pub record Names (D : Call → Type 0) (vertices : List Vertex) (m : List (ℕ × Vertex))
      : Type 0 where
    pub closed : (c : Call) (i : ℕ) → D c → Memᴰ i (ids c) → (v : Vertex) × (find m i ≡ some v)
    pub made : (i : ℕ) (v : Vertex) → find m i ≡ some v → D (create_vertex i)
    pub known : (i : ℕ) (v : Vertex) → find m i ≡ some v → Memᴰ v vertices
    pub injective : (i j : ℕ) (v : Vertex) → find m i ≡ some v → find m j ≡ some v → i ≡ j
    pub onto : (v : Vertex) → Memᴰ v vertices → (i : ℕ) × (find m i ≡ some v)

  -- The graph has the tags, edges and pairs of the calls made, and no others.
  pub record Contents (D : Call → Type 0) (p : Proof) (m : List (ℕ × Vertex)) : Type 0 where
    pub tags :
        (i : ℕ) (u : Vertex)
        → find m i ≡ some u
        → (t : Tag) → Memᴰ t (at p.tag_map u) ↔ D (tag_vertex i t)
    pub succs :
        (i j : ℕ) (u v : Vertex)
        → find m i ≡ some u
        → find m j ≡ some v
        → Memᴰ v (at p.trans_map u) ↔ D (set_successor i j)
    pub traces :
        (i j : ℕ) (u v : Vertex)
        → find m i ≡ some u
        → find m j ≡ some v
        → (k l : Tag) → Memᴰ (quad u v k l) p.trace_pairs ↔ D (set_trace_pair i j k l)
    pub progress :
        (i j : ℕ) (u v : Vertex)
        → find m i ≡ some u
        → find m j ≡ some v
        → (k l : Tag) → Memᴰ (quad u v k l) p.progress_pairs ↔ D (set_progress_pair i j k l)
    -- if one vertex only was made the initial one
    pub starts :
        (i : ℕ)
        → D (set_initial_vertex i)
        → ((j : ℕ) → D (set_initial_vertex j) → j ≡ i)
        → find m i ≡ some p.initial_vertex

  pub record Reflects (D : Call → Type 0) (p : Proof) (m : List (ℕ × Vertex)) : Type 0 where
    pub wf : IsWellFormed p
    pub names : Names D p.vertices m
    pub contents : Contents D p m

  pub same_vertex_iff :
      {D : Call → Type 0} {vertices : List Vertex} {m : List (ℕ × Vertex)}
      → Names D vertices m
      → (i j : ℕ) (u v : Vertex) → find m i ≡ some u
      → find m j ≡ some v
      → (u ≡ v) ↔ (i ≡ j)
  same_vertex_iff names i j u v e f = (
    λ same. names.injective i j v (rw (← same) e) f,
    λ same. some_injective (sym e ∙ ap (find _) same ∙ f),
  )

  pub add_call :
      {D : Call → Type 0} {vertices : List Vertex} {m : List (ℕ × Vertex)}
      → Names D vertices m
      → (c : Call) → ((i : ℕ) → Memᴰ i (ids c) → (v : Vertex) × (find m i ≡ some v))
      → Names (Adds c D) vertices m
  add_call names c found = record {
    closed = λ x i d k. elim d [
      | inl same ↦ found i (subst (λ y. Memᴰ i (ids y)) same k)
      | inr old ↦ names.closed x i old k
    ];
    made = λ i v e. inr (names.made i v e);
    known = names.known;
    injective = names.injective;
    onto = names.onto;
  }
