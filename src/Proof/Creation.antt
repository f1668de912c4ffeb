-- ===== src/Proof/Creation.antt =====
-- The constructor and `create_vertex` (src/generic/proof.c), and the invariant.
use cyclist.Base.{
  ℕ, zero, suc, ◌+◌, ◌*◌, ◌/◌, ◌^◌, ◌≤◌, ◌<◌, ◌==◌, true, false, none, some, ◌≡◌, sym, inl, inr,
  refl, arith, mem-insert, Memᴰ, at, at-touch, Has-touch, insert, touch, get_elem?, lookup,
  Bool-cases, ==_iff, assign, some_injective, subst, ap, ◌∙◌,
}
use mathlib.Core.List.Memᴰ
use native.Mathlib.Nat.{div-eq_of_lt}
use native.Mathlib.Decide.{dec_lt}
use cyclist.Bdd.{BddLibrary, Vertex, vertex_eq}
use cyclist.Bdd.Cube.{test_bit}
use cyclist.Proof.{Proof, Quad, new_proof, get_props, create_vertex, to_decimal}
use cyclist.Proof.Vertices.{Numbered, Numbered-total, Numbered-disjoint, Numbered-letter}
use cyclist.Proof.Invariant.{IsTagged, IsWellFormed}

pow_pos : (k : ℕ) → 0 < 2 ^ k
pow_pos zero = omega arith
pow_pos (suc k) = omega (arith, pow_pos k)

shift_zero : (a k : ℕ) → a < 2 ^ k → (a / 2 ^ k == 0) ≡ true
shift_zero a k h = (==_iff _ _).1 (div-eq_of_lt h)

shift_full : (a k : ℕ) → 2 ^ k ≤ a → (a / 2 ^ k == 0) ≡ false
shift_full a k h = elim (Bool-cases (a / 2 ^ k == 0)) [
  | inl zero' ↦
      let none_left = (==_iff (a / 2 ^ k) 0).0 zero' in
      absurd (omega (arith, none_left, ap (λ (t : ℕ). 2 ^ k * t) none_left, pow_pos k))
  | inr other ↦ other
]

module _ ⦃B : BddLibrary⦄ where
  get_props-lem : (n i j : ℕ) → j < n → get_elem? (get_props n i) j ≡ some (B.get_prop (i + j))
  unfolding get_props
  get_props-lem zero i j lt = elim lt [ ]
  get_props-lem (suc n) i zero lt = ap (λ k. some (B.get_prop k)) (omega arith)
  get_props-lem (suc n) i (suc j) lt =
      get_props-lem n (suc i) j (omega arith) ∙ ap (λ k. some (B.get_prop k)) (omega arith)

  pub new_proof-IsWellFormed : (k : ℕ) → IsWellFormed (new_proof k)
  unfolding new_proof at lookup
  new_proof-IsWellFormed k = record {
    props = λ j lt. get_props-lem k 0 j lt ∙ ap (λ i. some (B.get_prop i)) (omega arith);
    room = pow_pos k;
    numbered = λ v m. absurd (Memᴰ.not-nil m);
    has_succs = λ v m. absurd (Memᴰ.not-nil m);
    has_tags = λ v m. absurd (Memᴰ.not-nil m);
    succs_known = λ v u m. absurd (Memᴰ.not-nil m);
    tags_known = λ v t m. absurd (Memᴰ.not-nil m);
    traces_tagged = λ q m. absurd (Memᴰ.not-nil m);
    progress_tagged = λ q m. absurd (Memᴰ.not-nil m);
    initial_known = inl refl;
  }

  -- The number of the next vertex is not that of an older one.
  fresh :
      (p : Proof) (v : Vertex)
      → IsWellFormed p
      → p.last_vertex + 1 < 2 ^ p.max_vertices_log2
      → Numbered p.max_vertices_log2 p.propositions (p.last_vertex + 1) v
      → ¬ Memᴰ v p.vertices
  fresh p v w room e m =
      let (n, _, le, old) = w.numbered v m in
      let s = Numbered-letter p.max_vertices_log2 p.propositions w.props n v old in
      let same =
        Numbered-disjoint p.max_vertices_log2 p.propositions w.props n (p.last_vertex + 1) v v
          (test_bit n) old e (omega arith) room s s in
      absurd (omega arith)

  abbrev pub with_vertex : Proof → Vertex → Proof
  with_vertex p v = record p {
    last_vertex = p.last_vertex + 1;
    vertices = insert v p.vertices;
    tag_map = touch v p.tag_map;
    trans_map = touch v p.trans_map;
    vertex_names = assign v (to_decimal (p.last_vertex + 1)) p.vertex_names;
  }

  with_vertex-IsWellFormed :
      (p : Proof) (v : Vertex)
      → IsWellFormed p
      → p.last_vertex + 1 < 2 ^ p.max_vertices_log2
      → Numbered p.max_vertices_log2 p.propositions (p.last_vertex + 1) v
      → IsWellFormed (with_vertex p v)
  with_vertex-IsWellFormed p v w room e =
      let mem = λ (u : Vertex). mem-insert u v p.vertices in
      let keep = λ (x : Quad) (k : IsTagged p x).
        let k' : IsTagged (with_vertex p v) x =
          (rw (at-touch x.source v p.tag_map) k.0, rw (at-touch x.target v p.tag_map) k.1) in
        k' in
      record {
        props = w.props;
        room = room;
        numbered = λ u m. elim ((mem u).0 m) [
          | inl new ↦ (p.last_vertex + 1, omega arith, omega arith, rw new e)
          | inr old ↦ let (n, ge, le, num) = w.numbered u old in (n, ge, omega arith, num)
        ];
        has_succs = λ u m.
            Has-touch u v p.trans_map
              (elim ((mem u).0 m) [ inl new ↦ inl new | inr old ↦ inr (w.has_succs u old) ]);
        has_tags = λ u m.
            Has-touch u v p.tag_map
              (elim ((mem u).0 m) [ inl new ↦ inl new | inr old ↦ inr (w.has_tags u old) ]);
        succs_known = λ u x m.
            let (a, b) = w.succs_known u x (rw (← at-touch u v p.trans_map) m) in
            ((mem u).1 (inr a), (mem x).1 (inr b));
        tags_known = λ u t m.
            let (a, b) = w.tags_known u t (rw (← at-touch u v p.tag_map) m) in
            ((mem u).1 (inr a), b);
        traces_tagged = λ x m. keep x (w.traces_tagged x m);
        progress_tagged = λ x m. keep x (w.progress_tagged x m);
        initial_known = elim w.initial_known [
          | inl none_yet ↦ inl none_yet
          | inr m ↦ inr ((mem _).1 (inr m))
        ];
      }

  -- While the next number is below two to the power of the number of propositions, `create_vertex`
  -- on a well-formed graph returns a vertex that spells this number and is not yet in the graph,
  -- and the graph stays well formed.
  pub create_vertex_lem :
      (p : Proof)
      → IsWellFormed p
      → p.last_vertex + 1 < 2 ^ p.max_vertices_log2
      → (v : Vertex) × (create_vertex p ≡ some (v, with_vertex p v))
        × Numbered p.max_vertices_log2 p.propositions (p.last_vertex + 1) v
        × (¬ Memᴰ v p.vertices)
        × IsWellFormed (with_vertex p v)
  unfolding create_vertex
  create_vertex_lem p w room =
      let (v, e) = Numbered-total p.max_vertices_log2 p.propositions w.props (p.last_vertex + 1) in
      (v, rw (shift_zero _ _ room, e), e, fresh p v w room e, with_vertex-IsWellFormed p v w room e)

  create_vertex_full :
      (p : Proof) → 2 ^ p.max_vertices_log2 ≤ p.last_vertex + 1 → create_vertex p ≡ none
  unfolding create_vertex
  create_vertex_full p h = rw (shift_full _ _ h)

  -- Whenever `create_vertex` succeeds, the graph stays well formed.
  pub create_vertex-IsWellFormed :
      (p q : Proof) (v : Vertex)
      → IsWellFormed p
      → create_vertex p ≡ some (v, q)
      → IsWellFormed q × Memᴰ v q.vertices × (¬ Memᴰ v p.vertices)
  create_vertex-IsWellFormed p q v w h =
      elim (dec_lt (p.last_vertex + 1) (2 ^ p.max_vertices_log2)) [
        | yes room ↦
            let (u, made, _, new, w') = create_vertex_lem p w room in
            let same : some (u, with_vertex p u) ≡ some (v, q) = sym made ∙ h in
            let e = some_injective same in
            let e_u : u ≡ v = ap (λ x. x.0) e in
            let e_q : with_vertex p u ≡ q = ap (λ x. x.1) e in
            (
              subst IsWellFormed e_q w',
              subst (λ r. Memᴰ v r.vertices) e_q ((mem-insert v u p.vertices).1 (inl (sym e_u))),
              subst (λ x. ¬ Memᴰ x p.vertices) e_u new,
            )
        | no full ↦ cc (h, create_vertex_full p (omega arith))
      ]
