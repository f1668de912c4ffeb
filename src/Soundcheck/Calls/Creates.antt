-- ===== src/Soundcheck/Calls/Creates.antt =====
-- The call that creates a vertex.
use cyclist.Base.{
  ℕ, none, some, List, Memᴰ, ◌≡◌, ◌≢◌, ◌↔◌, ◌⊎◌, ◌==◌, ==_iff, inl, inr, nat_eq, assign,
  lookup-assign, insert, mem-insert, at-touch, refl, sym, ap, ◌∙◌, subst, Bool-cases,
  some_injective,
}
use mathlib.Core.List.Memᴰ
use cyclist.Bdd.{BddLibrary, Vertex, vertex_eq}
use cyclist.Proof.{Proof, Quad}
use cyclist.Proof.Invariant.{IsWellFormed, IsTagged}
use cyclist.Proof.Creation.{with_vertex}
use cyclist.Soundcheck.{
  Call, create_vertex, tag_vertex, set_successor, set_trace_pair, set_progress_pair,
}
use cyclist.Soundcheck.Reflects.{ids, Adds, lift, find, quad, Names, Contents, Reflects}

module _ ⦃B : BddLibrary⦄ {D : Call → Type 0} (p : Proof) (m : List (ℕ × Vertex)) (i : ℕ)
    (v : Vertex) (old : Reflects D p m) (unused : find m i ≡ none) (new : ¬ Memᴰ v p.vertices) where
  open old use {wf, names, contents}

  abbrev pub renamed : List (ℕ × Vertex)
  renamed = assign ⦃e = nat_eq⦄ i v m

  find_cases :
      (j : ℕ) (w : Vertex)
      → find renamed j ≡ some w
      → ((j ≡ i) × (w ≡ v)) ⊎ ((j ≢ i) × (find m j ≡ some w))
  find_cases j w h = elim (Bool-cases (j == i)) [
    | inl same ↦ inl (
      (==_iff j i).0 same,
      sym (some_injective (sym (lookup-assign ⦃e = nat_eq⦄ j i v m ∙ rw same) ∙ h)),
    )
    | inr other ↦
        inr (
          λ e. cc (other, (==_iff j i).1 e),
          sym (lookup-assign ⦃e = nat_eq⦄ j i v m ∙ rw other) ∙ h,
        )
  ]

  find_here : find renamed i ≡ some v
  find_here = lookup-assign ⦃e = nat_eq⦄ i i v m ∙ rw ((==_iff i i).1 refl)

  find_there : (j : ℕ) (w : Vertex) → find m j ≡ some w → find renamed j ≡ some w
  find_there j w h = elim (Bool-cases (j == i)) [
    | inl same ↦ cc (unused, ap (find m) ((==_iff j i).0 same))
    | inr other ↦ (lookup-assign ⦃e = nat_eq⦄ j i v m ∙ rw other) ∙ h
  ]

  create-Names : Names (Adds (create_vertex i) D) (insert v p.vertices) renamed
  create-Names = record {
    closed = λ c j d k. elim d [
      | inl same ↦
          let j_i = Memᴰ.eq_of_singleton (subst (λ x. Memᴰ j (ids x)) same k) in
          (v, rw j_i find_here)
      | inr d' ↦ let (w, e) = names.closed c j d' k in (w, find_there j w e)
    ];
    made = λ j w e. elim (find_cases j w e) [
      | inl (j_i, _) ↦ inl (ap create_vertex j_i)
      | inr (_, e') ↦ inr (names.made j w e')
    ];
    known = λ j w e. (mem-insert w v p.vertices).1 (elim (find_cases j w e) [
      | inl (_, w_v) ↦ inl w_v
      | inr (_, e') ↦ inr (names.known j w e')
    ]);
    injective = λ j k w e f. elim (find_cases j w e) [
      | inl (j_i, w_v) ↦ elim (find_cases k w f) [
        | inl (k_i, _) ↦ j_i ∙ sym k_i
        | inr (_, f') ↦ absurd (new (subst (λ x. Memᴰ x p.vertices) w_v (names.known k w f')))
      ]
      | inr (_, e') ↦ elim (find_cases k w f) [
        | inl (_, w_v) ↦ absurd (new (subst (λ x. Memᴰ x p.vertices) w_v (names.known j w e')))
        | inr (_, f') ↦ names.injective j k w e' f'
      ]
    ];
    onto = λ w k. elim ((mem-insert w v p.vertices).0 k) [
      | inl w_v ↦ (i, rw w_v find_here)
      | inr k' ↦ let (j, e) = names.onto w k' in (j, find_there j w e)
    ];
  }

  -- No call has named the new number ...
  unnamed : (c : Call) (j : ℕ) → j ≡ i → Memᴰ j (ids c) → ¬ D c
  unnamed c j j_i k d = let (w, e) = names.closed c j d k in cc (unused, ap (find m) j_i, e)

  not_new : (w : Vertex) → w ≡ v → ¬ Memᴰ w p.vertices
  not_new w w_v k = new (subst (λ x. Memᴰ x p.vertices) w_v k)

  -- A statement on two vertices of the graph that a call makes true needs a look at old numbers
  -- only.
  old_pairs :
      {X : Type 0} (c : Call) (j k : ℕ) (w x : Vertex)
      → find renamed j ≡ some w
      → find renamed k ≡ some x
      → Memᴰ j (ids c)
      → Memᴰ k (ids c)
      → (X → Memᴰ w p.vertices × Memᴰ x p.vertices)
      → (find m j ≡ some w → find m k ≡ some x → X ↔ D c)
      → X ↔ D c
  old_pairs c j k w x e f j_c k_c on_graph same = elim (find_cases j w e) [
    | inl (j_i, w_v) ↦
        (λ a. absurd (not_new w w_v (on_graph a).0), λ d. absurd (unnamed c j j_i j_c d))
    | inr (_, e') ↦ elim (find_cases k x f) [
      | inl (k_i, x_v) ↦
          (λ a. absurd (not_new x x_v (on_graph a).1), λ d. absurd (unnamed c k k_i k_c d))
      | inr (_, f') ↦ same e' f'
    ]
  ]

  on_graph : (q : Quad) → IsTagged p q → Memᴰ q.source p.vertices × Memᴰ q.target p.vertices
  on_graph q (s, t) =
      ((wf.tags_known q.source q.source_tag s).0, (wf.tags_known q.target q.target_tag t).0)

  -- ... and nothing in the graph is about the new vertex.
  create-Contents : Contents (Adds (create_vertex i) D) (with_vertex p v) renamed
  create-Contents = record {
    tags = λ j w e t.
        lift D (create_vertex i) (tag_vertex j t) (λ h. cc h)
          (rw (at-touch w v p.tag_map) (
            old_pairs (tag_vertex j t) j j w w e e (Memᴰ.head refl) (Memᴰ.head refl)
              (λ k. let known = (wf.tags_known w t k).0 in (known, known))
              (λ e' _. contents.tags j w e' t)));
    succs = λ j k w x e f.
        lift D (create_vertex i) (set_successor j k) (λ h. cc h)
          (rw (at-touch w v p.trans_map) (
            old_pairs (set_successor j k) j k w x e f (Memᴰ.head refl) (Memᴰ.tail (Memᴰ.head refl))
              (wf.succs_known w x) (contents.succs j k w x)));
    traces = λ j k w x e f s t.
        lift D (create_vertex i) (set_trace_pair j k s t) (λ h. cc h)
          (old_pairs (set_trace_pair j k s t) j k w x e f (Memᴰ.head refl)
            (Memᴰ.tail (Memᴰ.head refl)) (λ q. on_graph (quad w x s t) (wf.traces_tagged _ q))
            (λ e' f'. contents.traces j k w x e' f' s t));
    progress = λ j k w x e f s t.
        lift D (create_vertex i) (set_progress_pair j k s t) (λ h. cc h)
          (old_pairs (set_progress_pair j k s t) j k w x e f (Memᴰ.head refl)
            (Memᴰ.tail (Memᴰ.head refl)) (λ q. on_graph (quad w x s t) (wf.progress_tagged _ q))
            (λ e' f'. contents.progress j k w x e' f' s t));
    starts = λ j d one. elim d [
      | inl same ↦ cc same
      | inr d' ↦ find_there j p.initial_vertex (contents.starts j d' (λ k h. one k (inr h)))
    ];
  }

  pub create-Reflects :
      IsWellFormed (with_vertex p v) → Reflects (Adds (create_vertex i) D) (with_vertex p v) renamed
  create-Reflects wf' = record { wf = wf'; names = create-Names; contents = create-Contents }
