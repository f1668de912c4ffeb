-- ===== src/Soundcheck/Ready.antt =====
-- When the calls of `check_proof` may be made (src/generic/soundcheck.ml).
use cyclist.Base.{
  ℕ, ◌+◌, List, [], ◌∷◌, ◌++◌, map, Memᴰ, ◌≡◌, refl, sym, subst, inl, inr, mem-for_each, length,
  arith,
}
use mathlib.Core.List.Memᴰ
use cyclist.Proof.{Tag}
use cyclist.Soundcheck.{
  AbstractProof, Call, create_vertex, tag_vertex, set_successor, set_initial_vertex, set_trace_pair,
  set_progress_pair, create_vertices, create_tags, create_succs, do_tag_transitions,
  create_trace_pairs, calls,
}
use cyclist.Soundcheck.Valid.{IsClosed}
use cyclist.Soundcheck.Reflects.{Adds}
use cyclist.Soundcheck.Calls.{Ready, creates}
use cyclist.Soundcheck.Run.{
  ReadyAll, After, After-iff, ReadyAll-append, ReadyAll-Fills, Fills, total_creates,
}
use cyclist.Soundcheck.Meaning.{IsNode, NodeTag, Meaning, succ-Meaning, pair-Meaning}

-- An `Int.Map` binds each number once.
abbrev pub IsMap : AbstractProof → Type 0
IsMap [] = Unit {0}
IsMap ((i, n) ∷ p) = (¬ IsNode p i) × IsMap p

vertices-Ready :
    (p : AbstractProof) (D : Call → Type 0)
    → IsMap p
    → ((i : ℕ) → IsNode p i → ¬ D (create_vertex i))
    → ReadyAll D (create_vertices p)
unfolding create_vertices
vertices-Ready [] D d h = tt
vertices-Ready ((i, n) ∷ p) D d h = (
  h i (n, Memᴰ.head refl),
  vertices-Ready p (Adds (create_vertex i) D) d.1 λ j (n', k). elim [
    | inl e ↦ d.0 (n', subst (λ x. Memᴰ (x, n') p) (cc e) k)
    | inr old ↦ h j (n', Memᴰ.tail k) old
  ],
)

module _ (p : AbstractProof) (init : ℕ) (v : IsClosed p init) where
  -- Where all vertices and tags are made, what the abstract proof means is ready.
  Meaning-Ready :
      (D : Call → Type 0)
      → ((i : ℕ) → IsNode p i → D (create_vertex i))
      → ((i : ℕ) (t : Tag) → NodeTag p i t → D (tag_vertex i t))
      → (c : Call) → Fills c
      → Meaning p init c
      → Ready D c
  Meaning-Ready D nodes tags (create_vertex i) f m = absurd f
  Meaning-Ready D nodes tags (tag_vertex i t) f (n, k, _) = nodes i (n, k)
  Meaning-Ready D nodes tags (set_successor i j) f (n, s, (k, k'), e) =
      let (n', there, _) = v.child i n s (k, k') in
      (nodes i (n, k), subst (λ x. D (create_vertex x)) e (nodes s.child (n', there)))
  Meaning-Ready D nodes tags (set_initial_vertex i) f e =
      subst (λ x. D (create_vertex x)) (sym e) (nodes init v.start)
  Meaning-Ready D nodes tags (set_trace_pair i j a b) f (n, s, (k, k'), e, m) =
      let (n', there, tagged) = v.child i n s (k, k') in
      let (at_i, at_j) = tagged a b m in
      (tags i a (n, k, at_i), subst (λ x. D (tag_vertex x b)) e (tags s.child b (n', there, at_j)))
  Meaning-Ready D nodes tags (set_progress_pair i j a b) f (n, s, (k, k'), e, m) =
      let (n', there, tagged) = v.child i n s (k, k') in
      let (at_i, at_j) = tagged a b (v.progress_in i n s (k, k') (a, b) m) in
      (tags i a (n, k, at_i), subst (λ x. D (tag_vertex x b)) e (tags s.child b (n', there, at_j)))

  tags-Ready :
      (D : Call → Type 0)
      → ((i : ℕ) → IsNode p i → D (create_vertex i))
      → (c : Call) → Memᴰ c (create_tags p)
      → Fills c × Ready D c
  unfolding create_tags
  tags-Ready D nodes c m =
      let ((i, n), k, h) = (mem-for_each _ c p).0 m in
      let (t, k', e) = Memᴰ.of_map (tag_vertex i) n.tags h in
      subst (λ x. Fills x × Ready D x) e (tt, nodes i (n, k))

  succs-Fills : (c : Call) → Memᴰ c (create_succs p) → Fills c
  unfolding create_succs
  succs-Fills c m =
      let ((i, n), k, h) = (mem-for_each _ c p).0 m in
      let (s, k', e) = Memᴰ.of_map _ n.subg h in subst Fills e tt

  pairs-Fills : (c : Call) → Memᴰ c (create_trace_pairs p) → Fills c
  unfolding create_trace_pairs
  pairs-Fills c m =
      let ((i, n), k, h) = (mem-for_each _ c p).0 m in
      let (s, k', h') = (mem-for_each (do_tag_transitions i) c n.subg).0 h in
      elim (Memᴰ.append_cases (map _ s.tag_pairs) h') [
        | inl t ↦ let (x, _, e) = Memᴰ.of_map _ s.tag_pairs t in subst Fills e tt
        | inr t ↦ let (x, _, e) = Memᴰ.of_map _ s.progress t in subst Fills e tt
      ]

  abbrev last_calls : List Call
  last_calls = create_succs p ++ set_initial_vertex init ∷ create_trace_pairs p

  last-Meaning : (c : Call) → Memᴰ c last_calls → Fills c × Meaning p init c
  last-Meaning c m = elim (Memᴰ.append_cases (create_succs p) m) [
    | inl k ↦ (succs-Fills c k, succ-Meaning p init c k)
    | inr k ↦ elim (Memᴰ.cases_cons k) [
      | inl e ↦ subst (λ x. Fills x × Meaning p init x) (sym e) (tt, refl)
      | inr k' ↦ (pairs-Fills c k', pair-Meaning p init c k')
    ]
  ]

  -- On a valid abstract proof that binds each number once, `check_proof` creates no vertex twice,
  -- and makes every other call after those that create its vertices and tags.
  pub calls-Ready : IsMap p → ReadyAll (λ c. ⊥) (calls init p)
  unfolding calls create_vertices create_tags
  calls-Ready distinct =
      let D1 = After (create_vertices p) (λ c. ⊥) in
      let D2 = After (create_tags p) D1 in
      let nodes = λ (i : ℕ) (k : IsNode p i).
        (After-iff (create_vertices p) (λ c. ⊥) (create_vertex i)).1 (inl (Memᴰ.map _ k.1)) in
      ReadyAll-append (create_vertices p) (create_tags p ++ last_calls) (λ c. ⊥)
        (vertices-Ready p (λ c. ⊥) distinct (λ i k d. d))
        (ReadyAll-append (create_tags p) last_calls D1
          (ReadyAll-Fills D1 D1 (create_tags p) (λ x d. d) (tags-Ready D1 nodes))
          (ReadyAll-Fills D2 D2 last_calls (λ x d. d)
            λ c m.
              let (f, meaning) = last-Meaning c m in
              (
                f,
                Meaning-Ready D2
                    (λ i k. (After-iff (create_tags p) D1 (create_vertex i)).1 (inr (nodes i k)))
                    (λ i t (n, k, k'). (After-iff (create_tags p) D1 (tag_vertex i t)).1 (
                      inl (
                        (mem-for_each _ (tag_vertex i t) p).1
                          ((i, n), k, Memᴰ.map (tag_vertex i) k'))))
                    c f meaning,
              )))

total_creates-append :
    (xs ys : List Call) → total_creates (xs ++ ys) ≡ total_creates xs + total_creates ys
total_creates-append [] ys = omega arith
total_creates-append (x ∷ xs) ys = omega (arith, total_creates-append xs ys)

total_creates-Fills : (cs : List Call) → ((c : Call) → Memᴰ c cs → Fills c) → total_creates cs ≡ 0
total_creates-Fills [] h = refl
total_creates-Fills (c ∷ cs) h = omega (
  arith,
  creates-fills c (h c (Memᴰ.head refl)),
  total_creates-Fills cs (λ x m. h x (Memᴰ.tail m)),
)
  where
    creates-fills : (x : Call) → Fills x → creates x ≡ 0
    creates-fills (create_vertex i) f = absurd f
    creates-fills (tag_vertex i t) f = refl
    creates-fills _ f = refl

total_creates-vertices : (p : AbstractProof) → total_creates (create_vertices p) ≡ length p
unfolding create_vertices
total_creates-vertices [] = refl
total_creates-vertices (x ∷ p) = omega (arith, total_creates-vertices p)

-- One vertex is created for each node.
pub total_creates-calls :
    (p : AbstractProof) (init : ℕ) → IsClosed p init → total_creates (calls init p) ≡ length p
unfolding calls create_tags
total_creates-calls p init v =
    let tags = create_tags p in
    let last = last_calls p init v in
    let no_tags = total_creates-Fills tags (λ c m.
      let ((i, n), k, h) = (mem-for_each _ c p).0 m in
      let (t, k', e) = Memᴰ.of_map (tag_vertex i) n.tags h in subst Fills e tt) in
    let no_last = total_creates-Fills last (λ c m. (last-Meaning p init v c m).0) in
    omega (
      arith,
      total_creates-append (create_vertices p) (tags ++ last),
      total_creates-append tags last,
      total_creates-vertices p,
      no_tags,
      no_last,
    )
