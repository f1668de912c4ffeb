-- ===== src/Soundcheck/Meaning.antt =====
-- The calls of `check_proof`, read off the abstract proof (src/generic/soundcheck.ml).
use cyclist.Base.{ℕ, map, Memᴰ, ◌≡◌, ◌↔◌, refl, sym, ap, subst, inl, inr, mem-for_each}
use mathlib.Core.List.Memᴰ
use cyclist.Proof.{Tag}
use cyclist.Soundcheck.{
  AbstractProof, AbstractNode, Premise, Call, create_vertex, tag_vertex, set_successor,
  set_initial_vertex, set_trace_pair, set_progress_pair, create_vertices, create_tags, create_succs,
  do_tag_transitions, create_trace_pairs, calls,
}
use cyclist.Soundcheck.Valid.{HasPremise}

module _ (p : AbstractProof) where
  abbrev pub IsNode : ℕ → Type 0
  IsNode i = (n : AbstractNode) × Memᴰ (i, n) p

  abbrev pub NodeTag : ℕ → Tag → Type 0
  NodeTag i t = (n : AbstractNode) × Memᴰ (i, n) p × Memᴰ t n.tags

  -- Some premise of `i` is `j`.
  abbrev pub Edge : ℕ → ℕ → Type 0
  Edge i j = (n : AbstractNode) × (s : Premise) × HasPremise p i n s × (s.child ≡ j)

  -- The tags are a pair, or a progressing pair, of some premise of `i` that is `j`.
  abbrev pub TracePair : ℕ → ℕ → Tag → Tag → Type 0
  TracePair i j k l =
      (n : AbstractNode) × (s : Premise) × HasPremise p i n s
      × (s.child ≡ j)
      × Memᴰ (k, l) s.tag_pairs

  abbrev pub ProgressPair : ℕ → ℕ → Tag → Tag → Type 0
  ProgressPair i j k l =
      (n : AbstractNode) × (s : Premise) × HasPremise p i n s
      × (s.child ≡ j)
      × Memᴰ (k, l) s.progress

  -- What each call says of the abstract proof.
  abbrev pub Meaning : ℕ → Call → Type 0
  Meaning init (create_vertex i) = IsNode i
  Meaning init (tag_vertex i t) = NodeTag i t
  Meaning init (set_successor i j) = Edge i j
  Meaning init (set_initial_vertex i) = i ≡ init
  Meaning init (set_trace_pair i j k l) = TracePair i j k l
  Meaning init (set_progress_pair i j k l) = ProgressPair i j k l

  module _ (init : ℕ) where
    vertex-Meaning : (c : Call) → Memᴰ c (create_vertices p) → Meaning init c
    unfolding create_vertices
    vertex-Meaning c m = let ((i, n), k, e) = Memᴰ.of_map _ p m in subst (Meaning init) e (n, k)

    tag-Meaning : (c : Call) → Memᴰ c (create_tags p) → Meaning init c
    unfolding create_tags
    tag-Meaning c m =
        let ((i, n), k, h) = (mem-for_each _ c p).0 m in
        let (t, k', e) = Memᴰ.of_map (tag_vertex i) n.tags h in subst (Meaning init) e (n, k, k')

    pub succ-Meaning : (c : Call) → Memᴰ c (create_succs p) → Meaning init c
    unfolding create_succs
    succ-Meaning c m =
        let ((i, n), k, h) = (mem-for_each _ c p).0 m in
        let (s, k', e) = Memᴰ.of_map _ n.subg h in subst (Meaning init) e (n, s, (k, k'), refl)

    pub pair-Meaning : (c : Call) → Memᴰ c (create_trace_pairs p) → Meaning init c
    unfolding create_trace_pairs
    pair-Meaning c m =
        let ((i, n), k, h) = (mem-for_each _ c p).0 m in
        let (s, k', h') = (mem-for_each (do_tag_transitions i) c n.subg).0 h in
        elim (Memᴰ.append_cases (map _ s.tag_pairs) h') [
          | inl t ↦
              let ((a, b), k'', e) = Memᴰ.of_map _ s.tag_pairs t in
              subst (Meaning init) e (n, s, (k, k'), refl, k'')
          | inr t ↦
              let ((a, b), k'', e) = Memᴰ.of_map _ s.progress t in
              subst (Meaning init) e (n, s, (k, k'), refl, k'')
        ]

    pair-mem :
        (c : Call) (i : ℕ) (n : AbstractNode) (s : Premise)
        → Memᴰ (i, n) p
        → Memᴰ s n.subg
        → Memᴰ c (do_tag_transitions i s)
        → Memᴰ c (calls init p)
    unfolding calls
    pair-mem c i n s k k' m = Memᴰ.append_right (create_vertices p) (
        Memᴰ.append_right (create_tags p) (
          Memᴰ.append_right (create_succs p) (
            Memᴰ.tail (
              (mem-for_each _ c p).1
                ((i, n), k, (mem-for_each (do_tag_transitions i) c n.subg).1 (s, k', m))))))

    Meaning-mem : (c : Call) → Meaning init c → Memᴰ c (calls init p)
    unfolding calls
    Meaning-mem (create_vertex i) (n, k) = Memᴰ.append_left _ (Memᴰ.map _ k)
    Meaning-mem (tag_vertex i t) (n, k, k') = Memᴰ.append_right (create_vertices p) (
        Memᴰ.append_left _
          ((mem-for_each _ (tag_vertex i t) p).1 ((i, n), k, Memᴰ.map (tag_vertex i) k')))
    Meaning-mem (set_successor i j) (n, s, (k, k'), e) = Memᴰ.append_right (create_vertices p) (
        Memᴰ.append_right (create_tags p) (
          Memᴰ.append_left _ (
            (mem-for_each _ (set_successor i j) p).1
              ((i, n), k, rw (← e) (Memᴰ.map (λ (x : Premise). set_successor i x.child) k')))))
    Meaning-mem (set_initial_vertex i) e = Memᴰ.append_right (create_vertices p) (
        Memᴰ.append_right (create_tags p)
          (Memᴰ.append_right (create_succs p) (Memᴰ.head (ap set_initial_vertex e))))
    Meaning-mem (set_trace_pair i j a b) (n, s, (k, k'), e, m) =
        pair-mem (set_trace_pair i j a b) i n s k k' (
          Memᴰ.append_left
            {s = map (λ (x : Tag × Tag). set_trace_pair i s.child x.0 x.1) s.tag_pairs} _
            (rw (← e) (Memᴰ.map (λ (x : Tag × Tag). set_trace_pair i s.child x.0 x.1) m)))
    Meaning-mem (set_progress_pair i j a b) (n, s, (k, k'), e, m) =
        pair-mem (set_progress_pair i j a b) i n s k k' (
          Memᴰ.append_right (map (λ (x : Tag × Tag). set_trace_pair i s.child x.0 x.1) s.tag_pairs)
            (rw (← e) (Memᴰ.map (λ (x : Tag × Tag). set_progress_pair i s.child x.0 x.1) m)))

    -- A call is among those that `check_proof` makes exactly when the abstract proof has the node,
    -- tag, edge, initial node or pair that the call names.
    pub mem-calls : (c : Call) → Memᴰ c (calls init p) ↔ Meaning init c
    unfolding calls
    mem-calls c = (
      λ m. elim (Memᴰ.append_cases (create_vertices p) m) [
        | inl k ↦ vertex-Meaning c k
        | inr m' ↦ elim (Memᴰ.append_cases (create_tags p) m') [
          | inl k ↦ tag-Meaning c k
          | inr m'' ↦ elim (Memᴰ.append_cases (create_succs p) m'') [
            | inl k ↦ succ-Meaning c k
            | inr m3 ↦ elim (Memᴰ.cases_cons m3) [
              | inl e ↦ subst (Meaning init) (sym e) refl
              | inr k ↦ pair-Meaning c k
            ]
          ]
        ]
      ],
      Meaning-mem c,
    )
