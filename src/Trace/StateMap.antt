-- ===== src/Trace/StateMap.antt =====
-- The table of `TraceAutomaton::get_state`, which makes one state object for each pair of a vertex
-- and a tag. A pointer is the index of its object among the objects made so far.
use cyclist.Base.{
  ℕ, zero, suc, ◌&&◌, true, none, some, List, [], ◌∷◌, ◌++◌, ◌≡◌, ◌↔◌, refl, sym, inl, inr, arith,
  ◌==◌, ==_iff, Eq, lookup, assign, lookup-assign, length, get_elem?, Option-cases, Bool-cases,
  Bool, some_injective, ◌∙◌,
}
use cyclist.Bdd.{BddLibrary, Vertex, vertex_beq, vertex_beq_iff}
use cyclist.Proof.{Tag}
use cyclist.Trace.{TraceState}

get_elem?-append_left {ℓ} :
    {A : Type ℓ} (xs ys : List A) (i : ℕ) {a : A}
    → get_elem? xs i ≡ some a
    → get_elem? (xs ++ ys) i ≡ some a
get_elem?-append_left [] ys i h = cc
get_elem?-append_left (x ∷ xs) ys zero h = h
get_elem?-append_left (x ∷ xs) ys (suc i) h = get_elem?-append_left xs ys i h

get_elem?-append_length {ℓ} :
    {A : Type ℓ} (xs : List A) (a : A) → get_elem? (xs ++ a ∷ []) (length xs) ≡ some a
get_elem?-append_length [] a = refl
get_elem?-append_length (x ∷ xs) a = get_elem?-append_length xs a

module _ ⦃B : BddLibrary⦄ where
  -- `operator==` on `StatePair`; the pair has the fields of the state that it stands for.
  abbrev pub pair_beq : TraceState → TraceState → Bool
  pair_beq s t = vertex_beq s.vertex t.vertex && s.tag == t.tag

  pub pair_beq_iff : (s t : TraceState) → (pair_beq s t ≡ true) ↔ (s ≡ t)
  pair_beq_iff s t = ground (arith, vertex_beq_iff s.vertex t.vertex, ==_iff s.tag t.tag)

  abbrev pub pair_eq : Eq TraceState
  pair_eq = record { beq = pair_beq; beq_iff = pair_beq_iff }

  pub record StateMap : Type 0 where
    pub objects : List TraceState
    pub state_map : List (TraceState × ℕ)

  unfoldable pub get_state : Vertex → Tag → StateMap → ℕ × StateMap
  get_state v t m =
      let p : TraceState = record { vertex = v; tag = t } in
      elim (lookup ⦃e = pair_eq⦄ p m.state_map) [
        | none ↦ (
          length m.objects,
          record {
            objects = m.objects ++ p ∷ [];
            state_map = assign ⦃e = pair_eq⦄ p (length m.objects) m.state_map;
          },
        )
        | some s ↦ (s, m)
      ]

  -- Each entry points to the object of its key.
  abbrev pub IsInterned : StateMap → Type 0
  IsInterned m =
      (p : TraceState) (i : ℕ)
      → lookup ⦃e = pair_eq⦄ p m.state_map ≡ some i
      → get_elem? m.objects i ≡ some p

  -- What a call promises: the pointer leads to the pair asked for, older pointers still lead
  -- where they led, the table stays good, and a second call gives the same pointer.
  pub record Interns (v : Vertex) (t : Tag) (m : StateMap) (s : ℕ) (m' : StateMap) : Type 0 where
    pub interned : IsInterned m'
    pub points : get_elem? m'.objects s ≡ some (record { vertex = v; tag = t })
    pub keeps :
        (i : ℕ) (x : TraceState) → get_elem? m.objects i ≡ some x → get_elem? m'.objects i ≡ some x
    pub again : get_state v t m' ≡ (s, m')

  found_again :
      (v : Vertex) (t : Tag) (m : StateMap) (s : ℕ)
      → lookup ⦃e = pair_eq⦄ (record { vertex = v; tag = t }) m.state_map ≡ some s
      → get_state v t m ≡ (s, m)
  unfolding get_state
  found_again v t m s h = rw (h, get_state)

  -- From a good table, `get_state` returns a pointer to the pair asked for, older pointers still
  -- lead where they led, the table stays good, and a second call returns the same pointer.
  pub get_state-Interns :
      (v : Vertex) (t : Tag) (m : StateMap)
      → IsInterned m
      → Interns v t m (get_state v t m).0 (get_state v t m).1
  unfolding get_state
  get_state-Interns v t m h =
      let p : TraceState = record { vertex = v; tag = t } in
      let n = length m.objects in
      elim (Option-cases (lookup ⦃e = pair_eq⦄ p m.state_map)) [
        | inr (s, found) ↦
            rw (found, get_state)
              (record {
                interned = h;
                points = h p s found;
                keeps = λ i x e. e;
                again = found_again v t m s found;
              })
        | inl missing ↦
            let m' : StateMap = record {
              objects = m.objects ++ p ∷ [];
              state_map = assign ⦃e = pair_eq⦄ p n m.state_map;
            } in
            let look = λ (q : TraceState). lookup-assign ⦃e = pair_eq⦄ q p n m.state_map in
            rw (missing, get_state)
              (record {
                interned = λ q i e. elim (Bool-cases (pair_beq q p)) [
                  | inl same ↦
                      let q_p = (pair_beq_iff q p).0 same in
                      let at_n : n ≡ i = some_injective (sym (look q ∙ rw same) ∙ e) in
                      rw (q_p, ← at_n) (get_elem?-append_length m.objects p)
                  | inr other ↦
                      get_elem?-append_left m.objects (p ∷ []) i
                        (h q i (sym (look q ∙ rw other) ∙ e))
                ];
                points = get_elem?-append_length m.objects p;
                keeps = λ i x e. get_elem?-append_left m.objects (p ∷ []) i e;
                again = found_again v t m' n (look p ∙ rw ((pair_beq_iff p p).1 refl));
              })
      ]
