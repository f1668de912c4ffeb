-- ===== src/Trace/Steps/Vector.antt =====
-- The vector that `TraceSuccIterator::first` fills (src/generic/trace.c).
use cyclist.Base.{
  true, false, not, ◌&&◌, some, List, [], ◌∷◌, Memᴰ, ◌≡◌, ◌↔◌, ◌⊎◌, refl, inl, inr, >>=-eq-some,
  some_injective, Has, at, at-eq, lookup, arith, ap, subst, sym,
}
use mathlib.Core.List.Memᴰ
use cyclist.Bdd.{BddLibrary, Vertex, vertex_eq}
use cyclist.Proof.{Proof, Tag, get_tags_of_vertex, trace_pair}
use cyclist.Trace.{TraceState, initial, quad_to, push_tags, push_successors, StateInfoVector}

module _ ⦃B : BddLibrary⦄ (p : Proof) (s : TraceState) where
  -- The test that an entry passes: from a state that is not initial, a trace pair.
  abbrev pub Allowed : TraceState → Type 0
  Allowed t = (initial s ≡ true) ⊎ (trace_pair p (quad_to s t) ≡ true)

  skips :
      (t : TraceState)
      → (Allowed t × ((not (initial s) && not (trace_pair p (quad_to s t))) ≡ false))
        ⊎ ((¬ Allowed t) × ((not (initial s) && not (trace_pair p (quad_to s t))) ≡ true))
  skips t = ground arith

  mem-push_tags :
      (x : TraceState) (v : Vertex) (ts : List Tag) (infos : StateInfoVector)
      → Memᴰ x (push_tags p s v ts infos)
        ↔ (Memᴰ x infos ⊎ ((x.vertex ≡ v) × Memᴰ x.tag ts × Allowed x))
  unfolding push_tags
  mem-push_tags x v [] infos =
      (inl, elim [ inl old ↦ old | inr (_, m, _) ↦ absurd (Memᴰ.not-nil m) ])
  mem-push_tags x v (t ∷ ts) infos =
      let target : TraceState = record { vertex = v; tag = t } in
      let same = λ (ev : x.vertex ≡ v) (et : x.tag ≡ t).
        let e : x ≡ target = λ i. record { vertex = ev i; tag = et i } in e in
      elim (skips target) [
        | inl (ok, e) ↦
            let ih = mem-push_tags x v ts (target ∷ infos) in
            rw e (
              λ m. elim (ih.0 m) [
                | inl front ↦ elim (Memᴰ.cases_cons front) [
                  | inl new ↦ inr (
                    ap (λ y. y.vertex) new,
                    Memᴰ.head (ap (λ y. y.tag) new),
                    subst Allowed (sym new) ok,
                  )
                  | inr old ↦ inl old
                ]
                | inr (ev, mt, a) ↦ inr (ev, Memᴰ.tail mt, a)
              ],
              elim [
                | inl old ↦ ih.1 (inl (Memᴰ.tail old))
                | inr (ev, mt, a) ↦ elim (Memᴰ.cases_cons mt) [
                  | inl et ↦ ih.1 (inl (Memᴰ.head (same ev et)))
                  | inr rest ↦ ih.1 (inr (ev, rest, a))
                ]
              ],
            )
        | inr (refused, e) ↦
            let ih = mem-push_tags x v ts infos in
            rw e (
              λ m. elim (ih.0 m) [
                | inl old ↦ inl old
                | inr (ev, mt, a) ↦ inr (ev, Memᴰ.tail mt, a)
              ],
              elim [
                | inl old ↦ ih.1 (inl old)
                | inr (ev, mt, a) ↦ elim (Memᴰ.cases_cons mt) [
                  | inl et ↦ absurd (refused (subst Allowed (same ev et) a))
                  | inr rest ↦ ih.1 (inr (ev, rest, a))
                ]
              ],
            )
      ]

  -- An entry that the loops push for the successors `vs`.
  abbrev pub Entry : List Vertex → TraceState → Type 0
  Entry vs x = Memᴰ x.vertex vs × Memᴰ x.tag (at p.tag_map x.vertex) × Allowed x

  pub mem-push_successors :
      (x : TraceState) (vs : List Vertex) (infos out : StateInfoVector)
      → push_successors p s vs infos ≡ some out
      → Memᴰ x out ↔ (Memᴰ x infos ⊎ Entry vs x)
  unfolding push_successors get_tags_of_vertex
  mem-push_successors x [] infos out h =
      rw (← some_injective h)
        (inl, elim [ inl old ↦ old | inr (m, _, _) ↦ absurd (Memᴰ.not-nil m) ])
  mem-push_successors x (v ∷ vs) infos out h =
      let (ts, found, h') = >>=-eq-some (lookup v p.tag_map) _ h in
      let tags = at-eq p.tag_map v found in
      let ih = mem-push_successors x vs (push_tags p s v ts infos) out h' in
      let inner = mem-push_tags x v ts infos in
      (
        λ m. elim (ih.0 m) [
          | inl front ↦ elim (inner.0 front) [
            | inl old ↦ inl old
            | inr (ev, mt, a) ↦ inr (Memᴰ.head ev, (rw (ev, tags) mt), a)
          ]
          | inr (mv, mt, a) ↦ inr (Memᴰ.tail mv, mt, a)
        ],
        elim [
          | inl old ↦ ih.1 (inl (inner.1 (inl old)))
          | inr (mv, mt, a) ↦ elim (Memᴰ.cases_cons mv) [
            | inl ev ↦ ih.1 (inl (inner.1 (inr (ev, rw (ev, tags) at mt, a))))
            | inr rest ↦ ih.1 (inr (rest, mt, a))
          ]
        ],
      )

  pub push_successors-total :
      (vs : List Vertex) (infos : StateInfoVector)
      → ((v : Vertex) → Memᴰ v vs → Has p.tag_map v)
      → (out : StateInfoVector) × (push_successors p s vs infos ≡ some out)
  unfolding push_successors get_tags_of_vertex
  push_successors-total [] infos h = (infos, refl)
  push_successors-total (v ∷ vs) infos h =
      let (ts, found) = h v (Memᴰ.head refl) in
      let (out, made) =
        push_successors-total vs (push_tags p s v ts infos) (λ u m. h u (Memᴰ.tail m)) in
      (out, rw found made)
