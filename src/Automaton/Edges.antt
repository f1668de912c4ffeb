-- ===== src/Automaton/Edges.antt =====
-- The edges that an iterator over a list of positions offers.
use cyclist.Base.{
  Bool, Option, some, List, [], ◌∷◌, Memᴰ, ◌≡◌, ◌↔◌, refl, inl, inr, ◌>>=◌, >>=-eq-some,
}
use mathlib.Core.List.Memᴰ
use cyclist.Bdd.{BddLibrary, Vertex}
use cyclist.Automaton.{Edge}

module _ ⦃B : BddLibrary⦄ {S A : Type 0} (dst : A → Option S) (cond : A → Vertex)
    (acc : A → Bool) where
  -- The edges at the positions `xs`, in order.
  unfoldable pub list_edges : List A → Option (List (Edge S))
  list_edges [] = some []
  list_edges (x ∷ xs) = do
    d ← dst x
    rest ← list_edges xs
    some (record { dst = d; cond = cond x; acc = acc x } ∷ rest)

  -- `e` is the edge at the position `x`.
  abbrev pub EdgeAt : A → Edge S → Type 0
  EdgeAt x e = (dst x ≡ some e.dst) × (cond x ≡ e.cond) × (acc x ≡ e.acc)

  pub mem-list_edges :
      (e : Edge S) (xs : List A) (es : List (Edge S))
      → list_edges xs ≡ some es
      → Memᴰ e es ↔ ((x : A) × Memᴰ x xs × EdgeAt x e)
  unfolding list_edges
  mem-list_edges e [] es h = (
    λ m. let e' : es ≡ [] = cc in absurd (Memᴰ.not-nil (rw e' at m)),
    λ (x, m, _). absurd (Memᴰ.not-nil m),
  )
  mem-list_edges e (y ∷ xs) es h =
      let (d, at_y, h') = >>=-eq-some (dst y) _ h in
      let (rest, made, h'') = >>=-eq-some (list_edges xs) _ h' in
      let split : es ≡ record { dst = d; cond = cond y; acc = acc y } ∷ rest = cc in
      let ih = mem-list_edges e xs rest made in
      (
        λ m. elim (Memᴰ.cases_cons (rw split at m)) [
          | inl new ↦ (y, Memᴰ.head refl, (rw new at_y, rw new refl, rw new refl))
          | inr old ↦ let (x, k, at_x) = ih.0 old in (x, Memᴰ.tail k, at_x)
        ],
        λ (x, k, at_x). rw split (elim (Memᴰ.cases_cons k) [
          | inl same ↦
              let p : e.dst ≡ d = cc in
              let q : e.cond ≡ cond y = cc in
              let r : e.acc ≡ acc y = cc in
              Memᴰ.head (λ i. record { dst = p i; cond = q i; acc = r i })
          | inr old ↦ Memᴰ.tail (ih.1 (x, old, at_x))
        ]),
      )

  pub list_edges-total :
      (xs : List A)
      → ((x : A) → Memᴰ x xs → (d : S) × (dst x ≡ some d))
      → (es : List (Edge S)) × (list_edges xs ≡ some es)
  unfolding list_edges
  list_edges-total [] h = ([], refl)
  list_edges-total (x ∷ xs) h =
      let (d, at_x) = h x (Memᴰ.head refl) in
      let (es, made) = list_edges-total xs (λ y m. h y (Memᴰ.tail m)) in
      (record { dst = d; cond = cond x; acc = acc x } ∷ es, rw (at_x, made))
