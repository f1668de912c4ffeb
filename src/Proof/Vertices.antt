-- ===== src/Proof/Vertices.antt =====
-- The numbering of the vertices: what a condition of `create_vertex` says of a letter.
use cyclist.Base.{
  ℕ, zero, suc, ◌+◌, ◌/◌, ◌%◌, ◌^◌, ◌≤◌, ◌<◌, Bool, true, false, some, List, ◌==◌, if◌then◌else◌,
  get_elem?, ◌≡◌, ◌↔◌, refl, sym, ◌∙◌, ap, arith,
}
use cyclist.Bdd.{BddLibrary, Valuation, Vertex, Sat}
use cyclist.Bdd.Cube.{test_bit, test_bit-injective}
use cyclist.Proof.{encode}

module _ ⦃B : BddLibrary⦄ where
  -- `props` holds the first `k` propositions.
  abbrev pub Holds : ℕ → List Vertex → Type 0
  Holds k props = (j : ℕ) → j < k → get_elem? props j ≡ some (B.get_prop j)

  -- The letter spells the lowest `n` bits of `l` from proposition `i` on.
  abbrev Spells : ℕ → ℕ → ℕ → Valuation → Type 0
  Spells zero i l s = Unit {0}
  Spells (suc n) i l s = (s i ≡ (l % 2 == 1)) × Spells n (suc i) (l / 2) s

  round_iff :
      (v : Vertex) (i : ℕ) (t : Bool) (s : Valuation)
      → Sat s (B.bdd_and v (if t then B.get_prop i else B.bdd_not (B.get_prop i)))
        ↔ (Sat s v × (s i ≡ t))
  round_iff v i true s = ground (arith, B.eval-and v (B.get_prop i) s, B.eval-prop i s)
  round_iff v i false s = ground (
    arith,
    B.eval-and v (B.bdd_not (B.get_prop i)) s,
    B.eval-not (B.get_prop i) s,
    B.eval-prop i s,
  )

  encode_from :
      (n i l k : ℕ) (props : List Vertex) (v : Vertex)
      → Holds k props
      → i + n ≤ k
      → (c : Vertex) × (encode n i l props v ≡ some c)
        × ((s : Valuation) → Sat s c ↔ (Sat s v × Spells n i l s))
  unfolding encode
  encode_from zero i l k props v h le = (v, refl, λ s. (λ a. (a, tt), λ a. a.0))
  encode_from (suc n) i l k props v h le =
      let b = l % 2 == 1 in
      let w = B.bdd_and v (if b then B.get_prop i else B.bdd_not (B.get_prop i)) in
      let (c, made, sat) = encode_from n (suc i) (l / 2) k props w h (omega arith) in
      (c, rw (h i (omega arith)) made, λ s. ground (arith, sat s, round_iff v i b s))

  Spells-bits :
      (n i l : ℕ) (s : Valuation) → Spells n i l s → (j : ℕ) → j < n → s (i + j) ≡ test_bit l j
  unfolding test_bit
  Spells-bits zero i l s h j lt = elim lt [ ]
  Spells-bits (suc n) i l s h zero lt = ap s (omega arith) ∙ h.0
  Spells-bits (suc n) i l s h (suc j) lt =
      ap s (omega arith) ∙ Spells-bits n (suc i) (l / 2) s h.1 j (omega arith)

  Spells-self :
      (n i l : ℕ) (s : Valuation) → ((j : ℕ) → j < n → s (i + j) ≡ test_bit l j) → Spells n i l s
  unfolding test_bit
  Spells-self zero i l s h = tt
  Spells-self (suc n) i l s h = (
    ap s (omega arith) ∙ h 0 (omega arith),
    Spells-self n (suc i) (l / 2) s (λ j lt. ap s (omega arith) ∙ h (suc j) (omega arith)),
  )

  -- `v` is the condition that `create_vertex` builds for number `n`, over `k` propositions.
  abbrev pub Numbered : ℕ → List Vertex → ℕ → Vertex → Type 0
  Numbered k props n v = encode k 0 n props B.bddtrue ≡ some v

  module _ (k : ℕ) (props : List Vertex) (holds : Holds k props) where
    pub Numbered-total : (n : ℕ) → (v : Vertex) × Numbered k props n v
    Numbered-total n =
        let (v, made, _) = encode_from k 0 n k props B.bddtrue holds (omega arith) in (v, made)

    pub Numbered-Sat :
        (n : ℕ) (v : Vertex)
        → Numbered k props n v
        → (s : Valuation) → Sat s v ↔ ((j : ℕ) → j < k → s j ≡ test_bit n j)
    Numbered-Sat n v e s =
        let (c, made, sat) = encode_from k 0 n k props B.bddtrue holds (omega arith) in
        let same : c ≡ v = cc in
        (
          λ h j lt. ap s (omega arith) ∙ Spells-bits k 0 n s ((sat s).0 (rw same h)).1 j lt,
          λ h. rw (← same) (
              (sat s).1 (B.eval-true s, Spells-self k 0 n s (λ j lt. ap s (omega arith) ∙ h j lt))),
        )

    -- A letter satisfies one vertex at most.
    pub Numbered-disjoint :
        (a b : ℕ) (u v : Vertex) (s : Valuation)
        → Numbered k props a u
        → Numbered k props b v
        → a < 2 ^ k
        → b < 2 ^ k
        → Sat s u
        → Sat s v
        → a ≡ b
    Numbered-disjoint a b u v s ea eb la lb su sv =
        test_bit-injective k a b la lb
          λ j lt. sym ((Numbered-Sat a u ea s).0 su j lt) ∙ (Numbered-Sat b v eb s).0 sv j lt

    -- A letter that satisfies the vertex: its bits.
    pub Numbered-letter : (n : ℕ) (v : Vertex) → Numbered k props n v → Sat (test_bit n) v
    Numbered-letter n v e = (Numbered-Sat n v e (test_bit n)).1 (λ j lt. refl)
