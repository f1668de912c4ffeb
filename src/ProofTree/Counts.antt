-- ===== src/ProofTree/Counts.antt =====
-- Maps whose keys are successive numbers, as those of src/generic/proof.ml.
use cyclist.Base.{
  ℕ, suc, ◌+◌, ◌≤◌, ◌<◌, some, List, [], ◌∷◌, Memᴰ, ◌≡◌, ◌↔◌, ◌≢◌, inl, inr, refl, sym, ap, ◌∙◌,
  ◌==◌, ==_iff, Bool-cases, nat_eq, lookup, assign, length, arith,
}
use mathlib.Core.List.Memᴰ
use cyclist.ProofTree.Maps.{max_index, range}

-- The keys are the numbers from `k` on.
abbrev pub Counts {ℓ} : {V : Type ℓ} → ℕ → List (ℕ × V) → Type 0
Counts k [] = Unit {0}
Counts k ((i, v) ∷ m) = (i ≡ k) × Counts (suc k) m

module _ {ℓ} {V : Type ℓ} where
  pub Counts-found :
      (k : ℕ) (m : List (ℕ × V)) (i : ℕ) (v : V)
      → Counts k m
      → lookup ⦃e = nat_eq⦄ i m ≡ some v
      → (k ≤ i) × (i < k + length m)
  unfolding lookup
  Counts-found k [] i v c h = cc
  Counts-found k ((j, w) ∷ m) i v c h = elim (Bool-cases (i == j)) [
    | inl same ↦ let e = (==_iff i j).0 same in let e' = c.0 in (omega arith, omega arith)
    | inr other ↦
        let (low, high) = Counts-found (suc k) m i v c.1 (ground (arith, other)) in
        (omega arith, omega arith)
  ]

  pub Counts-get :
      (k : ℕ) (m : List (ℕ × V)) (i : ℕ)
      → Counts k m
      → k ≤ i
      → i < k + length m
      → (v : V) × (lookup ⦃e = nat_eq⦄ i m ≡ some v)
  unfolding lookup
  Counts-get k [] i c low high = absurd (omega arith)
  Counts-get k ((j, w) ∷ m) i c low high = elim (Bool-cases (i == j)) [
    | inl same ↦ (w, rw same refl)
    | inr other ↦
        let differs : i ≢ j = λ e. cc (other, (==_iff i j).1 e) in
        let e' = c.0 in
        let (v, h) = Counts-get (suc k) m i c.1 (omega arith) (omega arith) in (v, rw other h)
  ]

  pub max_index-Counts :
      (k : ℕ) (x : ℕ × V) (m : List (ℕ × V))
      → Counts k (x ∷ m)
      → max_index (x ∷ m) ≡ some (k + length m)
  unfolding max_index
  max_index-Counts k (i, v) [] c = ground (arith, c.0)
  max_index-Counts k (i, v) (y ∷ m) c =
      let e = c.0 in rw (max_index-Counts (suc k) y m c.1) (ap some (omega arith))

  -- A key that is there, or the next one.
  pub assign-Counts :
      (k : ℕ) (m : List (ℕ × V)) (i : ℕ) (v : V)
      → Counts k m
      → k ≤ i
      → i ≤ k + length m
      → Counts k (assign ⦃e = nat_eq⦄ i v m)
  unfolding assign
  assign-Counts k [] i v c low high = (omega arith, tt)
  assign-Counts k ((j, w) ∷ m) i v c low high = elim (Bool-cases (i == j)) [
    | inl same ↦ rw same ((==_iff i j).0 same ∙ c.0, c.1)
    | inr other ↦
        let differs : i ≢ j = λ e. cc (other, (==_iff i j).1 e) in
        let e' = c.0 in rw other (c.0, assign-Counts (suc k) m i v c.1 (omega arith) (omega arith))
  ]

  pub length-assign_old :
      (k : ℕ) (m : List (ℕ × V)) (i : ℕ) (v : V)
      → Counts k m
      → k ≤ i
      → i < k + length m
      → length (assign ⦃e = nat_eq⦄ i v m) ≡ length m
  unfolding assign
  length-assign_old k [] i v c low high = absurd (omega arith)
  length-assign_old k ((j, w) ∷ m) i v c low high = elim (Bool-cases (i == j)) [
    | inl same ↦ rw same refl
    | inr other ↦
        let differs : i ≢ j = λ e. cc (other, (==_iff i j).1 e) in
        let e' = c.0 in
        rw other (ap suc (length-assign_old (suc k) m i v c.1 (omega arith) (omega arith)))
  ]

  pub length-assign_next :
      (k : ℕ) (m : List (ℕ × V)) (i : ℕ) (v : V)
      → Counts k m
      → i ≡ k + length m
      → length (assign ⦃e = nat_eq⦄ i v m) ≡ suc (length m)
  unfolding assign
  length-assign_next k [] i v c e = refl
  length-assign_next k ((j, w) ∷ m) i v c e = elim (Bool-cases (i == j)) [
    | inl same ↦ let e' = (==_iff i j).0 same in let e'' = c.0 in absurd (omega arith)
    | inr other ↦ rw other (ap suc (length-assign_next (suc k) m i v c.1 (omega arith)))
  ]

  pub mem-Counts :
      (k : ℕ) (m : List (ℕ × V)) (i : ℕ) (v : V)
      → Counts k m
      → Memᴰ (i, v) m
      → (k ≤ i) × (lookup ⦃e = nat_eq⦄ i m ≡ some v)
  unfolding lookup
  mem-Counts k [] i v c h = absurd (Memᴰ.not-nil h)
  mem-Counts k ((j, w) ∷ m) i v c h = elim (Memᴰ.cases_cons h) [
    | inl here ↦
        let e = ap (λ (q : ℕ × V). q.0) here in
        let e' = c.0 in
        (omega arith, rw ((==_iff i j).1 e) (ap (λ (q : ℕ × V). some q.1) (sym here)))
    | inr later ↦
        let (low, found) = mem-Counts (suc k) m i v c.1 later in
        let e' = c.0 in
        let differs : i ≢ j = λ e. absurd (omega arith) in
        elim (Bool-cases (i == j)) [
          | inl same ↦ absurd (differs ((==_iff i j).0 same))
          | inr other ↦ (omega arith, rw other found)
        ]
  ]

  pub mem-get :
      (m : List (ℕ × V)) (i : ℕ) (v : V) → lookup ⦃e = nat_eq⦄ i m ≡ some v → Memᴰ (i, v) m
  unfolding lookup
  mem-get [] i v h = cc
  mem-get ((j, w) ∷ m) i v h = elim (Bool-cases (i == j)) [
    | inl same ↦
        let e = (==_iff i j).0 same in
        let e' : v ≡ w = ground (arith, same) in Memᴰ.head (λ x. (e x, e' x))
    | inr other ↦ Memᴰ.tail (mem-get m i v (ground (arith, other)))
  ]

pub mem-range {ℓ} :
    {A : Type ℓ} (n : ℕ) (xs : List A) (i : ℕ)
    → Memᴰ i (range n xs) ↔ ((n ≤ i) × (i < n + length xs))
unfolding range
mem-range n [] i = (λ m. absurd (Memᴰ.not-nil m), λ (a, b). absurd (omega arith))
mem-range n (x ∷ xs) i =
    let ih = mem-range (suc n) xs i in
    (
      λ m. elim (Memᴰ.cases_cons m) [
        | inl here ↦ (omega arith, omega arith)
        | inr later ↦ let (a, b) = ih.0 later in (omega arith, omega arith)
      ],
      λ (a, b). elim (Bool-cases (i == n)) [
        | inl same ↦ Memᴰ.head ((==_iff i n).0 same)
        | inr other ↦
            let differs : i ≢ n = λ e. cc (other, (==_iff i n).1 e) in
            Memᴰ.tail (ih.1 (omega arith, omega arith))
      ],
    )
