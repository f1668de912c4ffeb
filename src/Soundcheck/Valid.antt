-- ===== src/Soundcheck/Valid.antt =====
-- What the tests of `valid` say of an abstract proof (src/generic/soundcheck.ml).
use cyclist.Base.{
  ℕ, Bool, true, false, none, some, List, [], ◌∷◌, map, Memᴰ, ◌≡◌, ◌&&◌, inl, inr, lookup, nat_eq,
  contains, contains_iff, Option-cases, arith, Bool-cases, ==_iff, ◌==◌,
}
use mathlib.Core.List.Memᴰ
use cyclist.Proof.{Tag}
use cyclist.Soundcheck.{
  AbstractProof, AbstractNode, Premise, find_node, is_node, for_all, tag_subset, pair_eq,
  valid_premise, valid,
}

pub for_all-at {ℓ} :
    {A : Type ℓ} (f : A → Bool) (xs : List A) (x : A) → for_all f xs ≡ true → Memᴰ x xs → f x ≡ true
unfolding for_all
for_all-at f [] x h m = absurd (Memᴰ.not-nil m)
for_all-at f (y ∷ xs) x h m = elim (Memᴰ.cases_cons m) [
  | inl same ↦ rw same (ground arith)
  | inr rest ↦ for_all-at f xs x (ground arith) rest
]

pub mem-lookup :
    (p : AbstractProof) (i : ℕ) (n : AbstractNode) → find_node p i ≡ some n → Memᴰ (i, n) p
unfolding lookup
mem-lookup [] i n h = cc
mem-lookup ((j, n') ∷ p) i n h = elim (Bool-cases (i == j)) [
  | inl same ↦
      let e = (==_iff i j).0 same in let e' : n ≡ n' = ground arith in Memᴰ.head (λ x. (e x, e' x))
  | inr other ↦ Memᴰ.tail (mem-lookup p i n (ground arith))
]

-- The node `n` is bound to `i`, and `s` is one of its premises.
abbrev pub HasPremise : AbstractProof → ℕ → AbstractNode → Premise → Type 0
HasPremise p i n s = Memᴰ (i, n) p × Memᴰ s n.subg

pub record IsClosed (p : AbstractProof) (init : ℕ) : Type 0 where
  pub start : (n : AbstractNode) × Memᴰ (init, n) p
  pub child :
      (i : ℕ) (n : AbstractNode) (s : Premise)
      → HasPremise p i n s
      → (n' : AbstractNode) × Memᴰ (s.child, n') p
        × ((k l : Tag) → Memᴰ (k, l) s.tag_pairs → Memᴰ k n.tags × Memᴰ l n'.tags)
  pub progress_in :
      (i : ℕ) (n : AbstractNode) (s : Premise)
      → HasPremise p i n s
      → (x : Tag × Tag) → Memᴰ x s.progress
      → Memᴰ x s.tag_pairs

is_node-some :
    (p : AbstractProof) (i : ℕ) → is_node p i ≡ true → (n : AbstractNode) × (find_node p i ≡ some n)
is_node-some p i h = elim (Option-cases (find_node p i)) [
  | inl missing ↦ ground (arith, missing)
  | inr found ↦ found
]

tag_subset-at : (xs ys : List Tag) (x : Tag) → tag_subset xs ys ≡ true → Memᴰ x xs → Memᴰ x ys
tag_subset-at xs ys x h m =
    (contains_iff ⦃e = nat_eq⦄ x ys).0 (for_all-at (λ y. contains ⦃e = nat_eq⦄ y ys) xs x h m)

and_parts :
    (a b c d : Bool) → (a && b && c && d) ≡ true → (a ≡ true) × (b ≡ true) × (c ≡ true) × (d ≡ true)
and_parts a b c d h = ground arith

and-left : (a b : Bool) → (a && b) ≡ true → a ≡ true
and-left a b h = ground arith

and-right : (a b : Bool) → (a && b) ≡ true → b ≡ true
and-right a b h = ground arith

module _ (p : AbstractProof) (init : ℕ) (h : valid p init ≡ true) where
  premise-valid :
      (i : ℕ) (n : AbstractNode) (s : Premise)
      → HasPremise p i n s
      → valid_premise p n.tags s ≡ true
  unfolding valid
  premise-valid i n s (m, k) =
      for_all-at (valid_premise p n.tags) n.subg s
        (for_all-at (λ (j, n'). for_all (valid_premise p n'.tags) n'.subg) p (i, n)
          (and-right (is_node p init) _ h) m)
        k

  parts :
      (i : ℕ) (n : AbstractNode) (s : Premise)
      → HasPremise p i n s
      → (is_node p s.child ≡ true)
        × (for_all (λ x. contains ⦃e = pair_eq⦄ x s.tag_pairs) s.progress ≡ true)
        × (tag_subset (map (λ x. x.0) s.tag_pairs) n.tags ≡ true)
        × ((elim (find_node p s.child) [
          | none ↦ false
          | some n' ↦ tag_subset (map (λ x. x.1) s.tag_pairs) n'.tags
        ])
            ≡ true)
  parts i n s m = and_parts (is_node p s.child) _ _ _ (premise-valid i n s m)

  start : (n : AbstractNode) × Memᴰ (init, n) p
  unfolding valid
  start =
      let (n, e) = is_node-some p init (and-left (is_node p init) _ h) in (n, mem-lookup p init n e)

  child :
      (i : ℕ) (n : AbstractNode) (s : Premise)
      → HasPremise p i n s
      → (n' : AbstractNode) × Memᴰ (s.child, n') p
        × ((k l : Tag) → Memᴰ (k, l) s.tag_pairs → Memᴰ k n.tags × Memᴰ l n'.tags)
  child i n s m =
      let (a, _, c, d) = parts i n s m in
      let (n', e) = is_node-some p s.child a in
      (
        n',
        mem-lookup p s.child n' e,
        λ k l pair. (
          tag_subset-at (map (λ x. x.0) s.tag_pairs) n.tags k c (Memᴰ.map (λ x. x.0) pair),
          tag_subset-at (map (λ x. x.1) s.tag_pairs) n'.tags l (ground arith)
              (Memᴰ.map (λ x. x.1) pair),
        ),
      )

  -- When `valid` answers true, the initial node and all premises are nodes, the tag pairs of a
  -- premise lie in the tags of its two nodes, and its progressing pairs are among its tag pairs.
  pub valid-IsClosed : IsClosed p init
  valid-IsClosed = record {
    start = start;
    child = child;
    progress_in = λ i n s m x k.
        (contains_iff ⦃e = pair_eq⦄ x s.tag_pairs).0
          (for_all-at (λ y. contains ⦃e = pair_eq⦄ y s.tag_pairs) s.progress x (parts i n s m).1 k);
  }
