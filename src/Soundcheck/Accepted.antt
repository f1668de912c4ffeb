-- ===== src/Soundcheck/Accepted.antt =====
-- The abstract proofs that pass the tests of `valid` (src/generic/soundcheck.ml).
use cyclist.Base.{
  ℕ, Bool, true, some, List, [], ◌∷◌, map, Memᴰ, ◌≡◌, refl, sym, ap, subst, ◌==◌, ==_iff, inl, inr,
  lookup, nat_eq, contains, contains_iff, arith, Bool-cases,
}
use mathlib.Core.List.Memᴰ
use cyclist.Proof.{Tag}
use cyclist.Soundcheck.{
  AbstractProof, AbstractNode, Premise, find_node, is_node, for_all, tag_subset, pair_eq,
  valid_premise, valid,
}
use cyclist.Soundcheck.Valid.{HasPremise, IsClosed}
use cyclist.Soundcheck.Ready.{IsMap}

pub for_all-intro {ℓ} :
    {A : Type ℓ} (f : A → Bool) (xs : List A)
    → ((x : A) → Memᴰ x xs → f x ≡ true)
    → for_all f xs ≡ true
unfolding for_all
for_all-intro f [] h = refl
for_all-intro f (x ∷ xs) h =
    rw (h x (Memᴰ.head refl)) (for_all-intro f xs (λ y m. h y (Memᴰ.tail m)))

-- In a map, the binding that is there is the one that is found.
lookup-mem :
    (p : AbstractProof) (i : ℕ) (n : AbstractNode)
    → IsMap p
    → Memᴰ (i, n) p
    → find_node p i ≡ some n
unfolding lookup
lookup-mem [] i n d m = absurd (Memᴰ.not-nil m)
lookup-mem ((j, w) ∷ p) i n d m = elim (Memᴰ.cases_cons m) [
  | inl here ↦
      let same = (==_iff i j).1 (ap (λ (q : ℕ × AbstractNode). q.0) here) in
      rw same (ap (λ (q : ℕ × AbstractNode). some q.1) (sym here))
  | inr later ↦ elim (Bool-cases (i == j)) [
    | inl same ↦ absurd (d.0 (n, subst (λ q. Memᴰ (q, n) p) ((==_iff i j).0 same) later))
    | inr differs ↦ rw differs (lookup-mem p i n d.1 later)
  ]
]

is_node-found :
    (p : AbstractProof) (i : ℕ) (n : AbstractNode) → find_node p i ≡ some n → is_node p i ≡ true
is_node-found p i n h = ground arith

tag_subset-intro :
    (xs ys : List Tag) → ((x : Tag) → Memᴰ x xs → Memᴰ x ys) → tag_subset xs ys ≡ true
tag_subset-intro xs ys h =
    for_all-intro (λ x. contains ⦃e = nat_eq⦄ x ys) xs
      (λ x m. (contains_iff ⦃e = nat_eq⦄ x ys).1 (h x m))

module _ (p : AbstractProof) (init : ℕ) (d : IsMap p) (c : IsClosed p init) where
  premise-valid :
      (i : ℕ) (n : AbstractNode) (s : Premise)
      → HasPremise p i n s
      → valid_premise p n.tags s ≡ true
  premise-valid i n s h =
      let (n', m, inside) = c.child i n s h in
      let found = lookup-mem p s.child n' d m in
      let subset =
        for_all-intro (λ x. contains ⦃e = pair_eq⦄ x s.tag_pairs) s.progress
          (λ x k. (contains_iff ⦃e = pair_eq⦄ x s.tag_pairs).1 (c.progress_in i n s h x k)) in
      let sources = tag_subset-intro (map (λ (x : Tag × Tag). x.0) s.tag_pairs) n.tags (λ x k.
        let ((a, b), k', e) = Memᴰ.of_map (λ (y : Tag × Tag). y.0) s.tag_pairs k in
        subst (λ q. Memᴰ q n.tags) e (inside a b k').0) in
      let targets = tag_subset-intro (map (λ (x : Tag × Tag). x.1) s.tag_pairs) n'.tags (λ x k.
        let ((a, b), k', e) = Memᴰ.of_map (λ (y : Tag × Tag). y.1) s.tag_pairs k in
        subst (λ q. Memᴰ q n'.tags) e (inside a b k').1) in
      let node = is_node-found p s.child n' found in rw (node, found, subset, sources, targets) refl

  pub IsClosed-valid : valid p init ≡ true
  unfolding valid
  IsClosed-valid =
      let (n, m) = c.start in
      let all =
        for_all-intro (λ (x : ℕ × AbstractNode). for_all (valid_premise p x.1.tags) x.1.subg) p
          (λ (i, w) k.
            for_all-intro (valid_premise p w.tags) w.subg (λ s k'. premise-valid i w s (k, k'))) in
      rw (is_node-found p init n (lookup-mem p init n d m), all) refl
