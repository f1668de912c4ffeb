-- ===== src/Minimize/Exists.antt =====
-- Tests on the nodes of an abstract proof (src/generic/soundcheck.ml).
use cyclist.Base.{
  ℕ, Bool, true, List, [], ◌∷◌, Memᴰ, ◌≡◌, ◌↔◌, refl, subst, ◌==◌, ==_iff, ◌&&◌, ◌⊎◌, inl, inr,
  Bool-cases, arith, contains, contains_iff,
}
use mathlib.Core.List.Memᴰ
use cyclist.Proof.{Tag}
use cyclist.Soundcheck.{AbstractProof, AbstractNode, Premise, pair_eq}
use cyclist.Soundcheck.Meaning.{Edge, ProgressPair}
use cyclist.Minimize.Blist.{exists}
use cyclist.Minimize.{in_children}

pub exists_iff {ℓ} :
    {A : Type ℓ} (f : A → Bool) (xs : List A)
    → (exists f xs ≡ true) ↔ ((x : A) × Memᴰ x xs × (f x ≡ true))
unfolding exists
exists_iff f [] = (λ h. cc, λ (x, m, _). absurd (Memᴰ.not-nil m))
exists_iff f (x ∷ xs) = (
  λ h. elim (Bool-cases (f x)) [
    | inl hit ↦ (x, Memᴰ.head refl, hit)
    | inr miss ↦ let (y, m, e) = (exists_iff f xs).0 (ground (arith, miss)) in (y, Memᴰ.tail m, e)
  ],
  λ (y, m, e). elim (Memᴰ.cases_cons m) [
    | inl here ↦ let e' : f x ≡ true = subst (λ q. f q ≡ true) here e in ground arith
    | inr later ↦ let ih = (exists_iff f xs).1 (y, later, e) in ground (arith, ih)
  ],
)

and_iff : (a b : Bool) → ((a && b) ≡ true) ↔ ((a ≡ true) × (b ≡ true))
and_iff a b = ground arith

pub in_children_iff :
    (k : ℕ) (n : AbstractNode)
    → (in_children k n ≡ true) ↔ ((s : Premise) × Memᴰ s n.subg × (s.child ≡ k))
unfolding in_children
in_children_iff k n =
    let all = exists_iff (λ (s : Premise). s.child == k) n.subg in
    (
      λ h. let (s, m, e) = all.0 h in (s, m, (==_iff s.child k).0 e),
      λ (s, m, e). all.1 (s, m, (==_iff s.child k).1 e),
    )

-- Whether `i` has the premise `k`.
pub has_edge : AbstractProof → ℕ → ℕ → Bool
has_edge p i k = exists (λ (x : ℕ × AbstractNode). x.0 == i && in_children k x.1) p

pub has_edge_iff : (p : AbstractProof) (i k : ℕ) → (has_edge p i k ≡ true) ↔ Edge p i k
unfolding has_edge
has_edge_iff p i k =
    let all = exists_iff (λ (x : ℕ × AbstractNode). x.0 == i && in_children k x.1) p in
    (
      λ h.
          let ((j, n), m, e) = all.0 h in
          let (e1, e2) = (and_iff (j == i) (in_children k n)).0 e in
          let (s, m', e') = (in_children_iff k n).0 e2 in
          (n, s, (subst (λ q. Memᴰ (q, n) p) ((==_iff j i).0 e1) m, m'), e'),
      λ (n, s, (m, m'), e). all.1 (
        (i, n),
        m,
        (and_iff (i == i) (in_children k n)).1
            ((==_iff i i).1 refl, (in_children_iff k n).1 (s, m', e)),
      ),
    )

progress_test : AbstractProof → ℕ → ℕ → Tag → Tag → Bool
progress_test p i j k l =
    exists
      (λ (x : ℕ × AbstractNode).
        x.0 == i
        && exists (λ (s : Premise). s.child == j && contains ⦃e = pair_eq⦄ (k, l) s.progress)
            x.1.subg)
      p

progress_test_iff :
    (p : AbstractProof) (i j : ℕ) (k l : Tag)
    → (progress_test p i j k l ≡ true) ↔ ProgressPair p i j k l
unfolding progress_test
progress_test_iff p i j k l =
    let inner = λ (n : AbstractNode).
      exists_iff (λ (s : Premise). s.child == j && contains ⦃e = pair_eq⦄ (k, l) s.progress)
        n.subg in
    let all =
      exists_iff
        (λ (x : ℕ × AbstractNode).
          x.0 == i
          && exists (λ (s : Premise). s.child == j && contains ⦃e = pair_eq⦄ (k, l) s.progress)
              x.1.subg)
        p in
    (
      λ h.
          let ((i', n), m, e) = all.0 h in
          let (e1, e2) = (and_iff (i' == i) _).0 e in
          let (s, m', e') = (inner n).0 e2 in
          let (e3, e4) = (and_iff (s.child == j) _).0 e' in
          (
            n,
            s,
            (subst (λ q. Memᴰ (q, n) p) ((==_iff i' i).0 e1) m, m'),
            (==_iff s.child j).0 e3,
            (contains_iff ⦃e = pair_eq⦄ (k, l) s.progress).0 e4,
          ),
      λ (n, s, (m, m'), e, at_s). all.1 (
        (i, n),
        m,
        (and_iff (i == i) _).1 (
          (==_iff i i).1 refl,
          (inner n).1 (
            s,
            m',
            (and_iff (s.child == j) _).1
                ((==_iff s.child j).1 e, (contains_iff ⦃e = pair_eq⦄ (k, l) s.progress).1 at_s),
          ),
        ),
      ),
    )

pub ProgressPair-decided :
    (p : AbstractProof) (i j : ℕ) (k l : Tag) → ProgressPair p i j k l ⊎ (¬ ProgressPair p i j k l)
ProgressPair-decided p i j k l = elim (Bool-cases (progress_test p i j k l)) [
  | inl hit ↦ inl ((progress_test_iff p i j k l).0 hit)
  | inr miss ↦ inr (λ h. cc (miss, (progress_test_iff p i j k l).1 h))
]
