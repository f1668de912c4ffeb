-- ===== src/Minimize/Pairs.antt =====
-- The elements of the composed and united sets of pairs (src/generic/soundcheck.ml).
use cyclist.Base.{
  List, [], ◌∷◌, Memᴰ, ◌≡◌, ◌↔◌, ◌⊎◌, inl, inr, refl, sym, ap, subst, ◌==◌, ==_iff, if◌then◌else◌,
  Bool-cases, mem-insert,
}
use mathlib.Core.List.Memᴰ
use cyclist.Proof.{Tag}
use cyclist.Soundcheck.{pair_eq}
use cyclist.Minimize.Maps.{fold}
use cyclist.Minimize.{TagPairs, add_pair, extend, compose, union_of_list}

-- What each round adds, the fold adds.
pub mem-fold {ℓ κ} :
    {A : Type ℓ} {B : Type κ} (f : A → List B → List B) (P : A → B → Type κ)
    → ((x : A) (a : List B) (y : B) → Memᴰ y (f x a) ↔ (P x y ⊎ Memᴰ y a))
    → (xs : List A) (a : List B) (y : B)
    → Memᴰ y (fold f xs a) ↔ (((x : A) × Memᴰ x xs × P x y) ⊎ Memᴰ y a)
unfolding fold
mem-fold f P adds [] a y = (inr, elim [ inl (x, m, _) ↦ absurd (Memᴰ.not-nil m) | inr m ↦ m ])
mem-fold f P adds (x ∷ xs) a y =
    let ih = mem-fold f P adds xs (f x a) y in
    (
      λ m. elim (ih.0 m) [
        | inl (z, k, h) ↦ inl (z, Memᴰ.tail k, h)
        | inr k ↦ elim ((adds x a y).0 k) [ inl h ↦ inl (x, Memᴰ.head refl, h) | inr old ↦ inr old ]
      ],
      elim [
        | inl (z, k, h) ↦ elim (Memᴰ.cases_cons k) [
          | inl same ↦ ih.1 (inr ((adds x a y).1 (inl (subst (λ q. P q y) same h))))
          | inr later ↦ ih.1 (inl (z, later, h))
        ]
        | inr old ↦ ih.1 (inr ((adds x a y).1 (inr old)))
      ],
    )

-- The pair through a common end.
abbrev Meets : Tag × Tag → Tag × Tag → Tag × Tag → Type 0
Meets x w y = (x.1 ≡ w.0) × (y ≡ (x.0, w.1))

mem-extend :
    (x : Tag × Tag) (t2 a : TagPairs) (y : Tag × Tag)
    → Memᴰ y (extend x t2 a) ↔ (((w : Tag × Tag) × Memᴰ w t2 × Meets x w y) ⊎ Memᴰ y a)
unfolding extend
mem-extend x t2 a y =
    mem-fold (λ w b. if x.1 == w.0 then add_pair (x.0, w.1) b else b) (λ w z. Meets x w z)
      (λ w b z. elim (Bool-cases (x.1 == w.0)) [
        | inl hit ↦
            let added = mem-insert ⦃e = pair_eq⦄ z (x.0, w.1) b in
            rw hit (
              (λ m. elim (added.0 m) [
                | inl new ↦ inl ((==_iff x.1 w.0).0 hit, new)
                | inr old ↦ inr old
              ]),
              λ h. added.1 (elim h [ inl (_, new) ↦ inl new | inr old ↦ inr old ]),
            )
        | inr miss ↦
            rw miss
              (inr, elim [ inl (same, _) ↦ cc (miss, (==_iff x.1 w.0).1 same) | inr old ↦ old ])
      ])
      t2 a y

-- The composition of two sets of pairs has exactly the pairs that meet in a common tag.
pub mem-compose :
    (t1 t2 : TagPairs) (k l : Tag)
    → Memᴰ (k, l) (compose t1 t2) ↔ ((m : Tag) × Memᴰ (k, m) t1 × Memᴰ (m, l) t2)
unfolding compose
mem-compose t1 t2 k l =
    let all =
      mem-fold (λ x a. extend x t2 a) (λ x y. (w : Tag × Tag) × Memᴰ w t2 × Meets x w y)
        (λ x a y. mem-extend x t2 a y) t1 [] (k, l) in
    (
      λ h. elim (all.0 h) [
        | inl ((a, b), at_1, ((c, d), at_2, (same, ends))) ↦
            let first : k ≡ a = ap (λ (q : Tag × Tag). q.0) ends in
            let last : l ≡ d = ap (λ (q : Tag × Tag). q.1) ends in
            (b, subst (λ q. Memᴰ (q, b) t1) (sym first) at_1, rw (same, last) at_2)
        | inr nothing ↦ absurd (Memᴰ.not-nil nothing)
      ],
      λ (m, at_1, at_2). all.1 (inl ((k, m), at_1, ((m, l), at_2, (refl, refl)))),
    )

pub mem-union_of_list :
    (ts : List TagPairs) (y : Tag × Tag)
    → Memᴰ y (union_of_list ts) ↔ ((t : TagPairs) × Memᴰ t ts × Memᴰ y t)
unfolding union_of_list
mem-union_of_list ts y =
    let all =
      mem-fold (λ t s. fold add_pair t s) (λ t z. (x : Tag × Tag) × Memᴰ x t × (z ≡ x))
        (λ t s z. mem-fold add_pair (λ x q. q ≡ x) (λ x b q. mem-insert ⦃e = pair_eq⦄ q x b) t s z)
        ts [] y in
    (
      λ h. elim (all.0 h) [
        | inl (t, k, (x, at_t, same)) ↦ (t, k, Memᴰ.cast same at_t)
        | inr nothing ↦ absurd (Memᴰ.not-nil nothing)
      ],
      λ (t, k, at_t). all.1 (inl (t, k, (y, at_t, refl))),
    )
