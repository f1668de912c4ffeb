-- ===== src/Minimize/Premises.antt =====
-- Premises with distinct children, one of which is taken out or led elsewhere
-- (src/generic/soundcheck.ml).
use cyclist.Base.{
  ℕ, Bool, true, false, List, [], ◌∷◌, Memᴰ, ◌≡◌, ◌≢◌, ◌↔◌, ◌⊎◌, refl, sym, ap, ◌∙◌, ◌==◌,
  Bool-cases, inl, inr, ==_iff,
}
use mathlib.Core.List.Memᴰ
use cyclist.Soundcheck.{Premise}
use cyclist.Minimize.First.{without_first, map_first}

-- The test for a premise that is `child`.
abbrev pub leads_to : ℕ → Premise → Bool
leads_to child s = s.child == child

abbrev pub DistinctChildren : List Premise → Type 0
DistinctChildren [] = Unit {0}
DistinctChildren (s ∷ ss) = ((t : Premise) → Memᴰ t ss → t.child ≢ s.child) × DistinctChildren ss

module _ (k : ℕ) where
  leads : (s : Premise) → leads_to k s ≡ true → s.child ≡ k
  leads s h = (==_iff s.child k).0 h

  leads_not : (s : Premise) → leads_to k s ≡ false → s.child ≢ k
  leads_not s h e = cc (h, (==_iff s.child k).1 e)

  pub mem-without_first :
      (xs : List Premise) (t : Premise)
      → DistinctChildren xs
      → Memᴰ t (without_first (leads_to k) xs) ↔ (Memᴰ t xs × (t.child ≢ k))
  mem-without_first [] t d = (λ m. absurd (Memᴰ.not-nil m), λ (m, _). m)
  mem-without_first (x ∷ xs) t d = elim (Bool-cases (leads_to k x)) [
    | inl hit ↦ rw hit (
      λ m. (Memᴰ.tail m, λ e. d.0 t m (e ∙ sym (leads x hit))),
      λ (m, other). elim (Memᴰ.cases_cons m) [
        | inl here ↦ absurd (other (ap (λ (s : Premise). s.child) here ∙ leads x hit))
        | inr later ↦ later
      ],
    )
    | inr miss ↦
        let ih = mem-without_first xs t d.1 in
        rw miss (
          λ m. elim (Memᴰ.cases_cons m) [
            | inl here ↦ (
              Memᴰ.head here,
              λ e. leads_not x miss (sym (ap (λ (s : Premise). s.child) here) ∙ e),
            )
            | inr later ↦ (Memᴰ.tail (ih.0 later).0, (ih.0 later).1)
          ],
          λ (m, other). elim (Memᴰ.cases_cons m) [
            | inl here ↦ Memᴰ.head here
            | inr later ↦ Memᴰ.tail (ih.1 (later, other))
          ],
        )
  ]

  pub without_first-DistinctChildren :
      (xs : List Premise) → DistinctChildren xs → DistinctChildren (without_first (leads_to k) xs)
  without_first-DistinctChildren [] d = tt
  without_first-DistinctChildren (x ∷ xs) d = elim (Bool-cases (leads_to k x)) [
    | inl hit ↦ rw hit d.1
    | inr miss ↦
        rw miss (
          (λ t m. d.0 t ((mem-without_first xs t d.1).0 m).0),
          without_first-DistinctChildren xs d.1,
        )
  ]

  module _ (f : Premise → Premise) where
    -- The premise that is led elsewhere.
    abbrev pub Led : List Premise → Premise → Type 0
    Led xs t = (x : Premise) × Memᴰ x xs × (x.child ≡ k) × (t ≡ f x)

    pub mem-map_first :
        (xs : List Premise) (t : Premise)
        → DistinctChildren xs
        → Memᴰ t (map_first (leads_to k) f xs) ↔ ((Memᴰ t xs × (t.child ≢ k)) ⊎ Led xs t)
    mem-map_first [] t d = (
      λ m. absurd (Memᴰ.not-nil m),
      elim [ inl (m, _) ↦ m | inr (x, m, _, _) ↦ absurd (Memᴰ.not-nil m) ],
    )
    mem-map_first (x ∷ xs) t d = elim (Bool-cases (leads_to k x)) [
      | inl hit ↦ rw hit (
        λ m. elim (Memᴰ.cases_cons m) [
          | inl here ↦ inr (x, Memᴰ.head refl, leads x hit, here)
          | inr later ↦ inl (Memᴰ.tail later, λ e. d.0 t later (e ∙ sym (leads x hit)))
        ],
        elim [
          | inl (m, other) ↦ elim (Memᴰ.cases_cons m) [
            | inl here ↦ absurd (other (ap (λ (s : Premise). s.child) here ∙ leads x hit))
            | inr later ↦ Memᴰ.tail later
          ]
          | inr (y, m, e, same) ↦ elim (Memᴰ.cases_cons m) [
            | inl here ↦ Memᴰ.head (same ∙ ap f here)
            | inr later ↦ absurd (d.0 y later (e ∙ sym (leads x hit)))
          ]
        ],
      )
      | inr miss ↦
          let ih = mem-map_first xs t d.1 in
          rw miss (
            λ m. elim (Memᴰ.cases_cons m) [
              | inl here ↦ inl (
                Memᴰ.head here,
                λ e. leads_not x miss (sym (ap (λ (s : Premise). s.child) here) ∙ e),
              )
              | inr later ↦ elim (ih.0 later) [
                | inl (m', other) ↦ inl (Memᴰ.tail m', other)
                | inr (y, m', e, same) ↦ inr (y, Memᴰ.tail m', e, same)
              ]
            ],
            elim [
              | inl (m, other) ↦ elim (Memᴰ.cases_cons m) [
                | inl here ↦ Memᴰ.head here
                | inr later ↦ Memᴰ.tail (ih.1 (inl (later, other)))
              ]
              | inr (y, m, e, same) ↦ elim (Memᴰ.cases_cons m) [
                | inl here ↦
                    absurd (leads_not x miss (sym (ap (λ (s : Premise). s.child) here) ∙ e))
                | inr later ↦ Memᴰ.tail (ih.1 (inr (y, later, e, same)))
              ]
            ],
          )
    ]

    -- Where no premise is the new child.
    pub map_first-DistinctChildren :
        (xs : List Premise) (g : ℕ)
        → ((x : Premise) → (f x).child ≡ g)
        → DistinctChildren xs
        → ((x : Premise) → Memᴰ x xs → x.child ≡ k → (t : Premise) → Memᴰ t xs → t.child ≢ g)
        → DistinctChildren (map_first (leads_to k) f xs)
    map_first-DistinctChildren [] g to_g d free = tt
    map_first-DistinctChildren (x ∷ xs) g to_g d free = elim (Bool-cases (leads_to k x)) [
      | inl hit ↦
          rw hit
            ((λ t m e. free x (Memᴰ.head refl) (leads x hit) t (Memᴰ.tail m) (e ∙ to_g x)), d.1)
      | inr miss ↦ rw miss (
        (λ t m e. elim ((mem-map_first xs t d.1).0 m) [
          | inl (m', _) ↦ d.0 t m' e
          | inr (y, m', e', same) ↦
              free y (Memᴰ.tail m') e' x (Memᴰ.head refl)
                (sym e ∙ ap (λ (s : Premise). s.child) same ∙ to_g y)
        ]),
        map_first-DistinctChildren xs g to_g d.1
            (λ y m e t m'. free y (Memᴰ.tail m) e t (Memᴰ.tail m')),
      )
    ]

pub DistinctChildren-unique :
    (xs : List Premise) (x y : Premise)
    → DistinctChildren xs
    → Memᴰ x xs
    → Memᴰ y xs
    → x.child ≡ y.child
    → x ≡ y
DistinctChildren-unique [] x y d m k e = absurd (Memᴰ.not-nil m)
DistinctChildren-unique (z ∷ xs) x y d m k e = elim (Memᴰ.cases_cons m) [
  | inl here ↦ elim (Memᴰ.cases_cons k) [
    | inl here' ↦ here ∙ sym here'
    | inr later ↦ absurd (d.0 y later (sym e ∙ ap (λ (s : Premise). s.child) here))
  ]
  | inr later ↦ elim (Memᴰ.cases_cons k) [
    | inl here ↦ absurd (d.0 x later (e ∙ ap (λ (s : Premise). s.child) here))
    | inr later' ↦ DistinctChildren-unique xs x y d.1 later later' e
  ]
]
